-- ===== src/Env.antt =====
-- The libraries and machines that the daemon talks to: the client library of TFChain, Stellar's
-- Horizon server and SDK, and the operating system. None of their code is in the repository, so
-- they are parameters: an unknown state, and the answer of each call with the state after it.
pub mod Types
use tfchain_tft_bridge.Prelude.{ℕ, ℤ, Bool, List, Text, Bytes}
use tfchain_tft_bridge.Errors.{Error, Result}
use tfchain_tft_bridge.Env.Types.{
  AccountId, BurnTransaction, RefundTransaction, EventRecords, HorizonClient, Account, Transaction,
  Effect, Operation, TransactionParams, Blockheight, FileRead, HeadEvent,
}

abbrev pub Call : Type 0 → Type 0 → Type 0
Call S A = S → Result A × S

-- github.com/threefoldtech/substrate-client
pub record Chain (S : Type 0) : Type 1 where
  pub Identity : Type 0
  pub connect : Text → Call S Unit
  pub new_identity : Text → Result Identity
  pub is_validator : Identity → Call S Bool
  pub get_deposit_fee : Call S ℤ
  pub is_minted_already : Text → Call S Bool
  pub is_refunded_already : Text → Call S Bool
  pub is_burned_already : ℕ → Call S Bool
  pub propose_or_vote_mint_transaction : Identity → Text → AccountId → ℤ → Call S Unit
  pub propose_burn_transaction_or_add_sig : Identity → ℕ → Text → ℤ → Text → Text → ℕ → Call S Unit
  pub set_burn_transaction_executed : Identity → ℕ → Call S Unit
  pub create_refund_transaction_or_add_sig :
      Identity → Text → Text → ℤ → Text → Text → ℕ → Call S Unit
  pub set_refund_transaction_executed : Identity → Text → Call S Unit
  pub get_burn_transaction : ℕ → Call S BurnTransaction
  pub get_refund_transaction : Text → Call S RefundTransaction
  -- The account of a twin and of an entity, and the twin of a farm and of a node.
  pub get_twin : ℕ → Call S AccountId
  pub get_farm : ℕ → Call S ℕ
  pub get_node : ℕ → Call S ℕ
  pub get_entity : ℕ → Call S AccountId
  pub account_string : AccountId → Text
  pub from_address : Text → Result AccountId
  pub get_events_for_block : ℕ → Call S EventRecords
  -- The connection and its subscription to the finalized heads; `reopen` is the loop of
  -- github.com/cenkalti/backoff around a new subscription, and an error of it leaves none.
  pub get_client : Call S Unit
  pub subscribe_finalized_heads : Call S Unit
  pub next_head : S → HeadEvent × S
  pub reopen : Call S Unit

-- github.com/stellar/go. Building and signing a transaction are functions of their arguments.
pub record Stellar (S : Type 0) : Type 1 where
  pub Keypair : Type 0
  pub Tx : Type 0
  pub parse_full : Text → Result Keypair
  pub address : Keypair → Text
  pub account_detail : HorizonClient → Text → Call S Account
  pub transactions : HorizonClient → Text → Text → Call S (List Transaction)
  pub effects : HorizonClient → Text → Call S (List Effect)
  pub operations : HorizonClient → Text → Call S (List Operation)
  pub submit_transaction : HorizonClient → Tx → Call S Text
  pub new_transaction : TransactionParams → Result Tx
  pub sign : Text → Keypair → Tx → Result Tx
  pub signatures : Tx → List Bytes
  pub sequence_number : Tx → ℤ
  pub add_signature_base64 : Text → Text → Text → Tx → Result Tx
  pub test_network_passphrase : Text
  pub public_network_passphrase : Text
  pub min_base_fee : ℕ
  pub parse_int64 : Text → Result ℤ

-- The operating system, `encoding/json`, and the floats of `strconv.ParseFloat`.
pub record Host (S : Type 0) : Type 1 where
  pub read_file : Text → S → FileRead × S
  pub write_file : Text → Bytes → Call S Unit
  pub marshal : Blockheight → Result Bytes
  pub unmarshal : Bytes → Result Blockheight
  -- A `select` with a `default`: true if the running context has ended.
  pub poll : S → Bool × S
  -- A `select` between the end of the running context and a timer: true if the context ended.
  pub wait : S → Bool × S
  pub Float : Type 0
  pub parse_float : Text → Result Float
  -- The test `f > 0`.
  pub is_positive : Float → Bool

pub record Env : Type 1 where
  pub State : Type 0
  pub chain : Chain State
  pub open chain use *
  pub stellar : Stellar State
  pub open stellar use *
  pub host : Host State
  pub open host use *
