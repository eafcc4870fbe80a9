-- ===== src/Pallet/Types.antt =====
-- The storage, events and errors of pallet-tft-bridge/src/lib.rs, and what it takes from its runtime.
use tfchain_tft_bridge.Prelude.{ℕ, Bool, Option, List, [], Bytes}
use tfchain_tft_bridge.Pallet.Keyed.{Keyed}

-- `T::AccountId`, which the pallet only compares: the number that its bytes write in big-endian order.
abbrev pub Account : Type 0
Account = ℕ

pub record MintTransaction : Type 0 where
  pub amount : ℕ
  pub target : Account
  pub block : ℕ
  pub votes : ℕ

pub record StellarSignature : Type 0 where
  pub signature : Bytes
  pub stellar_pub_key : Bytes

pub record BurnTransaction : Type 0 where
  pub block : ℕ
  pub amount : ℕ
  pub target : Bytes
  pub signatures : List StellarSignature
  pub sequence_number : ℕ

pub record RefundTransaction : Type 0 where
  pub block : ℕ
  pub amount : ℕ
  pub target : Bytes
  pub tx_hash : Bytes
  pub signatures : List StellarSignature
  pub sequence_number : ℕ

-- `Default`, which a `ValueQuery` gives for a key that is not there.
abbrev pub default_burn : BurnTransaction
default_burn = record { block = 0; amount = 0; target = []; signatures = []; sequence_number = 0 }

abbrev pub default_refund : RefundTransaction
default_refund = record {
  block = 0;
  amount = 0;
  target = [];
  tx_hash = [];
  signatures = [];
  sequence_number = 0;
}

pub data Event : Type 0 where
  mint_transaction_proposed : Bytes → Account → ℕ → Event
  mint_transaction_voted : Bytes → Event
  mint_completed : MintTransaction → Event
  mint_transaction_expired : Bytes → ℕ → Account → Event
  burn_transaction_created : ℕ → Account → Bytes → ℕ → Event
  burn_transaction_proposed : ℕ → Bytes → ℕ → Event
  burn_transaction_signature_added : ℕ → StellarSignature → Event
  burn_transaction_ready : ℕ → Event
  burn_transaction_processed : BurnTransaction → Event
  burn_transaction_expired : ℕ → Bytes → ℕ → Event
  refund_transaction_created : Bytes → Bytes → ℕ → Event
  refund_transaction_signature_added : Bytes → StellarSignature → Event
  refund_transaction_ready : Bytes → Event
  refund_transaction_processed : RefundTransaction → Event
  refund_transaction_expired : Bytes → Bytes → ℕ → Event

-- The errors of the pallet, and those of the runtime: a wrong origin and what the currency refuses.
pub data DispatchError : Type 0 where
  validator_exists validator_not_exists : DispatchError
  transaction_validator_exists transaction_validator_not_exists : DispatchError
  mint_transaction_exists mint_transaction_already_executed : DispatchError
  mint_transaction_not_exists burn_transaction_exists burn_transaction_not_exists : DispatchError
  burn_signature_exists enough_burn_signatures_present refund_signature_exists : DispatchError
  burn_transaction_already_executed refund_transaction_not_exists : DispatchError
  refund_transaction_already_executed enough_refund_signatures_present : DispatchError
  not_enough_balance_to_swap amount_is_less_than_withdraw_fee : DispatchError
  amount_is_less_than_deposit_fee wrong_parameters_provided : DispatchError
  invalid_stellar_public_key : DispatchError
  bad_origin : DispatchError
  of_currency : DispatchError

pub data Origin : Type 0 where
  root unsigned : Origin
  signed : Account → Origin

-- What the runtime gives: `Currency`, `Burn`, `RestrictedOrigin`, `RetryInterval`, and the test of
-- substrate-stellar-sdk for a public key. A balance is a u64, so its saturating conversions from and to
-- u64 change nothing.
pub record Runtime : Type 1 where
  pub Balances : Type 0
  pub usable_balance : Balances → Account → ℕ
  pub withdraw : Account → ℕ → Balances → Option Balances
  pub deposit_creating : Account → ℕ → Balances → Balances
  pub on_unbalanced : ℕ → Balances → Balances
  pub is_restricted : Origin → Bool
  pub retry_interval : ℕ
  pub is_public_key : Bytes → Bool

-- The storage of the pallet, with the block number of frame_system, the balances, and the events that
-- were deposited, newest first.
pub record Storage (R : Runtime) : Type 0 where
  pub validators : List Account
  pub fee_account : Option Account
  pub mint_transactions : Keyed Bytes MintTransaction
  pub executed_mint_transactions : Keyed Bytes MintTransaction
  pub burn_transactions : Keyed ℕ BurnTransaction
  pub executed_burn_transactions : Keyed ℕ BurnTransaction
  pub refund_transactions : Keyed Bytes RefundTransaction
  pub executed_refund_transactions : Keyed Bytes RefundTransaction
  pub burn_transaction_id : ℕ
  pub withdraw_fee : ℕ
  pub deposit_fee : ℕ
  pub block_number : ℕ
  pub balances : R.Balances
  pub events : List Event
