-- ===== src/Env/Types.antt =====
-- The data that the daemon exchanges with the libraries it calls. Each record has the fields that
-- the daemon reads or fills.
use tfchain_tft_bridge.Prelude.{ℕ, ℤ, Bool, Option, List, Text, Bytes}
use tfchain_tft_bridge.Errors.{Error}

-- An account of TFChain, `[32]byte`.
abbrev pub AccountId : Type 0
AccountId = Bytes

-- `StellarSignature` of tfchain_bridge/pkg/config.go, as the client library has it too.
pub record StellarSignature : Type 0 where
  pub signature : Bytes
  pub stellar_address : Bytes

-- The burn and refund transactions that the chain stores (substrate-client).
pub record BurnTransaction : Type 0 where
  pub target : Text
  pub amount : ℕ
  pub signatures : List StellarSignature
  pub sequence_number : ℕ

pub record RefundTransaction : Type 0 where
  pub target : Text
  pub amount : ℕ
  pub tx_hash : Text
  pub signatures : List StellarSignature
  pub sequence_number : ℕ

-- The events of the bridge pallet in a block (`substrate.EventRecords`).
pub record RefundReadyRecord : Type 0 where
  pub refund_transaction_hash : Bytes

pub record RefundExpiredRecord : Type 0 where
  pub refund_transaction_hash : Bytes
  pub target : Bytes
  pub amount : ℕ

pub record BurnCreatedRecord : Type 0 where
  pub burn_transaction_id : ℕ
  pub source : AccountId
  pub target : Bytes
  pub amount : ℕ

pub record BurnReadyRecord : Type 0 where
  pub burn_transaction_id : ℕ

pub record BurnExpiredRecord : Type 0 where
  pub burn_transaction_id : ℕ
  pub target : Bytes
  pub amount : ℕ

pub record EventRecords : Type 0 where
  pub refund_transaction_ready : List RefundReadyRecord
  pub refund_transaction_expired : List RefundExpiredRecord
  pub burn_transaction_created : List BurnCreatedRecord
  pub burn_transaction_ready : List BurnReadyRecord
  pub burn_transaction_expired : List BurnExpiredRecord

-- Which Horizon server a client talks to.
pub data HorizonClient : Type 0 where
  at_url : Text → HorizonClient
  default_testnet default_public : HorizonClient

-- `hProtocol.Account`, with both results of its `GetSequenceNumber`.
pub record Balance : Type 0 where
  pub code : Text
  pub issuer : Text
  pub limit : Text

pub record Account : Type 0 where
  pub account_id : Text
  pub med_threshold : ℕ
  pub balances : List Balance
  pub get_sequence_number : ℤ × Option Error

-- `hProtocol.Transaction`
pub record Transaction : Type 0 where
  pub hash : Text
  pub memo : Text
  pub memo_type : Text
  pub successful : Bool
  pub paging_token : Text

-- An effect; the asset is that of an `AccountCredited`.
pub record Effect : Type 0 where
  pub account : Text
  pub kind : Text
  pub asset_code : Text
  pub asset_issuer : Text

-- An operation; the last fields are those of a `Payment`.
pub record Operation : Type 0 where
  pub kind : Text
  pub from_account : Text
  pub to_account : Text
  pub amount : Text
  pub asset_code : Text
  pub asset_issuer : Text

-- `txnbuild.Payment`, `txnbuild.TransactionParams` and the memo that it may carry.
pub record Payment : Type 0 where
  pub destination : Text
  pub amount : Text
  pub asset_code : Text
  pub asset_issuer : Text
  pub source_account : Text

pub data Memo : Type 0 where
  no_memo : Memo
  memo_return : Bytes → Memo

pub record TransactionParams : Type 0 where
  pub operations : List Payment
  pub infinite_timeout : Bool
  pub account_id : Text
  pub sequence : ℤ
  pub base_fee : ℕ
  pub increment_sequence_num : Bool
  pub memo : Memo

-- `Blockheight` of tfchain_bridge/pkg/persistency.go.
pub record Blockheight : Type 0 where
  pub last_height : ℕ
  pub stellar_cursor : Text

pub data FileRead : Type 0 where
  not_exist : FileRead
  read_error : Error → FileRead
  content : Bytes → FileRead

-- `context.Background()` never ends; `running` is the context of `main`, which a signal cancels.
pub data Context : Type 0 where
  background running : Context

-- What a `select` on the subscription to the finalized heads gives: the number of a head, an error of
-- the subscription, or the end of the context.
pub data HeadEvent : Type 0 where
  new_head : ℕ → HeadEvent
  subscription_error : Error → HeadEvent
  context_done : HeadEvent
