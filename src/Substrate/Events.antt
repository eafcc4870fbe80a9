-- ===== src/Substrate/Events.antt =====
-- tfchain_bridge/pkg/substrate/events.go: the bridge events of a block.
pub mod Records
use tfchain_tft_bridge.Prelude.{ℕ, Option, List, [], map, Text, ◌==◌, if◌then◌else◌}
use tfchain_tft_bridge.Errors.{Error}
use tfchain_tft_bridge.Exec.{pure, ◌>>=◌}
use tfchain_tft_bridge.Env.{Env}
use tfchain_tft_bridge.Env.Types.{
  AccountId, EventRecords, RefundReadyRecord, RefundExpiredRecord, BurnCreatedRecord,
  BurnReadyRecord, BurnExpiredRecord,
}
use tfchain_tft_bridge.World.{Action, ask}

pub record WithdrawCreatedEvent : Type 0 where
  pub id : ℕ
  pub source : AccountId
  pub target : Text
  pub amount : ℕ

pub record WithdrawReadyEvent : Type 0 where
  pub id : ℕ

pub record WithdrawExpiredEvent : Type 0 where
  pub id : ℕ
  pub target : Text
  pub amount : ℕ

pub record RefundTransactionCreatedEvent : Type 0 where
  pub hash : Text
  pub target : Text
  pub amount : ℕ
  pub tx_id : Text

pub record RefundTransactionReadyEvent : Type 0 where
  pub hash : Text

pub record RefundTransactionExpiredEvent : Type 0 where
  pub hash : Text
  pub target : Text
  pub amount : ℕ

pub record Events : Type 0 where
  pub withdraw_created_events : List WithdrawCreatedEvent
  pub withdraw_ready_events : List WithdrawReadyEvent
  pub withdraw_expired_events : List WithdrawExpiredEvent
  pub refund_created_events : List RefundTransactionCreatedEvent
  pub refund_ready_events : List RefundTransactionReadyEvent
  pub refund_expired_events : List RefundTransactionExpiredEvent

pub record EventSubscription : Type 0 where
  pub events : Events
  pub err : Option Error

abbrev pub no_events : Events
no_events = record {
  withdraw_created_events = [];
  withdraw_ready_events = [];
  withdraw_expired_events = [];
  refund_created_events = [];
  refund_ready_events = [];
  refund_expired_events = [];
}

-- What each loop appends for a record.
abbrev pub refund_ready_event : RefundReadyRecord → RefundTransactionReadyEvent
refund_ready_event e = record { hash = e.refund_transaction_hash }

abbrev pub refund_expired_event : RefundExpiredRecord → RefundTransactionExpiredEvent
refund_expired_event e = record {
  hash = e.refund_transaction_hash;
  target = e.target;
  amount = e.amount;
}

abbrev pub withdraw_created_event : BurnCreatedRecord → WithdrawCreatedEvent
withdraw_created_event e = record {
  id = e.burn_transaction_id;
  source = e.source;
  target = e.target;
  amount = e.amount;
}

abbrev pub withdraw_ready_event : BurnReadyRecord → WithdrawReadyEvent
withdraw_ready_event e = record { id = e.burn_transaction_id }

abbrev pub withdraw_expired_event : BurnExpiredRecord → WithdrawExpiredEvent
withdraw_expired_event e = record {
  id = e.burn_transaction_id;
  target = e.target;
  amount = e.amount;
}

-- No loop fills the created refunds.
unfoldable pub process_event_records : EventRecords → Events
process_event_records events = record {
  withdraw_created_events = map withdraw_created_event events.burn_transaction_created;
  withdraw_ready_events = map withdraw_ready_event events.burn_transaction_ready;
  withdraw_expired_events = map withdraw_expired_event events.burn_transaction_expired;
  refund_created_events = [];
  refund_ready_events = map refund_ready_event events.refund_transaction_ready;
  refund_expired_events = map refund_expired_event events.refund_transaction_expired;
}

unfoldable pub process_events_for_height : {E : Env} → ℕ → Action E Events
process_events_for_height {E} height =
    if height == 0
    then pure no_events
    else do records ← ask (E.get_events_for_block height); pure (process_event_records records)
