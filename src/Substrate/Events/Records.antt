-- ===== src/Substrate/Events/Records.antt =====
-- `processEventRecords` of tfchain_bridge/pkg/substrate/events.go keeps the events of a block.
use tfchain_tft_bridge.Prelude.{◌≡◌, refl, List, [], ◌∷◌, map}
use tfchain_tft_bridge.Env.Types.{
  EventRecords, RefundReadyRecord, RefundExpiredRecord, BurnCreatedRecord, BurnReadyRecord,
  BurnExpiredRecord,
}
use tfchain_tft_bridge.Substrate.Events.{
  WithdrawCreatedEvent, WithdrawReadyEvent, WithdrawExpiredEvent, RefundTransactionReadyEvent,
  RefundTransactionExpiredEvent, Events, refund_ready_event, refund_expired_event,
  withdraw_created_event, withdraw_ready_event, withdraw_expired_event, process_event_records,
}

abbrev refund_ready_record : RefundTransactionReadyEvent → RefundReadyRecord
refund_ready_record e = record { refund_transaction_hash = e.hash }

abbrev refund_expired_record : RefundTransactionExpiredEvent → RefundExpiredRecord
refund_expired_record e = record {
  refund_transaction_hash = e.hash;
  target = e.target;
  amount = e.amount;
}

abbrev burn_created_record : WithdrawCreatedEvent → BurnCreatedRecord
burn_created_record e = record {
  burn_transaction_id = e.id;
  source = e.source;
  target = e.target;
  amount = e.amount;
}

abbrev burn_ready_record : WithdrawReadyEvent → BurnReadyRecord
burn_ready_record e = record { burn_transaction_id = e.id }

abbrev burn_expired_record : WithdrawExpiredEvent → BurnExpiredRecord
burn_expired_record e = record { burn_transaction_id = e.id; target = e.target; amount = e.amount }

-- The records that the events came from.
pub records_of : Events → EventRecords
records_of events = record {
  refund_transaction_ready = map refund_ready_record events.refund_ready_events;
  refund_transaction_expired = map refund_expired_record events.refund_expired_events;
  burn_transaction_created = map burn_created_record events.withdraw_created_events;
  burn_transaction_ready = map burn_ready_record events.withdraw_ready_events;
  burn_transaction_expired = map burn_expired_record events.withdraw_expired_events;
}

map-map_self :
    {A B : Type 0} (f : A → B) (g : B → A) (l : List A)
    → ((a : A) → g (f a) ≡ a)
    → map g (map f l) ≡ l
map-map_self f g [] h = refl
map-map_self f g (a ∷ l) h = λ i. h a i ∷ map-map_self f g l h i

-- The events of a block say all that its records say: every record of one of the five kinds gives one
-- event of that kind, in the same order and with the same data. No event says that a refund was
-- created.
pub records_of-process_event_records :
    (records : EventRecords)
    → (records_of (process_event_records records) ≡ records)
      × ((process_event_records records).refund_created_events ≡ [])
unfolding records_of process_event_records
records_of-process_event_records records = (
  λ i. record {
    refund_transaction_ready =
        map-map_self refund_ready_event refund_ready_record records.refund_transaction_ready
          (λ a. refl) i;
    refund_transaction_expired =
        map-map_self refund_expired_event refund_expired_record records.refund_transaction_expired
          (λ a. refl) i;
    burn_transaction_created =
        map-map_self withdraw_created_event burn_created_record records.burn_transaction_created
          (λ a. refl) i;
    burn_transaction_ready =
        map-map_self withdraw_ready_event burn_ready_record records.burn_transaction_ready
          (λ a. refl) i;
    burn_transaction_expired =
        map-map_self withdraw_expired_event burn_expired_record records.burn_transaction_expired
          (λ a. refl) i;
  },
  refl,
)
