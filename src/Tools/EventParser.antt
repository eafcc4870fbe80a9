-- ===== src/Tools/EventParser.antt =====
-- tfchain_bridge/tools/eventParser/main.go: prints the events of the bridge in three blocks.
pub mod Reports
use tfchain_tft_bridge.Prelude.{
  ℕ, zero, suc, ◌+◌, ◌-◌, ◌%◌, ◌^◌, Bool, List, [], ◌∷◌, ◌++◌, Text, Bytes, codes, if◌then◌else◌,
}
use tfchain_tft_bridge.Errors.{Error, Result, value, error}
use tfchain_tft_bridge.Exec.{Exec, Outcome, ok, pure, raise, abort, try, ◌>>=◌, ◌>>◌}
use tfchain_tft_bridge.Env.Types.{
  EventRecords, RefundReadyRecord, RefundExpiredRecord, BurnCreatedRecord, BurnReadyRecord,
  BurnExpiredRecord,
}

-- The lines of the log.
pub data Line : Type 0 where
  fetching failed_to_decode_block failed_to_decode_events : ℕ → Line
  found_refund_ready found_refund_expired : Bytes → Line
  found_burn_created found_burn_ready found_burn_expired : ℕ → Line

-- The client of TFChain, as one run of the tool meets it: `substrate` connects, and a height is asked
-- for once.
pub record Node : Type 0 where
  pub substrate : Text → Result Unit
  pub get_events_for_block : ℕ → Result EventRecords
  pub is_failed_to_decode : Error → Bool

abbrev pub Run : Type 0 → Type 0
Run = Exec (List Line)

unfoldable pub print : Line → Run Unit
print line lines = (ok tt, lines ++ line ∷ [])

-- The lines of the loops of `processEventRecords`.
abbrev pub refund_ready_line : RefundReadyRecord → Line
refund_ready_line e = found_refund_ready e.refund_transaction_hash

abbrev pub burn_created_line : BurnCreatedRecord → Line
burn_created_line e = found_burn_created e.burn_transaction_id

abbrev pub burn_ready_line : BurnReadyRecord → Line
burn_ready_line e = found_burn_ready e.burn_transaction_id

abbrev pub burn_expired_line : BurnExpiredRecord → Line
burn_expired_line e = found_burn_expired e.burn_transaction_id

abbrev pub refund_expired_line : RefundExpiredRecord → Line
refund_expired_line e = found_refund_expired e.refund_transaction_hash

-- `for _, e := range l`
unfoldable pub print_each : {A : Type 0} → (A → Line) → List A → Run Unit
unfolding print
print_each line [] = pure tt
print_each line (e ∷ l) = do print (line e); print_each line l

unfoldable pub process_event_records : EventRecords → Run Unit
unfolding print_each
process_event_records events = do
  print_each refund_ready_line events.refund_transaction_ready
  print_each burn_created_line events.burn_transaction_created
  print_each burn_ready_line events.burn_transaction_ready
  print_each burn_expired_line events.burn_transaction_expired
  print_each refund_expired_line events.refund_transaction_expired

module _ (N : Node) where
  -- The last part of `processEventsForHeight`.
  unfoldable pub after_records : ℕ → Result Unit → Run Unit
  unfolding print
  after_records height (value _) = pure tt
  after_records height (error e) =
      if N.is_failed_to_decode e
      then (do print (failed_to_decode_events height); raise e)
      else raise e

  unfoldable pub process_records : ℕ → Result EventRecords → Run Unit
  unfolding after_records process_event_records
  process_records height (error e) = do print (failed_to_decode_block height); raise e
  process_records height (value records) = do
    result ← try (process_event_records records)
    after_records height result

  unfoldable pub process_events_for_height : ℕ → Run Unit
  unfolding process_records
  process_events_for_height height = do
    print (fetching height)
    process_records height (N.get_events_for_block height)

  -- `panic(err)`
  unfoldable pub or_panic : Result Unit → Run Unit
  or_panic (value _) = pure tt
  or_panic (error e) = abort

  -- `for i := startHeight; i < endHeight; i++`, with the rounds that are left.
  unfoldable pub process_heights : ℕ → ℕ → Run Unit
  unfolding process_events_for_height or_panic
  process_heights zero i = pure tt
  process_heights (suc rounds) i = do
    result ← try (process_events_for_height (i % 2 ^ 32))
    or_panic result
    process_heights rounds (i + 1)

  unfoldable pub main : Run Unit
  unfolding process_heights
  main = do
    or_panic (N.substrate (codes "wss://tfchain.dev.grid.tf"))
    process_heights (1677590 - 1677587) 1677587
