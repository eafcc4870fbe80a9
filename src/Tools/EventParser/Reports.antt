-- ===== src/Tools/EventParser/Reports.antt =====
-- What tfchain_bridge/tools/eventParser/main.go prints.
use native.Mathlib.Nat.{mod-eq_of_lt}
use mathlib.Core.List.{map-map}
use tfchain_tft_bridge.Prelude.{
  ℕ, zero, suc, ◌+◌, ◌^◌, ◌<◌, ◌≡◌, refl, ◌⊎◌, inl, inr, sym, List, [], ◌∷◌, ◌++◌, map,
  append_assoc, append-nil, codes, arith,
}
use tfchain_tft_bridge.Errors.{Error, Result, value, error}
use tfchain_tft_bridge.Exec.{Outcome, ok, err, crash, ◌>>=◌}
use tfchain_tft_bridge.Env.Types.{EventRecords}
use tfchain_tft_bridge.Substrate.Events as Daemon
use tfchain_tft_bridge.Tools.EventParser.{
  Line, fetching, failed_to_decode_block, found_refund_ready, found_refund_expired,
  found_burn_created, found_burn_ready, found_burn_expired, Node, print, print_each,
  process_event_records, process_heights, process_events_for_height, process_records, or_panic,
  main,
}

-- A line for each of the events that the bridge takes from the records of a block.
unfoldable pub event_lines : Daemon.Events → List Line
event_lines events =
    map (λ (e : Daemon.RefundTransactionReadyEvent). found_refund_ready e.hash)
      events.refund_ready_events
    ++ (map (λ (e : Daemon.WithdrawCreatedEvent). found_burn_created e.id)
          events.withdraw_created_events
        ++ (map (λ (e : Daemon.WithdrawReadyEvent). found_burn_ready e.id)
              events.withdraw_ready_events
            ++ (map (λ (e : Daemon.WithdrawExpiredEvent). found_burn_expired e.id)
                  events.withdraw_expired_events
                ++ map (λ (e : Daemon.RefundTransactionExpiredEvent). found_refund_expired e.hash)
                    events.refund_expired_events)))

-- What a run prints for some heights, and how it ends: at the first block that cannot be had, it stops.
unfoldable pub report : (ℕ → Result EventRecords) → ℕ → ℕ → List Line × Outcome Unit
report blocks zero height = ([], ok tt)
report blocks (suc rounds) height = elim (blocks height) [
  | error e ↦ (fetching height ∷ failed_to_decode_block height ∷ [], crash)
  | value records ↦
      let (lines, outcome) = report blocks rounds (height + 1) in
      (fetching height ∷ event_lines (Daemon.process_event_records records) ++ lines, outcome)
]

print_each_lem :
    {A : Type 0} (line : A → Line) (l : List A) (lines : List Line)
    → print_each line l lines ≡ (ok tt, lines ++ map line l)
unfolding print_each print ◌>>=◌
print_each_lem line [] lines = λ i. (ok tt, sym (append-nil lines) i)
print_each_lem line (e ∷ l) lines =
    rw (print_each_lem line l (lines ++ line e ∷ []))
      (λ i. (ok tt, append_assoc lines (line e ∷ []) (map line l) i))

process_event_records_lem :
    (records : EventRecords) (lines : List Line)
    → process_event_records records lines
      ≡ (ok tt, lines ++ event_lines (Daemon.process_event_records records))
unfolding process_event_records event_lines Daemon.process_event_records ◌>>=◌
process_event_records_lem records lines = simp (print_each_lem, map-map, append_assoc)

process_records_lem :
    (N : Node) (i : ℕ) (r : Result EventRecords) (lines : List Line)
    → process_records N i r lines ≡ elim r [
      | value records ↦ (ok tt, lines ++ event_lines (Daemon.process_event_records records))
      | error e ↦ (err e, lines ++ failed_to_decode_block i ∷ [])
    ]
unfolding process_records print ◌>>=◌
process_records_lem N i (error e) lines = refl
process_records_lem N i (value records) lines = rw (process_event_records_lem records lines) refl

Result-cases :
    {A : Type 0} (r : Result A) → ((a : A) × (r ≡ value a)) ⊎ ((e : Error) × (r ≡ error e))
Result-cases (value a) = inl (a, refl)
Result-cases (error e) = inr (e, refl)

process_heights_lem :
    (N : Node) (rounds i : ℕ) (lines : List Line)
    → i + rounds < 2 ^ 32
    → process_heights N rounds i lines ≡ (
      (report N.get_events_for_block rounds i).1,
      lines ++ (report N.get_events_for_block rounds i).0,
    )
unfolding process_heights process_events_for_height report print ◌>>=◌
process_heights_lem N zero i lines room = λ k. (ok tt, sym (append-nil lines) k)
process_heights_lem N (suc rounds) i lines room =
    let small = mod-eq_of_lt {n = i} {m = 2 ^ 32} (omega (arith, room)) in
    let one = process_records_lem N i (N.get_events_for_block i) (lines ++ fetching i ∷ []) in
    elim (Result-cases (N.get_events_for_block i)) [
      | inl (records, e) ↦
          let seen = event_lines (Daemon.process_event_records records) in
          let rest =
            process_heights_lem N rounds (i + 1) ((lines ++ fetching i ∷ []) ++ seen)
              (omega (arith, room)) in
          let same = append_assoc lines (fetching i ∷ []) seen in
          let same2 =
            append_assoc lines (fetching i ∷ seen)
              (report N.get_events_for_block rounds (i + 1)).0 in
          ground (arith, small, one, e, rest, same, same2)
      | inr (x, e) ↦
          let same = append_assoc lines (fetching i ∷ []) (failed_to_decode_block i ∷ []) in
          ground (arith, small, one, e, same)
    ]

-- The parser prints, for each of its three blocks in turn, that it fetches the block and a line for each
-- event that the bridge itself takes from the records of that block, and panics at the first block whose
-- records it cannot have, after a line that says so; it panics without a line if it cannot connect.
pub main-reports :
    (N : Node)
    → main N [] ≡ elim (N.substrate (codes "wss://tfchain.dev.grid.tf")) [
      | value _ ↦
          ((report N.get_events_for_block 3 1677587).1, (report N.get_events_for_block 3 1677587).0)
      | error _ ↦ (crash, [])
    ]
unfolding main or_panic ◌>>=◌
main-reports N =
    elim (N.substrate (codes "wss://tfchain.dev.grid.tf"))
      as (λ r. (or_panic N r >>= λ _. process_heights N 3 1677587) [] ≡ elim r [
        | value _ ↦ (
          (report N.get_events_for_block 3 1677587).1,
          (report N.get_events_for_block 3 1677587).0,
        )
        | error _ ↦ (crash, [])
      ]) [ value u ↦ process_heights_lem N 3 1677587 [] (omega arith) | error e ↦ refl ]
