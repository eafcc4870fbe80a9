-- ===== src/Pallet/BurnInvariant.antt =====
-- pallet-tft-bridge/src/lib.rs: the invariant of the burns.
use native.Mathlib.Nat.{mod-eq_of_lt}
use tfchain_tft_bridge.Prelude.{ℕ, ◌+◌, ◌^◌, ◌<◌, ◌≤◌, ◌≡◌, ap, ◌⊎◌, none, arith}
use tfchain_tft_bridge.Pallet.Keyed.{
  get, get-insert, get-remove, Every, insert-Every, remove-Every, Distinct, insert-Distinct,
  remove-Distinct, nat_key, text_key, map-Every,
}
use tfchain_tft_bridge.Pallet.Types.{BurnTransaction, Runtime, Storage}
use tfchain_tft_bridge.Pallet.Signatures.{OneEach, append-OneEach}
use tfchain_tft_bridge.Pallet.Blocks.{on_finalize}
use tfchain_tft_bridge.Pallet.Expiry.{
  refreshed_burn, on_finalize-frame, get-on_finalize, on_finalize-Distinct,
}
use tfchain_tft_bridge.Pallet.BurnEffects.{
  BurnEffect, nothing, created, signed, executed, created_burn, signed_burn,
}

-- A pending burn: something is paid out, it is not younger than the block, and no key signed twice.
pub record IsBurn (now : ℕ) (tx : BurnTransaction) : Type 0 where
  pub positive : 0 < tx.amount
  pub past : tx.block ≤ now
  pub one_each : OneEach tx.signatures

refreshed_burn-IsBurn :
    (retry_interval now : ℕ) (tx : BurnTransaction)
    → IsBurn now tx
    → IsBurn (now + 1) (refreshed_burn retry_interval now tx)
unfolding refreshed_burn
refreshed_burn-IsBurn retry_interval now tx b =
    let a = b.positive in
    let c = b.past in
    let d = b.one_each in
    record { positive = ground arith; past = ground arith; one_each = ground (arith, d) }

module _ {R : Runtime} where
  -- A burn is pending or executed, not both, and its id was counted.
  pub record GoodBurns (s : Storage R) : Type 0 where
    pub distinct : Distinct s.burn_transactions
    pub distinct_executed : Distinct s.executed_burn_transactions
    pub apart :
        (k : ℕ) → (get k s.burn_transactions ≡ none) ⊎ (get k s.executed_burn_transactions ≡ none)
    pub counted :
        (k : ℕ)
        → s.burn_transaction_id < k
        → (get k s.burn_transactions ≡ none) × (get k s.executed_burn_transactions ≡ none)
    pub burns : Every (λ _. IsBurn s.block_number) s.burn_transactions

  pub end_block-GoodBurns :
      (s : Storage R)
      → Distinct s.refund_transactions
      → GoodBurns s
      → GoodBurns (record (on_finalize s.block_number s) { block_number = s.block_number + 1 })
  end_block-GoodBurns s refunds g =
      let f = on_finalize-frame s.block_number s in
      let rest = ap (λ (u : Storage R). u.executed_burn_transactions) f in
      let id = ap (λ (u : Storage R). u.burn_transaction_id) f in
      let e = (get-on_finalize s.block_number s g.distinct refunds).0 in
      record {
        distinct = (on_finalize-Distinct s.block_number s g.distinct refunds).0;
        distinct_executed = rw rest g.distinct_executed;
        apart = λ k. ground (arith, e k, rest, g.apart k);
        counted = λ k lt. ground (arith, e k, rest, id, g.counted k);
        burns =
            map-Every (λ _. IsBurn s.block_number) (λ _. IsBurn (s.block_number + 1))
              (refreshed_burn R.retry_interval s.block_number) s.burn_transactions
              (on_finalize s.block_number s).burn_transactions e
              (λ _. refreshed_burn-IsBurn R.retry_interval s.block_number) g.burns;
      }

module _ {R : Runtime} {s t : Storage R} where
  pub BurnEffect-GoodBurns :
      BurnEffect s t
      → t.block_number ≡ s.block_number
      → s.burn_transaction_id + 1 < 2 ^ 64
      → GoodBurns s
      → GoodBurns t
  BurnEffect-GoodBurns (nothing (burns, rest, id)) now room g = record {
    distinct = rw burns g.distinct;
    distinct_executed = rw rest g.distinct_executed;
    apart = λ k. rw (burns, rest) (g.apart k);
    counted = λ k lt. ground (arith, burns, rest, g.counted k);
    burns = rw (burns, now) g.burns;
  }
  BurnEffect-GoodBurns (created target amount over id burns rest) now room g =
      let new = g.counted (s.burn_transaction_id + 1) (omega arith) in
      let e = mod-eq_of_lt room in
      record {
        distinct = rw burns (insert-Distinct _ _ _ g.distinct);
        distinct_executed = rw rest g.distinct_executed;
        apart = λ k. ground (
          arith,
          g.apart k,
          get-insert k (s.burn_transaction_id + 1) (created_burn s target amount)
              s.burn_transactions,
        );
        counted = λ k lt. ground (
          arith,
          g.counted k,
          get-insert k (s.burn_transaction_id + 1) (created_burn s target amount)
              s.burn_transactions,
        );
        burns =
            rw (burns, now)
              (insert-Every (λ _. IsBurn s.block_number) _ _ _ g.burns
                (record { positive = omega arith; past = omega arith; one_each = tt }));
      }
  BurnEffect-GoodBurns (signed i tx sig number here new fresh few id burns rest) now room g =
      record {
        distinct = rw burns (insert-Distinct _ _ _ g.distinct);
        distinct_executed = rw rest g.distinct_executed;
        apart = λ k.
            ground
              (arith, g.apart k, get-insert k i (signed_burn tx sig number) s.burn_transactions);
        counted = λ k lt.
            ground
              (arith, g.counted k, get-insert k i (signed_burn tx sig number) s.burn_transactions);
        burns =
            rw (burns, now)
              (insert-Every (λ _. IsBurn s.block_number) _ _ _ g.burns
                (let old = g.burns i tx here in
                  record {
                    positive = old.positive;
                    past = old.past;
                    one_each = append-OneEach tx.signatures sig fresh old.one_each;
                  }));
      }
  BurnEffect-GoodBurns (executed i tx here new id burns rest) now room g = record {
    distinct = rw burns (remove-Distinct _ _ g.distinct);
    distinct_executed = rw rest (insert-Distinct _ _ _ g.distinct_executed);
    apart = λ k. ground (
      arith,
      g.apart k,
      get-remove k i s.burn_transactions,
      get-insert k i tx s.executed_burn_transactions,
    );
    counted = λ k lt. ground (
      arith,
      g.counted k,
      get-remove k i s.burn_transactions,
      get-insert k i tx s.executed_burn_transactions,
    );
    burns = rw (burns, now) (remove-Every (λ _. IsBurn s.block_number) _ _ g.burns);
  }
