-- ===== src/Pallet/RefundInvariant.antt =====
-- pallet-tft-bridge/src/lib.rs: the invariant of the refunds.
use tfchain_tft_bridge.Prelude.{ℕ, ◌+◌, ◌≤◌, ◌≡◌, refl, Bytes, arith}
use tfchain_tft_bridge.Pallet.Keyed.{
  Every, insert-Every, remove-Every, map-Every, Distinct, insert-Distinct, remove-Distinct, nat_key,
  text_key,
}
use tfchain_tft_bridge.Pallet.Types.{RefundTransaction, Runtime, Storage}
use tfchain_tft_bridge.Pallet.Signatures.{has_key, OneEach, append-OneEach}
use tfchain_tft_bridge.Pallet.Blocks.{on_finalize}
use tfchain_tft_bridge.Pallet.Expiry.{refreshed_refund, get-on_finalize, on_finalize-Distinct}
use tfchain_tft_bridge.Pallet.RefundEffects.{RefundEffect, nothing, created, signed, executed}

-- A pending refund: it bears the hash that it is stored under, it is not younger than the block, and no
-- key signed twice.
pub record IsRefund (now : ℕ) (hash : Bytes) (tx : RefundTransaction) : Type 0 where
  pub named : tx.tx_hash ≡ hash
  pub past : tx.block ≤ now
  pub one_each : OneEach tx.signatures

refreshed_refund-IsRefund :
    (retry_interval now : ℕ) (hash : Bytes) (tx : RefundTransaction)
    → IsRefund now hash tx
    → IsRefund (now + 1) hash (refreshed_refund retry_interval now tx)
unfolding refreshed_refund
refreshed_refund-IsRefund retry_interval now hash tx b =
    let a = b.named in
    let c = b.past in
    let d = b.one_each in
    record { named = ground arith; past = ground arith; one_each = ground (arith, d) }

module _ {R : Runtime} where
  pub record GoodRefunds (s : Storage R) : Type 0 where
    pub distinct : Distinct s.refund_transactions
    pub refunds : Every (IsRefund s.block_number) s.refund_transactions

  pub end_block-GoodRefunds :
      (s : Storage R)
      → Distinct s.burn_transactions
      → GoodRefunds s
      → GoodRefunds (record (on_finalize s.block_number s) { block_number = s.block_number + 1 })
  end_block-GoodRefunds s burns g = record {
    distinct = (on_finalize-Distinct s.block_number s burns g.distinct).1;
    refunds =
        map-Every (IsRefund s.block_number) (IsRefund (s.block_number + 1))
          (refreshed_refund R.retry_interval s.block_number) s.refund_transactions
          (on_finalize s.block_number s).refund_transactions
          (get-on_finalize s.block_number s burns g.distinct).1
          (refreshed_refund-IsRefund R.retry_interval s.block_number) g.refunds;
  }

module _ {R : Runtime} {s t : Storage R} where
  pub RefundEffect-GoodRefunds :
      RefundEffect s t → t.block_number ≡ s.block_number → GoodRefunds s → GoodRefunds t
  unfolding has_key
  RefundEffect-GoodRefunds (nothing (refunds, rest)) now g = record {
    distinct = rw refunds g.distinct;
    refunds = rw (refunds, now) g.refunds;
  }
  RefundEffect-GoodRefunds (created hash target amount sig number new refunds rest) now g = record {
    distinct = rw refunds (insert-Distinct _ _ _ g.distinct);
    refunds =
        rw (refunds, now)
          (insert-Every (IsRefund s.block_number) _ _ _ g.refunds
            (record { named = refl; past = omega arith; one_each = (refl, tt) }));
  }
  RefundEffect-GoodRefunds (signed hash tx sig number here fresh few refunds rest) now g =
      let old = g.refunds hash tx here in
      record {
        distinct = rw refunds (insert-Distinct _ _ _ g.distinct);
        refunds =
            rw (refunds, now)
              (insert-Every (IsRefund s.block_number) _ _ _ g.refunds (record {
                named = old.named;
                past = old.past;
                one_each = append-OneEach tx.signatures sig fresh old.one_each;
              }));
      }
  RefundEffect-GoodRefunds (executed hash tx here new refunds rest) now g = record {
    distinct = rw refunds (remove-Distinct _ _ g.distinct);
    refunds = rw (refunds, now) (remove-Every (IsRefund s.block_number) _ _ g.refunds);
  }
