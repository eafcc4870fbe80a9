-- ===== src/Pallet/Stuck.antt =====
-- pallet-tft-bridge/src/lib.rs: a refund that is created again after it was executed.
use tfchain_tft_bridge.Prelude.{ℕ, ◌≡◌, ap, true, false, some, [], ◌∷◌, Bytes, arith, text_eq_iff}
use tfchain_tft_bridge.Pallet.Keyed.{
  Keyed, get, insert, contains_key, contains_key-some, get-insert, get-remove, get-insert_self,
  insert-insert, text_key, nat_key,
}
use tfchain_tft_bridge.Pallet.Types.{
  Account, RefundTransaction, StellarSignature, Runtime, Storage,
  refund_transaction_already_executed,
}
use tfchain_tft_bridge.Pallet.Dispatch.{done, failed, after}
use tfchain_tft_bridge.Pallet.Validators.{check_if_validator_exists}
use tfchain_tft_bridge.Pallet.Refund.{
  create_stellar_refund_transaction_or_add_sig, set_stellar_refund_transaction_executed,
}
use tfchain_tft_bridge.Pallet.Blocks.{
  on_finalize, expire_burns, expire_refunds, expire_refund, Step, call, end_block, other_pallets,
  Reaches, stop, go,
}
use tfchain_tft_bridge.Pallet.Expiry.{expire_burns-frame}
use tfchain_tft_bridge.Pallet.RefundEffects.{
  RefundEffect, nothing, created, signed, executed, created_refund, dispatch-RefundEffect,
  get_refund-insert,
}
use tfchain_tft_bridge.Pallet.Lasting.{reached-Later}
use tfchain_tft_bridge.Pallet.Refused.{refusal, executed_refund-refused}

contains_key-insert :
    (j k : Bytes) (v : RefundTransaction) (m : Keyed Bytes RefundTransaction)
    → contains_key j m ≡ true
    → contains_key j (insert k v m) ≡ true
unfolding contains_key
contains_key-insert j k v m h = ground (arith, get-insert j k v m)

module _ {R : Runtime} where
  expire_refunds-pending :
      (hash : Bytes) (block : ℕ) (txs : Keyed Bytes RefundTransaction) (s : Storage R)
      → contains_key hash s.refund_transactions ≡ true
      → contains_key hash (expire_refunds block txs s).refund_transactions ≡ true
  unfolding expire_refunds expire_refund
  expire_refunds-pending hash block [] s h = h
  expire_refunds-pending hash block ((k, tx) ∷ txs) s h =
      expire_refunds-pending hash block txs (expire_refund block k tx s) (
        ground (
          arith,
          contains_key-insert hash k
              (record tx { signatures = []; sequence_number = 0; block = block })
              s.refund_transactions h,
        ))

  effect-pending :
      {s t : Storage R} (hash : Bytes) (old : RefundTransaction)
      → get hash s.executed_refund_transactions ≡ some old
      → RefundEffect s t
      → contains_key hash s.refund_transactions ≡ true
      → contains_key hash t.refund_transactions ≡ true
  unfolding contains_key
  effect-pending hash old e (nothing (refunds, rest)) h = rw refunds h
  effect-pending hash old e (created k target amount sig number new refunds rest) h =
      rw refunds (contains_key-insert hash k _ _ h)
  effect-pending hash old e (signed k tx sig number here fresh few refunds rest) h =
      rw refunds (contains_key-insert hash k _ _ h)
  effect-pending {s} hash old e (executed k tx here new refunds rest) h =
      rw (refunds, contains_key)
        (ground (arith, get-remove hash k s.refund_transactions, text_eq_iff hash k))

  Step-pending :
      {s t : Storage R} (hash : Bytes) (old : RefundTransaction)
      → get hash s.executed_refund_transactions ≡ some old
      → Step s t
      → contains_key hash s.refund_transactions ≡ true
      → contains_key hash t.refund_transactions ≡ true
  unfolding on_finalize
  Step-pending {s} hash old e (call origin c) h =
      effect-pending hash old e (dispatch-RefundEffect origin c s) h
  Step-pending {s} hash old e end_block h =
      let burned = expire_burns s.block_number s.burn_transactions s in
      let same =
        ap (λ (u : Storage R). u.refund_transactions)
          (expire_burns-frame s.block_number s.burn_transactions s) in
      expire_refunds-pending hash s.block_number burned.refund_transactions burned (rw same h)
  Step-pending hash old e (other_pallets balances) h = h

  reached-pending :
      {s t : Storage R} (hash : Bytes) (old : RefundTransaction)
      → get hash s.executed_refund_transactions ≡ some old
      → Reaches s t
      → contains_key hash s.refund_transactions ≡ true
      → contains_key hash t.refund_transactions ≡ true
  reached-pending hash old e stop h = h
  reached-pending hash old e (go r step) h =
      Step-pending hash old ((reached-Later r).refund hash old e) step
        (reached-pending hash old e r h)

  -- A refund that was executed can be created again, since the proposal does not look at the executed
  -- ones: the call of any validator succeeds and stores it with the validator's signature. From then on it
  -- is pending in every storage that the chain reaches, since every call to execute it is refused.
  pub executed_refund-recreated :
      (s : Storage R) (hash : Bytes) (old : RefundTransaction)
      → get hash s.executed_refund_transactions ≡ some old
      → contains_key hash s.refund_transactions ≡ false
      → (validator : Account) → check_if_validator_exists validator s ≡ done tt s
      → (target : Bytes) (amount : ℕ) (signature key : Bytes) (number : ℕ) → {u : Storage R}
      → Reaches
          (after s (
            create_stellar_refund_transaction_or_add_sig validator hash target amount signature key
              number s))
          u
      → (v : Account)
      → let run =
          create_stellar_refund_transaction_or_add_sig validator hash target amount signature key
            number s in
        (run ≡ done tt (after s run))
        × (get hash (after s run).refund_transactions
            ≡ some (
                created_refund s hash target amount
                  (record { signature = signature; stellar_pub_key = key })
                  number))
        × (contains_key hash u.refund_transactions ≡ true)
        × (set_stellar_refund_transaction_executed v hash u
            ≡ failed (refusal v u refund_transaction_already_executed))
  unfolding create_stellar_refund_transaction_or_add_sig
  executed_refund-recreated s hash old e new validator accepted target amount signature key number
        {u} r v =
      let t = after s (
        create_stellar_refund_transaction_or_add_sig validator hash target amount signature key
          number s) in
      let sig : StellarSignature = record { signature = signature; stellar_pub_key = key } in
      let tx = created_refund s hash target amount sig number in
      let first = record tx { signatures = [] } in
      let g1 = get_refund-insert hash first s.refund_transactions in
      let g2 = get-insert_self hash tx s.refund_transactions in
      let g3 = insert-insert hash tx first s.refund_transactions in
      let g4 = insert-insert hash tx tx s.refund_transactions in
      let here : get hash t.refund_transactions ≡ some tx =
        ground (arith, accepted, new, g1, g2, g3, g4) in
      let still : get hash t.executed_refund_transactions ≡ some old =
        ground (arith, accepted, new, e) in
      (
        ground (arith, accepted, new, g1, g2, g3, g4),
        here,
        reached-pending hash old still r (contains_key-some hash tx t.refund_transactions here),
        executed_refund-refused r hash old still v,
      )
