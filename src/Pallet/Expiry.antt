-- ===== src/Pallet/Expiry.antt =====
-- pallet-tft-bridge/src/lib.rs: what the end of a block does to the burns and the refunds.
use tfchain_tft_bridge.Prelude.{
  ℕ, ◌+◌, ◌^◌, ◌<◌, ◌≤◌, leb, Option, ◌≡◌, refl, ◌∙◌, ap, text_eq_iff, none, some, [], ◌∷◌, Bytes,
  arith, if◌then◌else◌,
}
use mathlib.Core.Option as Option
use tfchain_tft_bridge.Pallet.Keyed.{
  Keyed, ◌≟◌, get, get-insert, Distinct, insert-Distinct, nat_key_iff, nat_key, text_key,
}
use tfchain_tft_bridge.Pallet.Types.{BurnTransaction, RefundTransaction, Runtime, Storage}
use tfchain_tft_bridge.Pallet.Blocks.{
  on_finalize, expire_burns, expire_burn, expire_refunds, expire_refund, is_expired,
}

-- A burn at the end of a block: it loses its signatures if it is too old.
unfoldable pub refreshed_burn : ℕ → ℕ → BurnTransaction → BurnTransaction
refreshed_burn retry_interval block tx =
    if is_expired retry_interval block tx.block
    then record tx { signatures = []; sequence_number = 0; block = block }
    else tx

unfoldable pub refreshed_refund : ℕ → ℕ → RefundTransaction → RefundTransaction
refreshed_refund retry_interval block tx =
    if is_expired retry_interval block tx.block
    then record tx { signatures = []; sequence_number = 0; block = block }
    else tx

-- What the end of a block does to a burn: if it is pending for the retry interval or longer it loses
-- its signatures and its number and is dated by the block.
abbrev pub renewed_burn : ℕ → ℕ → BurnTransaction → BurnTransaction
renewed_burn retry_interval block tx =
    if leb (tx.block + retry_interval) block
    then record tx { signatures = []; sequence_number = 0; block = block }
    else tx

abbrev pub renewed_refund : ℕ → ℕ → RefundTransaction → RefundTransaction
renewed_refund retry_interval block tx =
    if leb (tx.block + retry_interval) block
    then record tx { signatures = []; sequence_number = 0; block = block }
    else tx

same_age :
    (retry_interval block tx_block : ℕ)
    → tx_block ≤ block
    → block < 2 ^ 64
    → is_expired retry_interval block tx_block ≡ leb (tx_block + retry_interval) block
unfolding is_expired
same_age retry_interval block tx_block past small = ground arith

module _ {R : Runtime} where
  -- The loops leave the other fields.
  pub expire_burns-frame :
      (block : ℕ) (txs : Keyed ℕ BurnTransaction) (s : Storage R)
      → expire_burns block txs s ≡ record s {
        burn_transactions = (expire_burns block txs s).burn_transactions;
        events = (expire_burns block txs s).events;
      }
  unfolding expire_burns expire_burn
  expire_burns-frame block [] s = refl
  expire_burns-frame block ((k, tx) ∷ txs) s =
      ground (arith, expire_burns-frame block txs (expire_burn block k tx s))

  expire_refunds-frame :
      (block : ℕ) (txs : Keyed Bytes RefundTransaction) (s : Storage R)
      → expire_refunds block txs s ≡ record s {
        refund_transactions = (expire_refunds block txs s).refund_transactions;
        events = (expire_refunds block txs s).events;
      }
  unfolding expire_refunds expire_refund
  expire_refunds-frame block [] s = refl
  expire_refunds-frame block ((k, tx) ∷ txs) s =
      ground (arith, expire_refunds-frame block txs (expire_refund block k tx s))

  on_finalize-frame_lem :
      (block : ℕ) (s burned : Storage R)
      → burned ≡ expire_burns block s.burn_transactions s
      → on_finalize block s ≡ record burned {
        refund_transactions = (on_finalize block s).refund_transactions;
        events = (on_finalize block s).events;
      }
  unfolding on_finalize
  on_finalize-frame_lem block s burned e = rw e (
      expire_refunds-frame block (expire_burns block s.burn_transactions s).refund_transactions
        (expire_burns block s.burn_transactions s))

  -- The end of a block changes pending burns and refunds and deposits events, no more.
  pub on_finalize-frame :
      (block : ℕ) (s : Storage R)
      → on_finalize block s ≡ record s {
        burn_transactions = (expire_burns block s.burn_transactions s).burn_transactions;
        refund_transactions = (on_finalize block s).refund_transactions;
        events = (on_finalize block s).events;
      }
  on_finalize-frame block s =
      on_finalize-frame_lem block s (expire_burns block s.burn_transactions s) refl ∙ (λ i.
        record (expire_burns-frame block s.burn_transactions s i) {
          refund_transactions = (on_finalize block s).refund_transactions;
          events = (on_finalize block s).events;
        })

  pub get-expire_burn :
      (block k : ℕ) (tx : BurnTransaction) (s : Storage R) (j : ℕ)
      → get k s.burn_transactions ≡ some tx
      → get j (expire_burn block k tx s).burn_transactions ≡ (
          if j ≟ k
          then some (refreshed_burn R.retry_interval block tx)
          else get j s.burn_transactions)
  unfolding expire_burn refreshed_burn
  get-expire_burn block k tx s j h = ground (
    arith,
    nat_key_iff j k,
    get-insert j k (record tx { signatures = []; sequence_number = 0; block = block })
        s.burn_transactions,
  )

  get-expire_burns :
      (block : ℕ) (txs : Keyed ℕ BurnTransaction) (s : Storage R) (j : ℕ)
      → Distinct txs
      → ((k : ℕ) (v : BurnTransaction) → get k txs ≡ some v → get k s.burn_transactions ≡ some v)
      → get j (expire_burns block txs s).burn_transactions ≡ elim (get j txs) [
        | none ↦ get j s.burn_transactions
        | some tx ↦ some (refreshed_burn R.retry_interval block tx)
      ]
  unfolding expire_burns get
  get-expire_burns block [] s j d h = refl
  get-expire_burns block ((k, tx) ∷ txs) s j (new, d) h =
      let here = h k tx (ground (arith, nat_key_iff k k)) in
      let rest =
        get-expire_burns block txs (expire_burn block k tx s) j d
          (λ i v e. ground (arith, get-expire_burn block k tx s i here, h i v, nat_key_iff i k)) in
      ground (arith, rest, get-expire_burn block k tx s j here, nat_key_iff j k)

  get-expire_refund :
      (block : ℕ) (k : Bytes) (tx : RefundTransaction) (s : Storage R) (j : Bytes)
      → get k s.refund_transactions ≡ some tx
      → get j (expire_refund block k tx s).refund_transactions ≡ (
          if j ≟ k
          then some (refreshed_refund R.retry_interval block tx)
          else get j s.refund_transactions)
  unfolding expire_refund refreshed_refund
  get-expire_refund block k tx s j h = ground (
    arith,
    text_eq_iff j k,
    get-insert j k (record tx { signatures = []; sequence_number = 0; block = block })
        s.refund_transactions,
  )

  get-expire_refunds :
      (block : ℕ) (txs : Keyed Bytes RefundTransaction) (s : Storage R) (j : Bytes)
      → Distinct txs
      → ((k : Bytes) (v : RefundTransaction)
          → get k txs ≡ some v
          → get k s.refund_transactions ≡ some v)
      → get j (expire_refunds block txs s).refund_transactions ≡ elim (get j txs) [
        | none ↦ get j s.refund_transactions
        | some tx ↦ some (refreshed_refund R.retry_interval block tx)
      ]
  unfolding expire_refunds get
  get-expire_refunds block [] s j d h = refl
  get-expire_refunds block ((k, tx) ∷ txs) s j (new, d) h =
      let here = h k tx (ground (arith, text_eq_iff k k)) in
      let rest =
        get-expire_refunds block txs (expire_refund block k tx s) j d (λ i v e.
          ground (arith, get-expire_refund block k tx s i here, h i v, text_eq_iff i k)) in
      ground (arith, rest, get-expire_refund block k tx s j here, text_eq_iff j k)

  pub get-on_finalize :
      (block : ℕ) (s : Storage R)
      → Distinct s.burn_transactions
      → Distinct s.refund_transactions
      → ((id : ℕ)
          → get id (on_finalize block s).burn_transactions
            ≡ Option.map (refreshed_burn R.retry_interval block) (get id s.burn_transactions))
        × ((hash : Bytes)
            → get hash (on_finalize block s).refund_transactions
              ≡ Option.map
                  (refreshed_refund R.retry_interval block)
                  (get hash s.refund_transactions))
  unfolding on_finalize
  get-on_finalize block s burns refunds =
      let burned = expire_burns block s.burn_transactions s in
      let frame = expire_burns-frame block s.burn_transactions s in
      let same = ap (λ (u : Storage R). u.refund_transactions) frame in
      (
        (λ id.
            let a = get-expire_burns block s.burn_transactions s id burns (λ k v e. e) in
            let b =
              ap (λ (u : Storage R). u.burn_transactions)
                (expire_refunds-frame block burned.refund_transactions burned) in
            rw b (rw a (ground arith))),
        (λ hash.
            let a =
              get-expire_refunds block burned.refund_transactions burned hash (rw same refunds)
                (λ k v e. e) in
            rw a (rw same (ground arith))),
      )

  -- The end of a block, by its effect on each burn and refund: one that is pending for the retry interval
  -- or longer loses its signatures and its sequence number and is dated by the block, the others stay as
  -- they were, and none is added or removed. No key may stand twice in the two maps, no burn or refund
  -- may be dated behind the block, and the number of the block must fit in 64 bits.
  pub on_finalize-refreshes :
      (block : ℕ) (s : Storage R)
      → Distinct s.burn_transactions
      → Distinct s.refund_transactions
      → ((id : ℕ) (tx : BurnTransaction) → get id s.burn_transactions ≡ some tx → tx.block ≤ block)
      → ((hash : Bytes) (tx : RefundTransaction)
          → get hash s.refund_transactions ≡ some tx
          → tx.block ≤ block)
      → block < 2 ^ 64
      → ((id : ℕ)
          → get id (on_finalize block s).burn_transactions
            ≡ Option.map (renewed_burn R.retry_interval block) (get id s.burn_transactions))
        × ((hash : Bytes)
            → get hash (on_finalize block s).refund_transactions
              ≡ Option.map (renewed_refund R.retry_interval block) (get hash s.refund_transactions))
  unfolding refreshed_burn refreshed_refund
  on_finalize-refreshes block s burns refunds burns_past refunds_past small =
      let (burned, refunded) = get-on_finalize block s burns refunds in
      (
        λ id. burned id ∙ of_burn id (get id s.burn_transactions) refl,
        λ hash. refunded hash ∙ of_refund hash (get hash s.refund_transactions) refl,
      )
    where
      of_burn :
          (id : ℕ) (o : Option BurnTransaction)
          → get id s.burn_transactions ≡ o
          → Option.map (refreshed_burn R.retry_interval block) o
            ≡ Option.map (renewed_burn R.retry_interval block) o
      of_burn id none e = refl
      of_burn id (some tx) e =
          rw (same_age R.retry_interval block tx.block (burns_past id tx e) small) refl

      of_refund :
          (hash : Bytes) (o : Option RefundTransaction)
          → get hash s.refund_transactions ≡ o
          → Option.map (refreshed_refund R.retry_interval block) o
            ≡ Option.map (renewed_refund R.retry_interval block) o
      of_refund hash none e = refl
      of_refund hash (some tx) e =
          rw (same_age R.retry_interval block tx.block (refunds_past hash tx e) small) refl

  expire_burns-Distinct :
      (block : ℕ) (txs : Keyed ℕ BurnTransaction) (s : Storage R)
      → Distinct s.burn_transactions
      → Distinct (expire_burns block txs s).burn_transactions
  unfolding expire_burns expire_burn
  expire_burns-Distinct block [] s d = d
  expire_burns-Distinct block ((k, tx) ∷ txs) s d =
      expire_burns-Distinct block txs (expire_burn block k tx s) (
        ground (
          arith,
          d,
          insert-Distinct k (record tx { signatures = []; sequence_number = 0; block = block })
              s.burn_transactions d,
        ))

  expire_refunds-Distinct :
      (block : ℕ) (txs : Keyed Bytes RefundTransaction) (s : Storage R)
      → Distinct s.refund_transactions
      → Distinct (expire_refunds block txs s).refund_transactions
  unfolding expire_refunds expire_refund
  expire_refunds-Distinct block [] s d = d
  expire_refunds-Distinct block ((k, tx) ∷ txs) s d =
      expire_refunds-Distinct block txs (expire_refund block k tx s) (
        ground (
          arith,
          d,
          insert-Distinct k (record tx { signatures = []; sequence_number = 0; block = block })
              s.refund_transactions d,
        ))

  pub on_finalize-Distinct :
      (block : ℕ) (s : Storage R)
      → Distinct s.burn_transactions
      → Distinct s.refund_transactions
      → Distinct (on_finalize block s).burn_transactions
        × Distinct (on_finalize block s).refund_transactions
  unfolding on_finalize
  on_finalize-Distinct block s burns refunds =
      let burned = expire_burns block s.burn_transactions s in
      let frame = expire_burns-frame block s.burn_transactions s in
      let same = ap (λ (u : Storage R). u.refund_transactions) frame in
      (
        rw
            (ap (λ (u : Storage R). u.burn_transactions)
              (expire_refunds-frame block burned.refund_transactions burned))
            (expire_burns-Distinct block s.burn_transactions s burns),
        expire_refunds-Distinct block burned.refund_transactions burned (rw same refunds),
      )
