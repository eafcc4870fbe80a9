-- ===== src/Pallet/Backed.antt =====
-- pallet-tft-bridge/src/lib.rs: the TFT on TFChain and on its way to Stellar is backed.
use tfchain_tft_bridge.Prelude.{ℕ, ◌+◌, ◌^◌, ◌<◌, ◌≤◌, ◌≡◌, refl, ap, some, [], ◌∷◌, arith}
use tfchain_tft_bridge.Pallet.Keyed.{Keyed, get, Distinct, nat_key, nat_key_iff}
use tfchain_tft_bridge.Pallet.Types.{BurnTransaction, Runtime, Storage}
use tfchain_tft_bridge.Pallet.Blocks.{
  GenesisConfig, build, on_finalize, expire_burns, expire_burn, call, end_block, other_pallets,
  Reaches, stop, go,
}
use tfchain_tft_bridge.Pallet.Expiry.{get-expire_burn, on_finalize-frame}
use tfchain_tft_bridge.Pallet.Totals.{total, total-insert_again}
use tfchain_tft_bridge.Pallet.Supply.{CurrencyLaws, paid_out, taken_in, NoMore, dispatch-NoMore}
use tfchain_tft_bridge.Pallet.Sorted.{Sorted}
use tfchain_tft_bridge.Pallet.Invariant.{
  WellFormed, steps, reached-WellFormed, reached-id, build-WellFormed,
}

module _ {R : Runtime} where
  total-expire_burn :
      (block k : ℕ) (tx : BurnTransaction) (s : Storage R)
      → get k s.burn_transactions ≡ some tx
      → total (λ (b : BurnTransaction). b.amount) (expire_burn block k tx s).burn_transactions
        ≡ total (λ (b : BurnTransaction). b.amount) s.burn_transactions
  unfolding expire_burn
  total-expire_burn block k tx s h = ground (
    arith,
    total-insert_again (λ (b : BurnTransaction). b.amount) k
        (record tx { signatures = []; sequence_number = 0; block = block }) tx s.burn_transactions
        h,
  )

  total-expire_burns :
      (block : ℕ) (txs : Keyed ℕ BurnTransaction) (s : Storage R)
      → Distinct txs
      → ((k : ℕ) (v : BurnTransaction) → get k txs ≡ some v → get k s.burn_transactions ≡ some v)
      → total (λ (b : BurnTransaction). b.amount) (expire_burns block txs s).burn_transactions
        ≡ total (λ (b : BurnTransaction). b.amount) s.burn_transactions
  unfolding expire_burns get
  total-expire_burns block [] s d h = refl
  total-expire_burns block ((k, tx) ∷ txs) s (new, d) h =
      let here = h k tx (ground (arith, nat_key_iff k k)) in
      let rest =
        total-expire_burns block txs (expire_burn block k tx s) d
          (λ i v e. ground (arith, get-expire_burn block k tx s i here, h i v, nat_key_iff i k)) in
      ground (arith, rest, total-expire_burn block k tx s here)

module _ {R : Runtime} (L : CurrencyLaws R) where
  end_block-NoMore :
      (s : Storage R)
      → Distinct s.burn_transactions
      → NoMore L s (record (on_finalize s.block_number s) { block_number = s.block_number + 1 })
  end_block-NoMore s d =
      let f = on_finalize-frame s.block_number s in
      let same = total-expire_burns s.block_number s.burn_transactions s d (λ k v e. e) in
      rw
        (
          ap (λ (u : Storage R). u.balances) f,
          ap (λ (u : Storage R). u.burn_transactions) f,
          ap (λ (u : Storage R). u.executed_burn_transactions) f,
          ap (λ (u : Storage R). u.executed_mint_transactions) f,
        )
        (omega (arith, same))

  -- The other pallets do not raise the total issuance.
  abbrev pub Fair : {s t : Storage R} → Reaches s t → Type 0
  Fair stop = Unit
  Fair (go r (call origin c)) = Fair r
  Fair (go r end_block) = Fair r
  Fair (go {t} r (other_pallets balances)) = Fair r × L.issuance balances ≤ L.issuance t.balances

  reached-NoMore :
      {s t : Storage R} (r : Reaches s t)
      → Fair r
      → s.burn_transaction_id + steps r < 2 ^ 64
      → WellFormed s
      → NoMore L s t
  reached-NoMore stop fair room w = omega arith
  reached-NoMore (go {t} r (call origin c)) fair room w =
      let before = reached-NoMore r fair (omega (arith, room)) w in
      let well = reached-WellFormed r (omega (arith, room)) w in
      let id = reached-id r (omega (arith, room)) in
      let one = dispatch-NoMore L origin c t well.burns (omega (arith, room, id)) in
      omega (arith, before, one)
  reached-NoMore (go {t} r end_block) fair room w =
      let before = reached-NoMore r fair (omega (arith, room)) w in
      let well = reached-WellFormed r (omega (arith, room)) w in
      let one = end_block-NoMore t well.burns.distinct in omega (arith, before, one)
  reached-NoMore (go {t} r (other_pallets balances)) (fair, less) room w =
      let before = reached-NoMore r fair (omega (arith, room)) w in omega (arith, before, less)

  -- The TFT on TFChain is backed by the deposits: in every storage that the chain reaches from a genesis
  -- with sorted validators, in fewer than 2^64 steps, the total issuance together with all that the burns
  -- pay out on Stellar, pending and executed, is at most the issuance of the genesis together with what
  -- the executed mints took in on Stellar. The currency must keep its laws, and the other pallets must not
  -- raise the issuance.
  pub supply-backed :
      (self : GenesisConfig) (balances : R.Balances) {t : Storage R}
      → Sorted (build {R = R} self balances).validators
      → (r : Reaches (build {R = R} self balances) t) → Fair r
      → steps r < 2 ^ 64
      → L.issuance t.balances + paid_out t ≤ L.issuance balances + taken_in t
  unfolding build total
  supply-backed self balances sorted r fair room =
      let more =
        reached-NoMore r fair (omega (arith, room)) (build-WellFormed self balances sorted) in
      omega (arith, more)
