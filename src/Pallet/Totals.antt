-- ===== src/Pallet/Totals.antt =====
-- Sums over the entries of the storage maps of pallet-tft-bridge/src/lib.rs.
use tfchain_tft_bridge.Prelude.{ℕ, ◌+◌, ◌≡◌, refl, none, some, [], ◌∷◌, arith}
use tfchain_tft_bridge.Pallet.Keyed.{StorageKey, Keyed, get, insert, remove, Distinct}

module _ {ℓ κ} {K : Type ℓ} {V : Type κ} where
  unfoldable pub total : (V → ℕ) → Keyed K V → ℕ
  total f [] = 0
  total f ((k, v) ∷ m) = f v + total f m

module _ {ℓ κ} {K : Type ℓ} {V : Type κ} ⦃e : StorageKey K⦄ where
  pub total-insert_new :
      (f : V → ℕ) (k : K) (v : V) (m : Keyed K V)
      → get k m ≡ none
      → total f (insert k v m) ≡ total f m + f v
  unfolding total insert get
  total-insert_new f k v [] h = omega arith
  total-insert_new f k v ((j, w) ∷ m) h = ground (arith, h, total-insert_new f k v m)

  pub total-insert_again :
      (f : V → ℕ) (k : K) (v w : V) (m : Keyed K V)
      → get k m ≡ some w
      → total f (insert k v m) + f w ≡ total f m + f v
  unfolding total insert get
  total-insert_again f k v w [] h = ground (arith, h)
  total-insert_again f k v w ((j, u) ∷ m) h = ground (arith, h, total-insert_again f k v w m)

  total-remove-none :
      (f : V → ℕ) (k : K) (m : Keyed K V) → get k m ≡ none → total f (remove k m) ≡ total f m
  unfolding total remove get
  total-remove-none f k [] h = refl
  total-remove-none f k ((j, u) ∷ m) h = ground (arith, h, total-remove-none f k m)

  pub total-remove :
      (f : V → ℕ) (k : K) (w : V) (m : Keyed K V)
      → Distinct m
      → get k m ≡ some w
      → total f (remove k m) + f w ≡ total f m
  unfolding total remove get
  total-remove f k w [] d h = ground (arith, h)
  total-remove f k w ((j, u) ∷ m) (new, d) h = ground (
    arith,
    h,
    new,
    total-remove f k w m d,
    total-remove-none f k m,
    total-remove-none f j m,
    e.same_iff k j,
  )
