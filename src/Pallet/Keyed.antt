-- ===== src/Pallet/Keyed.antt =====
-- The storage maps of pallet-tft-bridge/src/lib.rs, as lists of entries in the order of `iter`. FRAME
-- leaves that order open, so a statement about all lists is one about every order.
use mathlib.Core.Option as Option
use tfchain_tft_bridge.Prelude.{
  ℕ, ◌≡◌, refl, ◌↔◌, Bool, true, false, Option, none, some, List, [], ◌∷◌, Text, text_eq,
  text_eq_iff, arith, if◌then◌else◌, ◌==◌ as nat_beq, inl, inr, Bool-cases, subst, sym, ◌∙◌,
}

-- What the keys of a storage map are: values that can be told apart.
pub record StorageKey {ℓ} (K : Type ℓ) : Type ℓ where
  pub same : K → K → Bool
  pub same_iff : (j k : K) → (same j k ≡ true) ↔ (j ≡ k)

pub nat_key_iff : (j k : ℕ) → (nat_beq j k ≡ true) ↔ (j ≡ k)
nat_key_iff j k = ground arith

-- The ids of burns, and the hashes of mints and refunds.
instance abbrev pub nat_key : StorageKey ℕ
nat_key = record { same = nat_beq; same_iff = nat_key_iff }

instance abbrev pub text_key : StorageKey Text
text_key = record { same = text_eq; same_iff = text_eq_iff }

infix 50 ◌≟◌
abbrev pub ◌≟◌ {ℓ} : {K : Type ℓ} ⦃e : StorageKey K⦄ → K → K → Bool
◌≟◌ ⦃e⦄ j k = e.same j k

same_self {ℓ} : {K : Type ℓ} ⦃e : StorageKey K⦄ → (k : K) → (k ≟ k) ≡ true
same_self ⦃e⦄ k = (e.same_iff k k).1 refl

abbrev pub Keyed {ℓ κ} : Type ℓ → Type κ → Type (ℓ ⊔ κ)
Keyed K V = List (K × V)

map-some {κ} :
    {V : Type κ} (f : V → V) (o : Option V) (w : V)
    → Option.map f o ≡ some w
    → (v : V) × (o ≡ some v) × (f v ≡ w)
map-some f none w h = cc
map-some f (some v) w h = (v, refl, (cc))

module _ {ℓ κ} {K : Type ℓ} {V : Type κ} ⦃e : StorageKey K⦄ where
  unfoldable pub get : K → Keyed K V → Option V
  get k [] = none
  get k ((j, v) ∷ m) = if k ≟ j then some v else get k m

  unfoldable pub contains_key : K → Keyed K V → Bool
  unfolding get
  contains_key k m = elim (get k m) [ none ↦ false | some _ ↦ true ]

  unfoldable pub insert : K → V → Keyed K V → Keyed K V
  insert k v [] = (k, v) ∷ []
  insert k v ((j, w) ∷ m) = if k ≟ j then (k, v) ∷ m else (j, w) ∷ insert k v m

  -- Every entry of the key goes; a map has one at most.
  unfoldable pub remove : K → Keyed K V → Keyed K V
  remove k [] = []
  remove k ((j, w) ∷ m) = let rest = remove k m in if k ≟ j then rest else (j, w) ∷ rest

  pub get-insert :
      (j k : K) (v : V) (m : Keyed K V) → get j (insert k v m) ≡ (if j ≟ k then some v else get j m)
  unfolding get insert
  get-insert j k v [] = refl
  get-insert j k v ((i, w) ∷ m) =
      ground (arith, get-insert j k v m, e.same_iff j k, e.same_iff k i, e.same_iff j i)

  pub get-remove :
      (j k : K) (m : Keyed K V) → get j (remove k m) ≡ (if j ≟ k then none else get j m)
  unfolding get remove
  get-remove j k [] = ground arith
  get-remove j k ((i, w) ∷ m) =
      ground (arith, get-remove j k m, e.same_iff j k, e.same_iff k i, e.same_iff j i)

  pub insert-insert : (k : K) (v w : V) (m : Keyed K V) → insert k v (insert k w m) ≡ insert k v m
  unfolding insert
  insert-insert k v w [] = rw (same_self k) refl
  insert-insert k v w ((i, u) ∷ m) = ground (arith, insert-insert k v w m, same_self k)

  pub remove-insert : (k : K) (w : V) (m : Keyed K V) → remove k (insert k w m) ≡ remove k m
  unfolding insert remove
  remove-insert k w [] = rw (same_self k) refl
  remove-insert k w ((i, u) ∷ m) = ground (arith, remove-insert k w m, same_self k)

  pub get-insert_self : (k : K) (v : V) (m : Keyed K V) → get k (insert k v m) ≡ some v
  get-insert_self k v m = rw (get-insert k k v m, same_self k) refl

  pub contains_key-none : (k : K) (m : Keyed K V) → contains_key k m ≡ false → get k m ≡ none
  unfolding contains_key
  contains_key-none k m h = ground arith

  pub contains_key-some :
      (k : K) (v : V) (m : Keyed K V) → get k m ≡ some v → contains_key k m ≡ true
  unfolding contains_key
  contains_key-some k v m h = rw (h, contains_key) refl

  pub get-insert_new :
      (j k : K) (v w : V) (m : Keyed K V)
      → contains_key k m ≡ false
      → get j m ≡ some v
      → get j (insert k w m) ≡ some v
  get-insert_new j k v w m new h =
      ground (arith, get-insert j k w m, contains_key-none k m new, e.same_iff j k)

  -- What holds of every value that is stored.
  abbrev pub Every {ι} : (K → V → Type ι) → Keyed K V → Type (ℓ ⊔ κ ⊔ ι)
  Every P m = (j : K) (w : V) → get j m ≡ some w → P j w

  pub insert-Every {ι} :
      (P : K → V → Type ι) (k : K) (v : V) (m : Keyed K V)
      → Every P m
      → P k v
      → Every P (insert k v m)
  insert-Every P k v m all p j w h =
      let h2 = get-insert j k v m in
      elim (Bool-cases (j ≟ k)) [
        | inl same ↦ subst (P j) (cc) (subst (λ (i : K). P i v) (sym ((e.same_iff j k).0 same)) p)
        | inr other ↦ all j w (ground arith)
      ]

  pub remove-Every {ι} :
      (P : K → V → Type ι) (k : K) (m : Keyed K V) → Every P m → Every P (remove k m)
  remove-Every P k m all j w h = all j w (let e = get-remove j k m in ground arith)

  pub map-Every {ι} :
      (P Q : K → V → Type ι) (f : V → V) (m n : Keyed K V)
      → ((j : K) → get j n ≡ Option.map f (get j m))
      → ((j : K) (v : V) → P j v → Q j (f v))
      → Every P m
      → Every Q n
  map-Every P Q f m n e step all j w h =
      let (v, here, same) = map-some f (get j m) w (sym (e j) ∙ h) in
      subst (Q j) same (step j v (all j v here))

  -- No key stands twice.
  abbrev pub Distinct : Keyed K V → Type κ
  Distinct [] = Unit
  Distinct ((k, v) ∷ m) = (get k m ≡ none) × Distinct m

  pub insert-Distinct : (k : K) (v : V) (m : Keyed K V) → Distinct m → Distinct (insert k v m)
  unfolding insert get
  insert-Distinct k v [] d = (refl, tt)
  insert-Distinct k v ((j, w) ∷ m) (new, d) =
      ground (arith, insert-Distinct k v m d, get-insert j k v m, e.same_iff k j, e.same_iff j k)

  pub remove-Distinct : (k : K) (m : Keyed K V) → Distinct m → Distinct (remove k m)
  unfolding remove get
  remove-Distinct k [] d = tt
  remove-Distinct k ((j, w) ∷ m) (new, d) =
      ground (arith, remove-Distinct k m d, get-remove j k m, e.same_iff j k)
