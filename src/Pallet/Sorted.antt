-- ===== src/Pallet/Sorted.antt =====
-- pallet-tft-bridge/src/lib.rs: searching, inserting and removing in a sorted vector.
use tfchain_tft_bridge.Prelude.{
  ℕ, zero, suc, ◌<◌, ◌≡◌, refl, Bool, true, false, not, ◌&&◌, ◌||◌, List, [], ◌∷◌, ◌==◌, arith,
}
use tfchain_tft_bridge.Pallet.Types.{Account}
use tfchain_tft_bridge.Pallet.Validators.{found, missing, binary_search, insert_at, remove_at}

-- Whether an account is a validator, by going through all of them.
unfoldable pub has : Account → List Account → Bool
has a [] = false
has a (v ∷ vs) = a == v || has a vs

abbrev pub Above : Account → List Account → Type 0
Above a [] = Unit
Above a (v ∷ vs) = a < v × Above a vs

-- The accounts rise.
abbrev pub Sorted : List Account → Type 0
Sorted [] = Unit
Sorted (v ∷ vs) = Above v vs × Sorted vs

Above-has : (a b : Account) (vs : List Account) → Above a vs → b < a → has b vs ≡ false
unfolding has
Above-has a b [] above lt = refl
Above-has a b (v ∷ vs) (first, above) lt = ground (arith, Above-has a b vs above lt)

Above-self : (a : Account) (vs : List Account) → Above a vs → has a vs ≡ false
unfolding has
Above-self a [] above = refl
Above-self a (v ∷ vs) (first, above) = ground (arith, Above-self a vs above)

Above-lt : (a b : Account) (vs : List Account) → Above a vs → b < a → Above b vs
Above-lt a b [] above lt = tt
Above-lt a b (v ∷ vs) (first, above) lt = (omega arith, Above-lt a b vs above lt)

pub search-found :
    (a : Account) (vs : List Account) (i : ℕ) → binary_search a vs ≡ found i → has a vs ≡ true
unfolding binary_search has
search-found a [] i h = ground arith
search-found a (v ∷ vs) zero h = ground (arith, search-found a vs zero)
search-found a (v ∷ vs) (suc i) h = ground (arith, search-found a vs i)

pub search-missing :
    (a : Account) (vs : List Account) (i : ℕ)
    → Sorted vs
    → binary_search a vs ≡ missing i
    → has a vs ≡ false
unfolding binary_search has
search-missing a [] i sorted h = refl
search-missing a (v ∷ vs) zero (above, sorted) h =
    ground (arith, search-missing a vs zero sorted, Above-has v a vs above)
search-missing a (v ∷ vs) (suc i) (above, sorted) h =
    ground (arith, search-missing a vs i sorted, Above-has v a vs above)

pub has-insert_at :
    (a b : Account) (vs : List Account) (i : ℕ) → has b (insert_at i a vs) ≡ (b == a || has b vs)
unfolding has insert_at
has-insert_at a b vs zero = refl
has-insert_at a b [] (suc i) = refl
has-insert_at a b (v ∷ vs) (suc i) = ground (arith, has-insert_at a b vs i)

Above-insert_at :
    (u a : Account) (vs : List Account) (i : ℕ) → u < a → Above u vs → Above u (insert_at i a vs)
unfolding insert_at
Above-insert_at u a vs zero lt above = (lt, above)
Above-insert_at u a [] (suc i) lt above = (lt, tt)
Above-insert_at u a (v ∷ vs) (suc i) lt (first, above) = (first, Above-insert_at u a vs i lt above)

pub insert_at-Sorted :
    (a : Account) (vs : List Account) (i : ℕ)
    → Sorted vs
    → binary_search a vs ≡ missing i
    → Sorted (insert_at i a vs)
unfolding insert_at binary_search
insert_at-Sorted a [] zero sorted h = (tt, tt)
insert_at-Sorted a [] (suc i) sorted h = (tt, tt)
insert_at-Sorted a (v ∷ vs) zero (above, sorted) h =
    ground (arith, Above-lt v a vs above, above, sorted)
insert_at-Sorted a (v ∷ vs) (suc i) (above, sorted) h =
    ground (arith, insert_at-Sorted a vs i sorted, Above-insert_at v a vs i, above)

pub has-remove_at :
    (a b : Account) (vs : List Account) (i : ℕ)
    → Sorted vs
    → binary_search a vs ≡ found i
    → has b (remove_at i vs) ≡ (not (b == a) && has b vs)
unfolding has remove_at binary_search
has-remove_at a b [] i sorted h = ground arith
has-remove_at a b (v ∷ vs) zero (above, sorted) h = ground (arith, Above-self v vs above)
has-remove_at a b (v ∷ vs) (suc i) (above, sorted) h = ground (arith, has-remove_at a b vs i sorted)

Above-remove_at : (u : Account) (vs : List Account) (i : ℕ) → Above u vs → Above u (remove_at i vs)
unfolding remove_at
Above-remove_at u [] i above = tt
Above-remove_at u (v ∷ vs) zero (first, above) = above
Above-remove_at u (v ∷ vs) (suc i) (first, above) = (first, Above-remove_at u vs i above)

pub remove_at-Sorted : (vs : List Account) (i : ℕ) → Sorted vs → Sorted (remove_at i vs)
unfolding remove_at
remove_at-Sorted [] i sorted = tt
remove_at-Sorted (v ∷ vs) zero (above, sorted) = sorted
remove_at-Sorted (v ∷ vs) (suc i) (above, sorted) =
    (Above-remove_at v vs i above, remove_at-Sorted vs i sorted)
