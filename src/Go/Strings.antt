-- ===== src/Go/Strings.antt =====
-- `strings.Split` at a separator of one byte, used by pkg/bridge/mint.go and pkg/stellar/stellar.go,
-- and `strings.Trim`, used by tools/keygen/main.go.
use tfchain_tft_bridge.Prelude.{
  ℕ, ◌≡◌, ◌≢◌, refl, Bool, true, false, ◌&&◌, ◌||◌, List, [], ◌∷◌, ◌++◌, Text, codes, arith, ◌==◌,
  if◌then◌else◌, All,
}

abbrev cons_head : ℕ → List Text → List Text
cons_head c [] = (c ∷ []) ∷ []
cons_head c (p ∷ ps) = (c ∷ p) ∷ ps

unfoldable pub split : Text → ℕ → List Text
split [] sep = [] ∷ []
split (c ∷ s) sep = let rest = split s sep in if c == sep then [] ∷ rest else cons_head c rest

abbrev pub Lacks : ℕ → Text → Type 0
Lacks b = All (λ c. c ≢ b)

-- A text without the separator is its only part.
pub split_whole : (s : Text) (sep : ℕ) → Lacks sep s → split s sep ≡ s ∷ []
unfolding split
split_whole [] sep h = refl
split_whole (c ∷ s) sep (hc, hs) = ground (arith, split_whole s sep hs)

-- Up to the first separator the text is the first part.
pub split_at : (s t : Text) (sep : ℕ) → Lacks sep s → split (s ++ sep ∷ t) sep ≡ s ∷ split t sep
unfolding split
split_at [] t sep h = ground arith
split_at (c ∷ s) t sep (hc, hs) = ground (arith, split_at s t sep hs)

three_parts : split (codes "a__b") b'_' ≡ codes "a" ∷ [] ∷ codes "b" ∷ []
unfolding split
three_parts = refl

unfoldable pub contains : Text → ℕ → Bool
contains [] c = false
contains (d ∷ s) c = c == d || contains s c

unfoldable pub trim_left : Text → Text → Text
unfolding contains
trim_left [] cutset = []
trim_left (c ∷ s) cutset =
    let rest = trim_left s cutset in if contains cutset c then rest else c ∷ s

abbrev is_empty : Text → Bool
is_empty [] = true
is_empty (_ ∷ _) = false

unfoldable pub trim_right : Text → Text → Text
unfolding contains
trim_right [] cutset = []
trim_right (c ∷ s) cutset =
    let rest = trim_right s cutset in if is_empty rest && contains cutset c then [] else c ∷ rest

-- All leading and trailing bytes that are in the set go.
unfoldable pub trim : Text → Text → Text
unfolding trim_left trim_right
trim s cutset = trim_left (trim_right s cutset) cutset

module _ (cutset : Text) where
  snoc-ne-nil : (s : Text) (c : ℕ) → is_empty (s ++ c ∷ []) ≡ false
  snoc-ne-nil [] c = refl
  snoc-ne-nil (d ∷ s) c = refl

  pub trim_right_kept :
      (s : Text) (c : ℕ) → contains cutset c ≡ false → trim_right (s ++ c ∷ []) cutset ≡ s ++ c ∷ []
  unfolding trim_right
  trim_right_kept [] c h = rw h
  trim_right_kept (d ∷ s) c h = rw (trim_right_kept s c h, snoc-ne-nil s c)

  pub trim_right_cut :
      (s : Text) (c : ℕ)
      → contains cutset c ≡ true
      → trim_right (s ++ c ∷ []) cutset ≡ trim_right s cutset
  unfolding trim_right
  trim_right_cut [] c h = rw h
  trim_right_cut (d ∷ s) c h = rw (trim_right_cut s c h)

  pub trim_left_kept :
      (c : ℕ) (s : Text) → contains cutset c ≡ false → trim_left (c ∷ s) cutset ≡ c ∷ s
  unfolding trim_left
  trim_left_kept c s h = rw h

  pub trim_left_cut :
      (c : ℕ) (s : Text) → contains cutset c ≡ true → trim_left (c ∷ s) cutset ≡ trim_left s cutset
  unfolding trim_left
  trim_left_cut c s h = rw h

  -- What stands between bytes that stay stays.
  pub trim_between :
      (c d : ℕ) (s : Text)
      → contains cutset c ≡ false
      → contains cutset d ≡ false
      → trim (c ∷ s ++ d ∷ []) cutset ≡ c ∷ s ++ d ∷ []
  unfolding trim
  trim_between c d s hc hd = rw (trim_right_kept (c ∷ s) d hd) (trim_left_kept c (s ++ d ∷ []) hc)

trimmed : trim (codes "0x00ab0x0") (codes "0x") ≡ codes "ab"
unfolding trim contains
trimmed = refl
