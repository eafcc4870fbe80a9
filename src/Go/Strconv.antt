-- ===== src/Go/Strconv.antt =====
-- `strconv.Atoi`, and the decimal print of `fmt.Sprintf("%d", n)` and `big.Int.String`.
use native.Mathlib.Nat.{pow-suc}
use tfchain_tft_bridge.Prelude.{
  ℕ, zero, suc, ◌+◌, ◌-◌, ◌*◌, ◌/◌, ◌%◌, ◌^◌, ◌≤◌, ◌<◌, ◌≡◌, ◌≢◌, refl, Bool, ◌&&◌, Option, none,
  some, [], ◌∷◌, Text, codes, arith, ltb, leb, ◌==◌, if◌then◌else◌, All, ℤ, pos, negsuc, ◌∙◌, ap,
}

-- The digits of `n` in front of `out`, at most as many as the first argument says.
digits : ℕ → ℕ → Text → Text
digits zero n out = out
digits (suc f) n out =
    let rest = digits f (n / 10) ((b'0' + n % 10) ∷ out) in if n == 0 then out else rest

-- Twenty digits are enough for a uint64.
abbrev pub max_digits : ℕ
max_digits = 20

unfoldable pub format : ℕ → Text
unfolding digits
format n = if n == 0 then b'0' ∷ [] else digits max_digits n []

unfoldable pub is_digit : ℕ → Bool
is_digit c = leb b'0' c && leb c b'9'

-- The number that the digits spell behind `n`.
unfoldable pub scan : ℕ → Text → Option ℕ
unfolding is_digit
scan n [] = some n
scan n (c ∷ s) = let rest = scan (n * 10 + (c - b'0')) s in if is_digit c then rest else none

-- The int of 64 bits, or a range error.
unfoldable pub to_int : Bool → Option ℕ → Option ℤ
to_int negative none = none
to_int Bool.false (some n) = if ltb n (2 ^ 63) then some (pos n) else none
to_int Bool.true (some zero) = some (pos 0)
to_int Bool.true (some (suc n)) = if ltb n (2 ^ 63) then some (negsuc n) else none

-- At least one digit.
unfoldable pub scan_digits : Text → Option ℕ
unfolding scan
scan_digits [] = none
scan_digits (c ∷ s) = scan 0 (c ∷ s)

unfoldable pub atoi : Text → Option ℤ
unfolding to_int scan_digits
atoi [] = none
atoi (c ∷ s) =
    if c == b'-'
    then to_int Bool.true (scan_digits s)
    else if c == b'+'
    then to_int Bool.false (scan_digits s)
    else to_int Bool.false (scan_digits (c ∷ s))

abbrev pub IsDigit : ℕ → Type 0
IsDigit c = (b'0' ≤ c) × (c ≤ b'9')

digits-IsDigit : (f n : ℕ) (out : Text) → All IsDigit out → All IsDigit (digits f n out)
unfolding digits
digits-IsDigit zero n out h = h
digits-IsDigit (suc f) n out h =
    ground
      (arith, digits-IsDigit f (n / 10) ((b'0' + n % 10) ∷ out) ((omega arith, omega arith), h))

digits-ne-nil : (f n : ℕ) (out : Text) → out ≢ [] → digits f n out ≢ []
unfolding digits
digits-ne-nil zero n out h = h
digits-ne-nil (suc f) n out h =
    ground (arith, digits-ne-nil f (n / 10) ((b'0' + n % 10) ∷ out) (cc))

-- A print is made of digits, one at least.
pub format-IsDigit : (n : ℕ) → All IsDigit (format n)
unfolding format
format-IsDigit n = ground (arith, digits-IsDigit max_digits n [] tt)

pub format-ne-nil : (n : ℕ) → format n ≢ []
unfolding format
format-ne-nil n = ground (arith, digits-ne-nil 19 (n / 10) ((b'0' + n % 10) ∷ []) (cc))

-- Reading the digits of `n` first brings a reader to `n`.
pub scan_step : (n d : ℕ) (s : Text) → d < 10 → scan n ((b'0' + d) ∷ s) ≡ scan (n * 10 + d) s
unfolding scan
scan_step n d s h = ground arith

pub tenth_fits : (f n : ℕ) → n < 10 ^ suc f → n / 10 < 10 ^ f
tenth_fits f n h = let p : n < 10 ^ f * 10 = rw pow-suc at h in omega arith

scan-digits : (f n : ℕ) (out : Text) → n < 10 ^ f → scan 0 (digits f n out) ≡ scan n out
unfolding digits scan
scan-digits zero n out h = rw (let e : n ≡ 0 = omega arith in e)
scan-digits (suc f) n out h =
    ground (arith, scan-digits f (n / 10) ((b'0' + n % 10) ∷ out) (tenth_fits f n h))

-- Behind a print the reader goes on from the number.
pub scan-format : (n : ℕ) → n < 10 ^ 20 → scan 0 (format n) ≡ some n
unfolding format scan
scan-format n h = ground (arith, scan-digits max_digits n [] h)

atoi_of_digits : (s : Text) → s ≢ [] → All IsDigit s → atoi s ≡ to_int Bool.false (scan 0 s)
unfolding atoi
atoi_of_digits [] h _ = absurd (h refl)
atoi_of_digits (c ∷ s) _ (hc, _) = ground arith

-- Every int that is not negative is read back from its print.
pub atoi-format : (n : ℕ) → n < 2 ^ 63 → atoi (format n) ≡ some (pos n)
unfolding to_int
atoi-format n h =
    atoi_of_digits (format n) (format-ne-nil n) (format-IsDigit n)
    ∙ rw (scan-format n (omega arith)) (ground arith)

-- Two numbers with one print are equal.
pub format-injective : (n m : ℕ) → n < 10 ^ 20 → m < 10 ^ 20 → format n ≡ format m → n ≡ m
format-injective n m hn hm e = cc (scan-format n hn, scan-format m hm, ap (scan 0) e)

signs :
    (atoi (codes "-1") ≡ some (negsuc 0))
    × (atoi (codes "+07") ≡ some (pos 7))
    × (atoi (codes "-") ≡ none)
    × (atoi (codes "9223372036854775808") ≡ none)
    × (atoi (codes "-9223372036854775808") ≡ some (negsuc 9223372036854775807))
unfolding atoi
signs = (refl, refl, refl, refl, refl)
