-- ===== src/Go/Rat.antt =====
-- `big.NewRat(a, 10000000).FloatString(7)`: the print of an amount of pkg/stellar/stellar.go.
use native.Mathlib.Nat.{pow-suc}
use tfchain_tft_bridge.Prelude.{
  ℕ, zero, suc, ◌+◌, ◌-◌, ◌*◌, ◌/◌, ◌%◌, ◌^◌, ◌<◌, ◌≡◌, refl, Option, none, some, [], ◌∷◌, ◌++◌,
  Text, codes, arith, ◌==◌, if◌then◌else◌, All, ℤ, pos, negsuc, ◌∙◌,
}
use tfchain_tft_bridge.Go.Strconv.{
  format, is_digit, scan, scan-format, IsDigit, format-IsDigit, tenth_fits,
}

-- The last `k` digits of `r`, with leading zeros, in front of `out`.
fixed : ℕ → ℕ → Text → Text
fixed zero r out = out
fixed (suc k) r out = fixed k (r / 10) ((b'0' + r % 10) ∷ out)

abbrev pub precision_digits : ℕ
precision_digits = 7

abbrev pub precision : ℕ
precision = 10 ^ 7

magnitude : ℕ → Text
unfolding fixed
magnitude n = format (n / precision) ++ b'.' ∷ fixed precision_digits (n % precision) []

-- The quotient of an integer by 10^7 is printed exactly with seven digits.
unfoldable pub float_string : ℤ → Text
unfolding magnitude
float_string (pos n) = magnitude n
float_string (negsuc n) = b'-' ∷ magnitude (suc n)

-- Reads `k` digits and no more behind the number `n`.
read_exact : ℕ → ℕ → Text → Option ℕ
read_exact zero n [] = some n
read_exact zero n (c ∷ s) = none
read_exact (suc k) n [] = none
read_exact (suc k) n (c ∷ s) =
    let rest = read_exact k (n * 10 + (c - b'0')) s in if is_digit c then rest else none

read_to_dot : ℕ → Text → Option ℕ
unfolding read_exact
read_to_dot n [] = none
read_to_dot n (c ∷ s) =
    let rest = read_to_dot (n * 10 + (c - b'0')) s in
    if c == b'.' then read_exact 7 n s else if is_digit c then rest else none

-- The number of ten-millionths that a text with seven decimals says: an independent reading.
pub stroops : Text → Option ℕ
unfolding read_to_dot
stroops = read_to_dot 0

read_exact_step :
    (k n d : ℕ) (s : Text)
    → d < 10
    → read_exact (suc k) n ((b'0' + d) ∷ s) ≡ read_exact k (n * 10 + d) s
unfolding read_exact is_digit
read_exact_step k n d s h = ground arith

regroup_digits : (k n r : ℕ) → (n * 10 ^ k + r / 10) * 10 + r % 10 ≡ n * 10 ^ suc k + r
regroup_digits k n r = rw pow-suc (omega arith)

read_exact-fixed :
    (k j n r : ℕ) (out : Text)
    → r < 10 ^ k
    → read_exact (k + j) n (fixed k r out) ≡ read_exact j (n * 10 ^ k + r) out
unfolding fixed read_exact
read_exact-fixed zero j n r out h =
    let p : zero + j ≡ j = omega arith in let q : n * 10 ^ 0 + r ≡ n = omega arith in rw (p, q)
read_exact-fixed (suc k) j n r out h =
    let p : suc k + j ≡ k + suc j = omega arith in
    rw p (
      read_exact-fixed k (suc j) n (r / 10) ((b'0' + r % 10) ∷ out) (tenth_fits k r h)
      ∙ read_exact_step j (n * 10 ^ k + r / 10) (r % 10) out (omega arith)
      ∙ rw (regroup_digits k n r))

read_to_dot-scan :
    (s t : Text) (n m : ℕ)
    → All IsDigit s
    → scan n s ≡ some m
    → read_to_dot n (s ++ b'.' ∷ t) ≡ read_exact 7 m t
unfolding read_to_dot scan
read_to_dot-scan [] t n m _ h = ground arith
read_to_dot-scan (c ∷ s) t n m (hc, hs) h =
    ground (arith, read_to_dot-scan s t (n * 10 + (c - b'0')) m hs)

-- The print of an amount below 2^63 says that amount, to the last ten-millionth.
pub stroops-float_string : (n : ℕ) → n < 2 ^ 63 → stroops (float_string (pos n)) ≡ some n
unfolding stroops float_string read_exact
stroops-float_string n h =
    read_to_dot-scan (format (n / precision)) (fixed precision_digits (n % precision) []) 0
      (n / precision) (format-IsDigit (n / precision)) (scan-format (n / precision) (omega arith))
    ∙ read_exact-fixed precision_digits 0 (n / precision) (n % precision) [] (omega arith)
    ∙ ground arith

half :
    (float_string (pos 25000000) ≡ codes "2.5000000")
    × (stroops (codes "12.0000345") ≡ some 120000345)
unfolding float_string format stroops is_digit
half = (refl, refl)
