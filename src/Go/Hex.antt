-- ===== src/Go/Hex.antt =====
-- `hex.DecodeString`, and the copy of its result into an array of 32 bytes.
use tfchain_tft_bridge.Prelude.{
  ℕ, zero, suc, ◌+◌, ◌-◌, ◌*◌, ◌/◌, ◌%◌, ◌<◌, ◌≡◌, refl, ◌&&◌, Option, none, some, [], ◌∷◌, ◌++◌,
  Bytes, Text, codes, arith, leb, ltb, length, if◌then◌else◌, All, ap,
}

unfoldable pub hex_digit : ℕ → Option ℕ
hex_digit c =
    if leb b'0' c && leb c b'9'
    then some (c - b'0')
    else if leb b'a' c && leb c b'f'
    then some (c - b'a' + 10)
    else if leb b'A' c && leb c b'F'
    then some (c - b'A' + 10)
    else none

-- The byte of two digits in front of the bytes of the rest.
abbrev byte : Option ℕ → Option ℕ → Option Bytes → Option Bytes
byte (some x) (some y) (some rest) = some ((x * 16 + y) ∷ rest)
byte _ _ _ = none

-- An odd length and a byte that is no digit are errors.
unfoldable pub hex_decode : Text → Option Bytes
unfolding hex_digit
hex_decode [] = some []
hex_decode (a ∷ []) = none
hex_decode (a ∷ b ∷ s) = byte (hex_digit a) (hex_digit b) (hex_decode s)

-- `copy(memo[:], b)` into an array of `n` zeros.
unfoldable pub copy_into : ℕ → Bytes → Bytes
copy_into zero bs = []
copy_into (suc n) [] = 0 ∷ copy_into n []
copy_into (suc n) (b ∷ bs) = b ∷ copy_into n bs

abbrev pub hex_char : ℕ → ℕ
hex_char d = if ltb d 10 then b'0' + d else b'a' + (d - 10)

-- The print of bytes in lower case, as Stellar prints its hashes: an independent description.
unfoldable pub hex_encode : Bytes → Text
hex_encode [] = []
hex_encode (b ∷ bs) = hex_char (b / 16) ∷ hex_char (b % 16) ∷ hex_encode bs

pub hex_digit-hex_char : (d : ℕ) → d < 16 → hex_digit (hex_char d) ≡ some d
unfolding hex_digit
hex_digit-hex_char d h = ground arith

abbrev pub IsByte : ℕ → Type 0
IsByte b = b < 256

-- Decoding undoes the print.
pub hex_decode-hex_encode : (bs : Bytes) → All IsByte bs → hex_decode (hex_encode bs) ≡ some bs
unfolding hex_decode hex_encode
hex_decode-hex_encode [] h = refl
hex_decode-hex_encode (b ∷ bs) (hb, h) = ground (
  arith,
  hex_digit-hex_char (b / 16) (omega arith),
  hex_digit-hex_char (b % 16) (omega arith),
  hex_decode-hex_encode bs h,
)

pub hex_encode-append : (a b : Bytes) → hex_encode (a ++ b) ≡ hex_encode a ++ hex_encode b
unfolding hex_encode
hex_encode-append [] b = refl
hex_encode-append (x ∷ a) b = rw (hex_encode-append a b)

-- One digit too many is an error.
pub hex_decode_odd : (bs : Bytes) (c : ℕ) → hex_decode (hex_encode bs ++ c ∷ []) ≡ none
unfolding hex_decode hex_encode
hex_decode_odd [] c = refl
hex_decode_odd (b ∷ bs) c = rw (hex_decode_odd bs c) (ground arith)

-- An array that has the length of its source is a plain copy.
pub copy_into_whole : (bs : Bytes) (n : ℕ) → length bs ≡ n → copy_into n bs ≡ bs
unfolding copy_into
copy_into_whole [] zero e = refl
copy_into_whole [] (suc n) e = absurd (omega arith)
copy_into_whole (b ∷ bs) zero e = absurd (omega arith)
copy_into_whole (b ∷ bs) (suc n) e = ap (λ l. b ∷ l) (copy_into_whole bs n (omega arith))

-- A text that begins with a byte which is no digit does not decode.
pub hex_decode_bad : (c : ℕ) (s : Text) → hex_digit c ≡ none → hex_decode (c ∷ s) ≡ none
unfolding hex_decode
hex_decode_bad c [] h = refl
hex_decode_bad c (d ∷ s) h = rw h

mixed_case : hex_decode (codes "00fFA0") ≡ some (0 ∷ 255 ∷ 160 ∷ [])
unfolding hex_decode
mixed_case = refl

-- An array that is longer by one ends in a zero.
pub copy_into_padded : (bs : Bytes) (n : ℕ) → length bs ≡ n → copy_into (suc n) bs ≡ bs ++ 0 ∷ []
unfolding copy_into
copy_into_padded [] zero e = refl
copy_into_padded [] (suc n) e = absurd (omega arith)
copy_into_padded (b ∷ bs) zero e = absurd (omega arith)
copy_into_padded (b ∷ bs) (suc n) e = ap (λ l. b ∷ l) (copy_into_padded bs n (omega arith))
