-- ===== src/Go/Base64.antt =====
-- `base64.StdEncoding.EncodeToString`, which prints the signatures of pkg/stellar/stellar.go.
use tfchain_tft_bridge.Prelude.{
  ℕ, ◌+◌, ◌-◌, ◌*◌, ◌/◌, ◌%◌, ◌≡◌, refl, [], ◌∷◌, Bytes, Text, codes, ltb, ◌==◌, if◌then◌else◌,
}

sextet : ℕ → ℕ
sextet i =
    if ltb i 26
    then b'A' + i
    else if ltb i 52
    then b'a' + (i - 26)
    else if ltb i 62
    then b'0' + (i - 52)
    else if i == 62
    then b'+'
    else b'/'

unfoldable pub base64_encode : Bytes → Text
unfolding sextet
base64_encode [] = []
base64_encode (a ∷ []) = sextet (a / 4) ∷ sextet (a % 4 * 16) ∷ b'=' ∷ b'=' ∷ []
base64_encode (a ∷ b ∷ []) =
    sextet (a / 4) ∷ sextet (a % 4 * 16 + b / 16) ∷ sextet (b % 16 * 4) ∷ b'=' ∷ []
base64_encode (a ∷ b ∷ c ∷ s) =
    sextet (a / 4)
    ∷ sextet (a % 4 * 16 + b / 16)
    ∷ sextet (b % 16 * 4 + c / 64)
    ∷ sextet (c % 64)
    ∷ base64_encode s

padded : base64_encode (codes "ab?>~") ≡ codes "YWI/Pn4="
unfolding base64_encode
padded = refl
