-- ===== src/Bridge/Withdraw/MintId.antt =====
-- The name of the mint that gives a bad withdrawal back: `fmt.Sprintf("refund-%d", withdraw.ID)`.
use tfchain_tft_bridge.Prelude.{
  ℕ, ◌≡◌, ◌≢◌, refl, sym, ◌∙◌, ap, none, Text, [], ◌∷◌, ◌<◌, ◌^◌, arith, Bytes, All,
}
use tfchain_tft_bridge.Go.Strconv.{format, format-injective}
use tfchain_tft_bridge.Go.Hex.{
  hex_decode, hex_encode, IsByte, hex_digit, hex_decode_bad, hex_decode-hex_encode,
}
use tfchain_tft_bridge.Bridge.Withdraw.{mint_id}

after_prefix : Text → Text
after_prefix (_ ∷ _ ∷ _ ∷ _ ∷ _ ∷ _ ∷ _ ∷ rest) = rest
after_prefix _ = []

after_prefix-mint_id : (n : ℕ) → after_prefix (mint_id n) ≡ format n
unfolding mint_id after_prefix
after_prefix-mint_id n = refl

-- Withdrawals with different identifiers, which are numbers of 64 bits, are given back by mints
-- with different names.
pub mint_id-injective : (m n : ℕ) → m < 2 ^ 64 → n < 2 ^ 64 → mint_id m ≡ mint_id n → m ≡ n
mint_id-injective m n hm hn e =
    format-injective m n (omega arith) (omega arith)
      (sym (after_prefix-mint_id m) ∙ ap after_prefix e ∙ after_prefix-mint_id n)

mint_id-not_hex : (n : ℕ) → hex_decode (mint_id n) ≡ none
unfolding mint_id hex_digit
mint_id-not_hex n = hex_decode_bad b'r' _ refl

-- The mint that gives a withdrawal back never has the name of the mint of a deposit, which is the
-- hash of a transaction in hexadecimal.
pub mint_id-ne-hex_encode : (n : ℕ) (hash : Bytes) → All IsByte hash → mint_id n ≢ hex_encode hash
mint_id-ne-hex_encode n hash bytes e =
    cc (mint_id-not_hex n, ap hex_decode e, hex_decode-hex_encode hash bytes)
