-- ===== src/Tools/Keygen/Seeds.antt =====
-- Which seed the Stellar key of tfchain_bridge/tools/keygen/main.go is made of.
use tfchain_tft_bridge.Prelude.{
  ℕ, ◌/◌, ◌%◌, ◌≤◌, ◌≡◌, ◌≢◌, refl, ap, [], ◌∷◌, ◌++◌, Text, Bytes, arith, length, length-append,
  All,
}
use tfchain_tft_bridge.Errors.{Result, value, error}
use tfchain_tft_bridge.Exec.{ok, crash, ◌>>=◌}
use tfchain_tft_bridge.Go.Hex.{
  hex_char, hex_encode, hex_decode-hex_encode, hex_decode_odd, copy_into_whole, copy_into_padded,
  IsByte,
}
use tfchain_tft_bridge.Tools.Keygen.{
  KeyTools, network, or_panic, keyring_pair_from_secret, raw_seed, main,
}
use tfchain_tft_bridge.Tools.Keygen.Trimmed.{
  prefix, seed_of, trim-prefix, trim-cut_last, trim-cut_first, All-seed_of,
}

module _ {S : Type 0} (s : S) where
  raw_seed-kept :
      (first last : ℕ) (middle : Bytes)
      → IsByte first
      → All IsByte middle
      → IsByte last
      → length middle ≡ 30
      → 16 ≤ first
      → last % 16 ≢ 0
      → raw_seed (prefix ++ hex_encode (seed_of first middle last)) s
        ≡ (ok (seed_of first middle last), s)
  unfolding raw_seed or_panic ◌>>=◌
  raw_seed-kept first last middle f m l n low high =
      rw
        (
          trim-prefix first last middle f low high,
          hex_decode-hex_encode (seed_of first middle last) (All-seed_of first last middle f m l),
        )
        (ap (λ (b : Bytes). (ok b, s))
          (copy_into_whole (seed_of first middle last) 32
            (omega (arith, length-append middle (last ∷ [])))))

  raw_seed-cut_last :
      (first last : ℕ) (middle : Bytes)
      → IsByte first
      → IsByte last
      → 16 ≤ first
      → 16 ≤ last
      → last % 16 ≡ 0
      → raw_seed (prefix ++ hex_encode (seed_of first middle last)) s ≡ (crash, s)
  unfolding raw_seed or_panic ◌>>=◌
  raw_seed-cut_last first last middle fb lb f l e = rw (
    trim-cut_last first last middle fb lb f l e,
    hex_decode_odd (first ∷ middle) (hex_char (last / 16)),
  )

  -- Of a seed whose first byte is zero, whose second byte is at least 16 and whose last hexadecimal
  -- digit is not zero, the Stellar key does not get the seed: it gets the seed moved by one byte to the
  -- front, with a zero behind.
  pub raw_seed-cut_first :
      (next last : ℕ) (rest : Bytes)
      → IsByte next
      → All IsByte rest
      → IsByte last
      → length rest ≡ 29
      → 16 ≤ next
      → last % 16 ≢ 0
      → raw_seed (prefix ++ hex_encode (0 ∷ seed_of next rest last)) s
        ≡ (ok (seed_of next rest last ++ 0 ∷ []), s)
  unfolding raw_seed or_panic ◌>>=◌
  raw_seed-cut_first next last rest f m l n low high =
      rw
        (
          trim-cut_first next last rest f low high,
          hex_decode-hex_encode (seed_of next rest last) (All-seed_of next last rest f m l),
        )
        (ap (λ (b : Bytes). (ok b, s))
          (copy_into_padded (seed_of next rest last) 31
            (omega (arith, length-append rest (last ∷ [])))))

module _ (T : KeyTools) {S : Type 0} (s : S)
    (documented : (b : Bytes) → T.hex_encode_to_string b ≡ prefix ++ hex_encode b) where
  -- If the libraries accept the seed, and neither the first nor the last hexadecimal digit of its 32
  -- bytes is zero, the program prints the digits of the seed, its address on TFChain, and the secret
  -- and the address of the Stellar key that is made of the same 32 bytes.
  pub main-seed_of :
      (first last : ℕ) (middle : Bytes) (kyr : T.Derived) (address : Text) (k : T.Full)
      → IsByte first
      → All IsByte middle
      → IsByte last
      → length middle ≡ 30
      → 16 ≤ first
      → last % 16 ≢ 0
      → T.derive_key_pair (prefix ++ hex_encode (seed_of first middle last)) ≡ value kyr
      → T.ss58_address kyr network ≡ value address
      → T.from_raw_seed (seed_of first middle last) ≡ value k
      → (main T (value (seed_of first middle last)) s).0
        ≡ ok (record {
          raw_seed = prefix ++ hex_encode (seed_of first middle last);
          ss58 = address;
          stellar_secret = T.seed k;
          stellar_address = T.address k;
        })
  unfolding main or_panic keyring_pair_from_secret ◌>>=◌
  main-seed_of first last middle kyr address k f m l n low high derived named made = rw (
    documented (seed_of first middle last),
    derived,
    named,
    raw_seed-kept s first last middle f m l n low high,
    made,
  )

  -- If the first hexadecimal digit of the generated seed is not zero, and of the last two only the
  -- last is, then the program ends in a panic, whatever the libraries answer, and prints nothing.
  pub main-panics :
      (first last : ℕ) (middle : Bytes)
      → IsByte first
      → IsByte last
      → 16 ≤ first
      → 16 ≤ last
      → last % 16 ≡ 0
      → (main T (value (seed_of first middle last)) s).0 ≡ crash
  unfolding main or_panic keyring_pair_from_secret ◌>>=◌
  main-panics first last middle fb lb f l e = derived (T.derive_key_pair uri) refl
    where
      uri : Text
      uri = prefix ++ hex_encode (seed_of first middle last)

      named :
          (kyr : T.Derived) (r : Result Text)
          → T.ss58_address kyr network ≡ r
          → T.derive_key_pair uri ≡ value kyr
          → (main T (value (seed_of first middle last)) s).0 ≡ crash
      named kyr (error r) n d = rw (documented (seed_of first middle last), d, n)
      named kyr (value a) n d = rw (
        documented (seed_of first middle last),
        d,
        n,
        raw_seed-cut_last s first last middle fb lb f l e,
      )

      derived :
          (r : Result T.Derived)
          → T.derive_key_pair uri ≡ r
          → (main T (value (seed_of first middle last)) s).0 ≡ crash
      derived (error r) d = rw (documented (seed_of first middle last), d)
      derived (value kyr) d = named kyr (T.ss58_address kyr network) refl d
