-- ===== src/Tools/Keygen/Trimmed.antt =====
-- What `strings.Trim(uri, "0x")` of tfchain_bridge/tools/keygen/main.go leaves of the digits of a seed.
use tfchain_tft_bridge.Prelude.{
  ℕ, ◌/◌, ◌%◌, ◌≤◌, ◌<◌, ◌≡◌, ◌≢◌, refl, sym, ◌∙◌, ap, false, [], ◌∷◌, ◌++◌, append_assoc, Text,
  Bytes, codes, arith, All, All-append,
}
use tfchain_tft_bridge.Go.Strings.{
  contains, trim, trim_left, trim_right_kept, trim_right_cut, trim_left_kept, trim_left_cut,
}
use tfchain_tft_bridge.Go.Hex.{hex_char, hex_encode, hex_encode-append, IsByte}

abbrev pub prefix : Text
prefix = codes "0x"

-- Of the digits only the zero is cut.
contains-hex_char : (d : ℕ) → 0 < d → d < 16 → contains prefix (hex_char d) ≡ false
unfolding contains
contains-hex_char d p h = ground arith

-- The seed has 32 bytes: a first one, thirty others and a last one.
abbrev pub seed_of : ℕ → Bytes → ℕ → Bytes
seed_of first middle last = first ∷ middle ++ last ∷ []

hex_encode-seed_of :
    (first last : ℕ) (middle : Bytes)
    → hex_encode (seed_of first middle last)
      ≡ hex_char (first / 16)
          ∷ hex_char (first % 16)
          ∷ (hex_encode middle ++ hex_char (last / 16) ∷ [])
        ++ hex_char (last % 16) ∷ []
unfolding hex_encode
hex_encode-seed_of first last middle =
    ap (λ (t : Text). hex_char (first / 16) ∷ hex_char (first % 16) ∷ t)
      (hex_encode-append middle (last ∷ [])
        ∙ sym (
            append_assoc (hex_encode middle) (hex_char (last / 16) ∷ [])
              (hex_char (last % 16) ∷ [])))

-- A text with the prefix whose first digit stays loses the prefix.
trim_left-prefix :
    (c : ℕ) (s : Text) → contains prefix c ≡ false → trim_left (prefix ++ c ∷ s) prefix ≡ c ∷ s
trim_left-prefix c s h =
    trim_left_cut prefix b'0' (b'x' ∷ c ∷ s) (unfold contains in refl)
    ∙ trim_left_cut prefix b'x' (c ∷ s) (unfold contains in refl)
    ∙ trim_left_kept prefix c s h

-- Two zeros behind the prefix go with it.
trim_left-zeros :
    (c : ℕ) (s : Text)
    → contains prefix c ≡ false
    → trim_left (prefix ++ b'0' ∷ b'0' ∷ c ∷ s) prefix ≡ c ∷ s
trim_left-zeros c s h =
    trim_left_cut prefix b'0' (b'x' ∷ b'0' ∷ b'0' ∷ c ∷ s) (unfold contains in refl)
    ∙ trim_left_cut prefix b'x' (b'0' ∷ b'0' ∷ c ∷ s) (unfold contains in refl)
    ∙ trim_left_cut prefix b'0' (b'0' ∷ c ∷ s) (unfold contains in refl)
    ∙ trim_left_cut prefix b'0' (c ∷ s) (unfold contains in refl)
    ∙ trim_left_kept prefix c s h

-- The prefix goes and nothing else, if the first and the last digit are not zero.
pub trim-prefix :
    (first last : ℕ) (middle : Bytes)
    → IsByte first
    → 16 ≤ first
    → last % 16 ≢ 0
    → trim (prefix ++ hex_encode (seed_of first middle last)) prefix
      ≡ hex_encode (seed_of first middle last)
unfolding trim
trim-prefix first last middle byte f l = rw (hex_encode-seed_of first last middle) (
    ap (λ (t : Text). trim_left t prefix)
      (trim_right_kept prefix
        (b'0'
          ∷ b'x'
          ∷ hex_char (first / 16)
          ∷ hex_char (first % 16)
          ∷ (hex_encode middle ++ hex_char (last / 16) ∷ []))
        (hex_char (last % 16)) (contains-hex_char (last % 16) (omega arith) (omega arith)))
    ∙ trim_left-prefix (hex_char (first / 16)) _
        (contains-hex_char (first / 16) (omega arith) (omega arith)))

pub All-seed_of :
    (first last : ℕ) (middle : Bytes)
    → IsByte first
    → All IsByte middle
    → IsByte last
    → All IsByte (seed_of first middle last)
All-seed_of first last middle f m l = (f, All-append IsByte middle (last ∷ []) m (l, tt))

hex_encode_cons :
    (b : ℕ) (bs : Bytes)
    → hex_encode (b ∷ bs) ≡ hex_char (b / 16) ∷ hex_char (b % 16) ∷ hex_encode bs
unfolding hex_encode
hex_encode_cons b bs = refl

-- A last digit that is zero goes too.
pub trim-cut_last :
    (first last : ℕ) (middle : Bytes)
    → IsByte first
    → IsByte last
    → 16 ≤ first
    → 16 ≤ last
    → last % 16 ≡ 0
    → trim (prefix ++ hex_encode (seed_of first middle last)) prefix
      ≡ hex_encode (first ∷ middle) ++ hex_char (last / 16) ∷ []
unfolding trim
trim-cut_last first last middle fb lb f l e =
    rw (hex_encode-seed_of first last middle, hex_encode_cons first middle, e)
      (ap (λ (t : Text). trim_left t prefix)
          (trim_right_cut prefix
              (b'0'
                ∷ b'x'
                ∷ hex_char (first / 16)
                ∷ hex_char (first % 16)
                ∷ (hex_encode middle ++ hex_char (last / 16) ∷ []))
              (hex_char 0) (unfold contains in refl)
            ∙ trim_right_kept prefix
                (b'0' ∷ b'x' ∷ hex_char (first / 16) ∷ hex_char (first % 16) ∷ hex_encode middle)
                (hex_char (last / 16)) (contains-hex_char (last / 16) (omega arith) (omega arith)))
        ∙ trim_left-prefix (hex_char (first / 16)) _
            (contains-hex_char (first / 16) (omega arith) (omega arith)))

-- A first byte that is zero goes too.
pub trim-cut_first :
    (next last : ℕ) (rest : Bytes)
    → IsByte next
    → 16 ≤ next
    → last % 16 ≢ 0
    → trim (prefix ++ hex_encode (0 ∷ seed_of next rest last)) prefix
      ≡ hex_encode (seed_of next rest last)
unfolding trim
trim-cut_first next last rest byte f l =
    rw (hex_encode_cons 0 (seed_of next rest last), hex_encode-seed_of next last rest)
      (ap (λ (t : Text). trim_left t prefix)
          (trim_right_kept prefix
            (b'0'
              ∷ b'x'
              ∷ b'0'
              ∷ b'0'
              ∷ hex_char (next / 16)
              ∷ hex_char (next % 16)
              ∷ (hex_encode rest ++ hex_char (last / 16) ∷ []))
            (hex_char (last % 16)) (contains-hex_char (last % 16) (omega arith) (omega arith)))
        ∙ trim_left-zeros (hex_char (next / 16)) _
            (contains-hex_char (next / 16) (omega arith) (omega arith)))
