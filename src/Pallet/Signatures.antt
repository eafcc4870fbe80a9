-- ===== src/Pallet/Signatures.antt =====
-- The tests on signatures that pallet-tft-bridge/src/lib.rs makes for burns and for refunds.
use tfchain_tft_bridge.Prelude.{
  Bool, false, ◌||◌, List, [], ◌∷◌, ◌++◌, ◌≡◌, refl, Bytes, text_eq, text_eq_iff, arith,
}
use tfchain_tft_bridge.Pallet.Types.{StellarSignature}

-- `signatures.iter().any(..)`, for the key and for the signature.
unfoldable pub has_key : Bytes → List StellarSignature → Bool
has_key key [] = false
has_key key (sig ∷ sigs) = text_eq sig.stellar_pub_key key || has_key key sigs

unfoldable pub has_signature : Bytes → List StellarSignature → Bool
has_signature signature [] = false
has_signature signature (sig ∷ sigs) =
    text_eq sig.signature signature || has_signature signature sigs

-- No two signatures of one key.
abbrev pub OneEach : List StellarSignature → Type 0
OneEach [] = Unit
OneEach (sig ∷ sigs) = (has_key sig.stellar_pub_key sigs ≡ false) × OneEach sigs

has_key-append :
    (key : Bytes) (sigs : List StellarSignature) (sig : StellarSignature)
    → has_key key (sigs ++ sig ∷ []) ≡ (has_key key sigs || text_eq sig.stellar_pub_key key)
unfolding has_key
has_key-append key [] sig = ground arith
has_key-append key (s ∷ sigs) sig = ground (arith, has_key-append key sigs sig)

pub append-OneEach :
    (sigs : List StellarSignature) (sig : StellarSignature)
    → has_key sig.stellar_pub_key sigs ≡ false
    → OneEach sigs
    → OneEach (sigs ++ sig ∷ [])
unfolding has_key
append-OneEach [] sig new one = (refl, tt)
append-OneEach (s ∷ sigs) sig new (first, one) = ground (
  arith,
  has_key-append s.stellar_pub_key sigs sig,
  append-OneEach sigs sig,
  text_eq_iff s.stellar_pub_key sig.stellar_pub_key,
  text_eq_iff sig.stellar_pub_key s.stellar_pub_key,
)
