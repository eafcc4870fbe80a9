-- ===== src/Tools/Keygen.antt =====
-- tfchain_bridge/tools/keygen/main.go: one secret seed for TFChain and for Stellar.
pub mod Trimmed
pub mod Seeds
use tfchain_tft_bridge.Prelude.{ℕ, none, some, Option, Text, Bytes, codes}
use tfchain_tft_bridge.Errors.{Error, foreign, Result, value, error}
use tfchain_tft_bridge.Exec.{Exec, pure, abort, lift, try, ◌>>=◌}
use tfchain_tft_bridge.Go.Strings.{trim}
use tfchain_tft_bridge.Go.Hex.{hex_decode, copy_into}

-- The libraries: go-subkey, go-substrate-rpc-client and the Stellar SDK.
pub record KeyTools : Type 1 where
  pub Derived : Type 0
  pub Full : Type 0
  pub derive_key_pair : Text → Result Derived
  pub ss58_address : Derived → ℕ → Result Text
  pub public_key : Derived → Bytes
  pub hex_encode_to_string : Bytes → Text
  pub from_raw_seed : Bytes → Result Full
  pub seed : Full → Text
  pub address : Full → Text

-- `signature.KeyringPair`
pub record KeyringPair : Type 0 where
  pub uri : Text
  pub address : Text
  pub public_key : Bytes

-- What is printed.
pub record Printed : Type 0 where
  pub raw_seed : Text
  pub ss58 : Text
  pub stellar_secret : Text
  pub stellar_address : Text

abbrev pub network : ℕ
network = 42

module _ (T : KeyTools) where
  unfoldable pub keyring_pair_from_secret : {S : Type 0} → Text → ℕ → Exec S KeyringPair
  keyring_pair_from_secret seed_or_phrase network = do
    kyr ← lift (T.derive_key_pair seed_or_phrase)
    ss58_address ← lift (T.ss58_address kyr network)
    pure (record { uri = seed_or_phrase; address = ss58_address; public_key = T.public_key kyr })

-- `panic(err)`
unfoldable pub or_panic : {S A : Type 0} → Result A → Exec S A
or_panic (value a) = pure a
or_panic (error e) = abort

-- The digits of the URI without its prefix, decoded and copied into 32 bytes.
abbrev as_result : Option Bytes → Result Bytes
as_result none = error (foreign 0)
as_result (some b) = value b

unfoldable pub raw_seed : {S : Type 0} → Text → Exec S Bytes
raw_seed uri = do
  b ← or_panic (as_result (hex_decode (trim uri (codes "0x"))))
  pure (copy_into 32 b)

-- `main`; `generated` is the seed of the key that `ed25519.GenerateKey` gives.
unfoldable pub main : (T : KeyTools) {S : Type 0} → Result Bytes → Exec S Printed
unfolding or_panic raw_seed keyring_pair_from_secret
main T {S} generated = do
  pkey_seed ← or_panic generated
  pair ← try (keyring_pair_from_secret T (T.hex_encode_to_string pkey_seed) network)
  krp ← or_panic pair
  dest ← raw_seed krp.uri
  k ← or_panic (T.from_raw_seed dest)
  pure (record {
    raw_seed = krp.uri;
    ss58 = krp.address;
    stellar_secret = T.seed k;
    stellar_address = T.address k;
  })
