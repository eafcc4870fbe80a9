-- ===== src/Stellar/Network.antt =====
-- The choices by network at the end of tfchain_bridge/pkg/stellar/stellar.go.
use tfchain_tft_bridge.Prelude.{
  ◌≡◌, refl, if_both, List, [], ◌∷◌, Text, codes, text_eq, if◌then◌else◌,
}
use tfchain_tft_bridge.Errors.{message, Result, value, error}
use tfchain_tft_bridge.Config.{StellarConfig}
use tfchain_tft_bridge.Env.{Env}
use tfchain_tft_bridge.Env.Types.{HorizonClient, at_url, default_testnet, default_public}
use tfchain_tft_bridge.Go.Strings.{split}

abbrev pub tft_mainnet : Text
tft_mainnet = codes "TFT:GBOVQKJYHXRR3DX6NOX2RRYFRCUMSADGDESTDNBDS6CDVLGVESRTAC47"

abbrev pub tft_test : Text
tft_test = codes "TFT:GA47YZA3PKFUZMPLQ3B5F2E3CJIB57TGGU7SPCQT2WAEYKN766PWIMB3"

unfoldable pub get_horizon_client : StellarConfig → Result HorizonClient
get_horizon_client config =
    if text_eq config.stellar_horizon_url []
    then (if text_eq config.stellar_network (codes "testnet")
        then value default_testnet
        else if text_eq config.stellar_network (codes "production")
        then value default_public
        else error (message (codes "network is not supported")))
    else value (at_url config.stellar_horizon_url)

unfoldable pub get_network_pass_phrase : Env → StellarConfig → Text
get_network_pass_phrase E config =
    if text_eq config.stellar_network (codes "testnet")
    then E.test_network_passphrase
    else if text_eq config.stellar_network (codes "production")
    then E.public_network_passphrase
    else E.test_network_passphrase

unfoldable pub get_asset_code_and_issuer : StellarConfig → List Text
unfolding split
get_asset_code_and_issuer config =
    if text_eq config.stellar_network (codes "testnet")
    then split tft_test b':'
    else if text_eq config.stellar_network (codes "production")
    then split tft_mainnet b':'
    else split tft_test b':'

-- `asset[0]` and `asset[1]`.
abbrev pub asset_code : List Text → Text
asset_code [] = []
asset_code (code ∷ _) = code

abbrev pub asset_issuer : List Text → Text
asset_issuer (_ ∷ issuer ∷ _) = issuer
asset_issuer _ = []

abbrev pub HasTwoParts : List Text → Type 0
HasTwoParts asset = asset ≡ asset_code asset ∷ asset_issuer asset ∷ []

-- The asset has a code and an issuer and nothing else, whatever the network, so `asset[0]` and
-- `asset[1]` are there.
pub asset_parts : (config : StellarConfig) → HasTwoParts (get_asset_code_and_issuer config)
unfolding get_asset_code_and_issuer
asset_parts config =
    if_both HasTwoParts (text_eq config.stellar_network (codes "testnet")) _ _ refl
      (if_both HasTwoParts (text_eq config.stellar_network (codes "production")) _ _ refl refl)
