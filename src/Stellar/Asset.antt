-- ===== src/Stellar/Asset.antt =====
-- The asset that the bridge of a network pays and takes, written out: what the choice at the end of
-- tfchain_bridge/pkg/stellar/stellar.go has to give.
use tfchain_tft_bridge.Prelude.{
  ◌≡◌, refl, Bool, true, false, [], ◌∷◌, Text, codes, text_eq, text_eq_iff, arith, if◌then◌else◌,
}
use tfchain_tft_bridge.Config.{StellarConfig}
use tfchain_tft_bridge.Stellar.Network.{get_asset_code_and_issuer, tft_mainnet, tft_test}
use tfchain_tft_bridge.Go.Strings.{split}

abbrev pub tft_code : Text
tft_code = codes "TFT"

-- The issuer of the TFT of the main network, and of every other one.
abbrev pub tft_issuer : StellarConfig → Text
tft_issuer config =
    if text_eq config.stellar_network (codes "production")
    then codes "GBOVQKJYHXRR3DX6NOX2RRYFRCUMSADGDESTDNBDS6CDVLGVESRTAC47"
    else codes "GA47YZA3PKFUZMPLQ3B5F2E3CJIB57TGGU7SPCQT2WAEYKN766PWIMB3"

pub testnet_or_not :
    (network : Text)
    → text_eq network (codes "testnet") ≡ true
    → text_eq network (codes "production") ≡ false
testnet_or_not network h =
    let e : network ≡ codes "testnet" = (text_eq_iff network (codes "testnet")).0 h in
    rw e (unfold text_eq in refl)

pub asset_is_tft :
    (config : StellarConfig) → get_asset_code_and_issuer config ≡ tft_code ∷ tft_issuer config ∷ []
unfolding get_asset_code_and_issuer split
asset_is_tft config =
    go (text_eq config.stellar_network (codes "testnet"))
      (text_eq config.stellar_network (codes "production")) (testnet_or_not config.stellar_network)
  where
    go :
        (testnet production : Bool)
        → (testnet ≡ true → production ≡ false)
        → (if testnet
            then split tft_test b':'
            else if production
            then split tft_mainnet b':'
            else split tft_test b':')
          ≡ tft_code
            ∷ (if production
                then codes "GBOVQKJYHXRR3DX6NOX2RRYFRCUMSADGDESTDNBDS6CDVLGVESRTAC47"
                else codes "GA47YZA3PKFUZMPLQ3B5F2E3CJIB57TGGU7SPCQT2WAEYKN766PWIMB3")
            ∷ []
    go true true h = ground (arith, h refl)
    go true false h = refl
    go false true h = refl
    go false false h = refl
