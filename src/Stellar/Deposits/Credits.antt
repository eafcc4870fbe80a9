-- ===== src/Stellar/Deposits/Credits.antt =====
-- Which effects `processTransaction` of tfchain_bridge/pkg/stellar/stellar.go takes for a deposit.
use tfchain_tft_bridge.Prelude.{
  ◌≡◌, ◌≢◌, ◌↔◌, ◌⊎◌, inl, true, false, Text, codes, text_eq_iff, arith,
}
use tfchain_tft_bridge.Config.{StellarConfig}
use tfchain_tft_bridge.Env.Types.{Effect}
use tfchain_tft_bridge.Stellar.Network.{get_asset_code_and_issuer}
use tfchain_tft_bridge.Stellar.Asset.{tft_code, tft_issuer, asset_is_tft}
use tfchain_tft_bridge.Stellar.Wallet.{not_asset}
use tfchain_tft_bridge.Stellar.Deposits.{is_skipped}

module _ (config : StellarConfig) where
  -- A credit of the bridge account.
  abbrev pub IsCredit : Effect → Type 0
  IsCredit effect =
      (effect.account ≡ config.stellar_bridge_account) × (effect.kind ≡ codes "account_credited")

  -- An effect is taken exactly if it credits the bridge account and its asset has the code of the
  -- network's TFT or its issuer; one of the two is enough.
  pub is_skipped_iff :
      (effect : Effect)
      → (is_skipped config effect ≡ false) ↔ (
          IsCredit effect
          × ((effect.asset_code ≡ tft_code) ⊎ (effect.asset_issuer ≡ tft_issuer config)))
  unfolding is_skipped
  is_skipped_iff effect = rw (asset_is_tft config) (
    λ h. ground (
      arith,
      text_eq_iff effect.account config.stellar_bridge_account,
      text_eq_iff effect.kind (codes "account_credited"),
      text_eq_iff effect.asset_code tft_code,
      text_eq_iff effect.asset_issuer (tft_issuer config),
    ),
    λ h. ground (
      arith,
      text_eq_iff effect.account config.stellar_bridge_account,
      text_eq_iff effect.kind (codes "account_credited"),
      text_eq_iff effect.asset_code tft_code,
      text_eq_iff effect.asset_issuer (tft_issuer config),
    ),
  )

  -- A credit of an asset that has the code of the network's TFT and another issuer is taken for a
  -- deposit, although `CheckAccount` passes over a balance in that asset, whatever its limit.
  pub is_skipped-not_asset :
      (effect : Effect)
      → IsCredit effect
      → effect.asset_code ≡ tft_code
      → effect.asset_issuer ≢ tft_issuer config
      → (is_skipped config effect ≡ false)
        × ((limit : Text)
            → not_asset
                (get_asset_code_and_issuer config)
                (record { code = effect.asset_code; issuer = effect.asset_issuer; limit = limit })
              ≡ true)
  unfolding not_asset
  is_skipped-not_asset effect credit code issuer = (
    (is_skipped_iff effect).1 (credit, inl code),
    λ limit.
        rw (asset_is_tft config) ground
          (arith, text_eq_iff effect.asset_issuer (tft_issuer config)),
  )
