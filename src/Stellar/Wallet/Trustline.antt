-- ===== src/Stellar/Wallet/Trustline.antt =====
-- Who can receive a payment of the bridge: what `CheckAccount` of tfchain_bridge/pkg/stellar/stellar.go
-- has to find out.
use tfchain_tft_bridge.Prelude.{
  ◌≡◌, refl, Bool, true, false, List, [], ◌∷◌, Text, codes, ◌++◌, text_eq_iff, arith, if◌then◌else◌,
}
use tfchain_tft_bridge.Errors.{message, Result, value, error}
use tfchain_tft_bridge.Exec.{is_ok, pure, raise, lift, wrapping, wrapped, continue, ◌>>=◌}
use tfchain_tft_bridge.Config.{StellarConfig}
use tfchain_tft_bridge.Env.{Env}
use tfchain_tft_bridge.Env.Types.{Account, Balance, HorizonClient}
use tfchain_tft_bridge.World.{World, Action, ask}
use tfchain_tft_bridge.Stellar.Network.{get_horizon_client, get_asset_code_and_issuer}
use tfchain_tft_bridge.Stellar.Asset.{tft_code, tft_issuer, asset_is_tft}
use tfchain_tft_bridge.Stellar.Wallet.{
  StellarWallet, has_limit, not_asset, has_trustline, get_account_details, check_account,
}

module _ (E : Env) (config : StellarConfig) where
  -- A balance in the TFT of the network whose limit reads as a positive number.
  pub record IsTrustline (balance : Balance) : Type 0 where
    pub limit : E.Float
    pub is_tft : balance.code ≡ tft_code
    pub is_issued : balance.issuer ≡ tft_issuer config
    pub is_limit : E.parse_float balance.limit ≡ value limit
    pub is_positive : E.is_positive limit ≡ true

  pub data HasTrustline : List Balance → Type 0 where
    here :
        {balance : Balance} {balances : List Balance}
        → IsTrustline balance
        → HasTrustline (balance ∷ balances)
    there :
        {balance : Balance} {balances : List Balance}
        → HasTrustline balances
        → HasTrustline (balance ∷ balances)

  -- Horizon gives the account, and one of its balances is such a trustline.
  pub record CanReceive (address : Text) (s : World E) : Type 0 where
    pub client : HorizonClient
    pub account : Account
    pub is_client : get_horizon_client config ≡ value client
    pub is_account : (E.account_detail client address s.outside).0 ≡ value account
    pub has_trustline : HasTrustline account.balances

  is_tft_asset :
      (balance : Balance)
      → not_asset (tft_code ∷ tft_issuer config ∷ []) balance ≡ false
      → (balance.code ≡ tft_code) × (balance.issuer ≡ tft_issuer config)
  unfolding not_asset
  is_tft_asset balance h =
      ground (
        arith,
        h,
        text_eq_iff balance.code tft_code,
        text_eq_iff balance.issuer (tft_issuer config),
      )

  tft_asset_passes :
      (balance : Balance)
      → balance.code ≡ tft_code
      → balance.issuer ≡ tft_issuer config
      → not_asset (tft_code ∷ tft_issuer config ∷ []) balance ≡ false
  unfolding not_asset
  tft_asset_passes balance code issuer =
      ground
        (arith, text_eq_iff balance.code tft_code, text_eq_iff balance.issuer (tft_issuer config))

  limit_of :
      (balance : Balance)
      → has_limit E balance ≡ true
      → (limit : E.Float) × (E.parse_float balance.limit ≡ value limit)
        × (E.is_positive limit ≡ true)
  unfolding has_limit
  limit_of balance h = go (E.parse_float balance.limit) refl h
    where
      go :
          (r : Result E.Float)
          → E.parse_float balance.limit ≡ r
          → elim r [ error e ↦ false | value limit ↦ E.is_positive limit ] ≡ true
          → (limit : E.Float) × (E.parse_float balance.limit ≡ value limit)
            × (E.is_positive limit ≡ true)
      go (value limit) e h = (limit, e, h)
      go (error x) e h = absurd (ground (arith, h))

  has_limit-IsTrustline : (balance : Balance) → IsTrustline balance → has_limit E balance ≡ true
  unfolding has_limit
  has_limit-IsTrustline balance t = rw (t.is_limit, has_limit) t.is_positive

  has_trustline-HasTrustline :
      (balances : List Balance)
      → has_trustline E (tft_code ∷ tft_issuer config ∷ []) balances ≡ true
      → HasTrustline balances
  unfolding has_trustline
  has_trustline-HasTrustline [] h = absurd (ground (arith, h))
  has_trustline-HasTrustline (balance ∷ balances) h =
      go (not_asset (tft_code ∷ tft_issuer config ∷ []) balance) (has_limit E balance) refl refl h
        (has_trustline-HasTrustline balances)
    where
      go :
          (other limited : Bool)
          → not_asset (tft_code ∷ tft_issuer config ∷ []) balance ≡ other
          → has_limit E balance ≡ limited
          → (if other
              then has_trustline E (tft_code ∷ tft_issuer config ∷ []) balances
              else if limited
              then true
              else has_trustline E (tft_code ∷ tft_issuer config ∷ []) balances)
            ≡ true
          → (has_trustline E (tft_code ∷ tft_issuer config ∷ []) balances ≡ true
              → HasTrustline balances)
          → HasTrustline (balance ∷ balances)
      go true limited a l h rest = there (rest h)
      go false false a l h rest = there (rest h)
      go false true a l h rest =
          let (limit, is_limit, is_positive) = limit_of balance l in
          let (code, issuer) = is_tft_asset balance a in
          here (record {
            limit = limit;
            is_tft = code;
            is_issued = issuer;
            is_limit = is_limit;
            is_positive = is_positive;
          })

  trustline_found :
      {balances : List Balance}
      → HasTrustline balances
      → has_trustline E (tft_code ∷ tft_issuer config ∷ []) balances ≡ true
  unfolding has_trustline
  trustline_found (here {balance} {balances} t) =
      rw (tft_asset_passes balance t.is_tft t.is_issued, has_limit-IsTrustline balance t) refl
  trustline_found (there {balance} {balances} h) = ground (arith, trustline_found h)

module _ {E : Env} (w : StellarWallet E) where
  abbrev check_balances : Account → Action E Unit
  check_balances account =
      if has_trustline E (get_asset_code_and_issuer w.config) account.balances
      then pure tt
      else raise (message (codes "addess has no trustline"))

  balances_checked :
      (address : Text) (s : World E) (client : HorizonClient)
      → get_horizon_client w.config ≡ value client
      → (r : Result Account) (t : World E) → (E.account_detail client address s.outside).0 ≡ r
      → (text : Text)
      → is_ok (continue (wrapped text (lift r t).0) check_balances (lift r t).1).0 ≡ true
      → CanReceive E w.config address s
  unfolding lift pure raise
  balances_checked address s client c (error e) t a text h = absurd (ground (arith, h))
  balances_checked address s client c (value account) t a text h =
      go (has_trustline E (get_asset_code_and_issuer w.config) account.balances) refl h
    where
      go :
          (found : Bool)
          → has_trustline E (get_asset_code_and_issuer w.config) account.balances ≡ found
          → is_ok
              ((if found
                  then pure {S = World E} tt
                  else raise (message (codes "addess has no trustline")))
                t).0
            ≡ true
          → CanReceive E w.config address s
      go false f h = absurd (ground (arith, h))
      go true f h =
          let asset = asset_is_tft w.config in
          record {
            client = client;
            account = account;
            is_client = c;
            is_account = a;
            has_trustline = has_trustline-HasTrustline E w.config account.balances (rw (← asset) f);
          }

  pub can_receive :
      (address : Text) (s : World E)
      → is_ok (check_account w address s).0 ≡ true
      → CanReceive E w.config address s
  unfolding check_account get_account_details ask ◌>>=◌
  can_receive address s h = go (get_horizon_client w.config) refl h
    where
      go :
          (c : Result HorizonClient)
          → get_horizon_client w.config ≡ c
          → is_ok
              ((lift c
                  >>= (λ client.
                      wrapping
                        (codes "failed to get account details for account: " ++ address)
                        (ask (E.account_detail client address)))
                  >>= check_balances)
                s).0
            ≡ true
          → CanReceive E w.config address s
      go (error e) c h = absurd (ground (arith, h))
      go (value client) c h =
          balances_checked address s client c (E.account_detail client address s.outside).0 _ refl _
            h

  pub check_account_passes :
      (address : Text) (s : World E)
      → CanReceive E w.config address s
      → is_ok (check_account w address s).0 ≡ true
  unfolding check_account get_account_details ask ◌>>=◌
  check_account_passes address s h =
      let f = trustline_found E w.config h.has_trustline in
      rw (h.is_client, h.is_account, asset_is_tft w.config, f) refl
