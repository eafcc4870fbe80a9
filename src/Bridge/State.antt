-- ===== src/Bridge/State.antt =====
-- `Bridge` of tfchain_bridge/pkg/bridge/bridge.go, and how it is made.
pub mod Rescan
use tfchain_tft_bridge.Prelude.{ℤ, Bool, true, false, codes}
use tfchain_tft_bridge.Exec.{pure, ◌>>=◌, ◌>>◌}
use tfchain_tft_bridge.Env.{Env}
use tfchain_tft_bridge.World.{Action, ask}
use tfchain_tft_bridge.Config.{BridgeConfig}
use tfchain_tft_bridge.Persistency.{
  ChainPersistency, init_persist, save_stellar_cursor, save_height,
}
use tfchain_tft_bridge.Substrate.Client.{SubstrateClient, new_substrate_client}
use tfchain_tft_bridge.Stellar.Wallet.{StellarWallet, new_stellar_wallet}

pub record Bridge (E : Env) : Type 0 where
  pub wallet : StellarWallet E
  pub sub_client : SubstrateClient E
  pub block_persistency : ChainPersistency
  pub config : BridgeConfig
  pub deposit_fee : ℤ

-- A rescan starts from the cursor "0" and the height 0.
unfoldable pub rescan : {E : Env} → Bool → ChainPersistency → Action E Unit
rescan false p = pure tt
rescan true p = do save_stellar_cursor p (codes "0"); save_height p 0

unfoldable pub new_bridge : {E : Env} → BridgeConfig → Action E (Bridge E)
new_bridge {E} cfg = do
  sub_client ← new_substrate_client cfg.tfchain_url cfg.tfchain_seed
  block_persistency ← init_persist cfg.persistency_file
  wallet ← new_stellar_wallet cfg.stellar_config
  rescan cfg.rescan_bridge_account block_persistency
  deposit_fee ← ask E.get_deposit_fee
  pure (record {
    wallet = wallet;
    sub_client = sub_client;
    block_persistency = block_persistency;
    config = cfg;
    deposit_fee = deposit_fee;
  })
