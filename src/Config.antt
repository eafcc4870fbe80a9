-- ===== src/Config.antt =====
-- tfchain_bridge/pkg/config.go: the configuration of a daemon.
use tfchain_tft_bridge.Prelude.{Bool, Text}

pub record StellarConfig : Type 0 where
  pub stellar_bridge_account : Text
  pub stellar_network : Text
  pub stellar_seed : Text
  pub stellar_horizon_url : Text

pub record BridgeConfig : Type 0 where
  pub tfchain_url : Text
  pub tfchain_seed : Text
  pub rescan_bridge_account : Bool
  pub persistency_file : Text
  pub stellar_config : StellarConfig
