-- ===== src/Stellar.antt =====
-- tfchain_bridge/pkg/stellar/stellar.go: the wallet of the bridge account.
pub mod Network
pub mod Asset
pub mod Wallet
pub mod Deposits
pub mod Stream
