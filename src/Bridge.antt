-- ===== src/Bridge.antt =====
-- tfchain_bridge/pkg/bridge: the handlers of the daemon and its main loop.
pub mod State
pub mod Paid
pub mod Memo
pub mod Withdraw
pub mod Refund
pub mod Mint
pub mod Start
