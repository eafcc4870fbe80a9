-- ===== src/Substrate.antt =====
-- tfchain_bridge/pkg/substrate: the client with its retry loops, and the events of a block.
pub mod Client
pub mod Events
pub mod Subscription
