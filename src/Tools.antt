-- ===== src/Tools.antt =====
-- tfchain_bridge/tools: the generator of keys, and the event parser.
pub mod Keygen
pub mod EventParser
