-- ===== src/Pallet.antt =====
-- pallet-tft-bridge: the other end of the bridge, in the runtime of TFChain.
pub mod Keyed
pub mod Types
pub mod Dispatch
pub mod Validators
pub mod Mint
pub mod Burn
pub mod Signatures
pub mod Refund
pub mod Calls
pub mod Blocks
pub mod Invariant
pub mod Votes
pub mod Totals
pub mod Supply
pub mod Backed
pub mod Lasting
pub mod Refused
pub mod Stuck
pub mod BurnEffects
pub mod RefundEffects
pub mod MintEffects
pub mod Expiry
pub mod Sorted
pub mod ValidatorSet
pub mod BurnInvariant
pub mod RefundInvariant
pub mod Client
