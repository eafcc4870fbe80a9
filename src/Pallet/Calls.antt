-- ===== src/Pallet/Calls.antt =====
-- The calls of pallet-tft-bridge/src/lib.rs, each with its check of the origin.
use tfchain_tft_bridge.Prelude.{ℕ, some, Bytes}
use tfchain_tft_bridge.Pallet.Types.{Account, Runtime, Origin, root, unsigned, signed, bad_origin}
use tfchain_tft_bridge.Pallet.Dispatch.{Dispatch, pure, fail, modify, ensure, ◌>>=◌, ◌>>◌}
use tfchain_tft_bridge.Pallet.Validators.{add_validator_account, remove_validator_account}
use tfchain_tft_bridge.Pallet.Mint.{propose_or_vote_stellar_mint_transaction}
use tfchain_tft_bridge.Pallet.Burn.{
  burn_tft, propose_stellar_burn_transaction_or_add_sig, set_stellar_burn_transaction_executed,
}
use tfchain_tft_bridge.Pallet.Refund.{
  create_stellar_refund_transaction_or_add_sig, set_stellar_refund_transaction_executed,
}

pub data Call : Type 0 where
  add_bridge_validator : Account → Call
  remove_bridge_validator : Account → Call
  set_fee_account : Account → Call
  set_withdraw_fee : ℕ → Call
  set_deposit_fee : ℕ → Call
  swap_to_stellar : Bytes → ℕ → Call
  propose_or_vote_mint_transaction : Bytes → Account → ℕ → Call
  propose_burn_transaction_or_add_sig : ℕ → Bytes → ℕ → Bytes → Bytes → ℕ → Call
  set_burn_transaction_executed : ℕ → Call
  create_refund_transaction_or_add_sig : Bytes → Bytes → ℕ → Bytes → Bytes → ℕ → Call
  set_refund_transaction_executed : Bytes → Call

module _ {R : Runtime} where
  -- `ensure_signed`
  abbrev pub ensure_signed : Origin → Dispatch R Account
  ensure_signed root = fail bad_origin
  ensure_signed unsigned = fail bad_origin
  ensure_signed (signed account) = pure account

  -- `T::RestrictedOrigin::ensure_origin`
  abbrev pub ensure_origin : Origin → Dispatch R Unit
  ensure_origin origin = ensure (R.is_restricted origin) bad_origin

  unfoldable pub dispatch : Origin → Call → Dispatch R Unit
  dispatch origin (add_bridge_validator target) = do
    ensure_origin origin
    add_validator_account target
  dispatch origin (remove_bridge_validator target) = do
    ensure_origin origin
    remove_validator_account target
  dispatch origin (set_fee_account target) = do
    ensure_origin origin
    modify (λ s. record s { fee_account = some target })
  dispatch origin (set_withdraw_fee amount) = do
    ensure_origin origin
    modify (λ s. record s { withdraw_fee = amount })
  dispatch origin (set_deposit_fee amount) = do
    ensure_origin origin
    modify (λ s. record s { deposit_fee = amount })
  dispatch origin (swap_to_stellar target_stellar_address amount) = do
    source ← ensure_signed origin
    burn_tft source target_stellar_address amount
  dispatch origin (propose_or_vote_mint_transaction transaction target amount) = do
    validator ← ensure_signed origin
    propose_or_vote_stellar_mint_transaction validator transaction target amount
  dispatch origin (propose_burn_transaction_or_add_sig id target amount signature key number) = do
    validator ← ensure_signed origin
    propose_stellar_burn_transaction_or_add_sig validator id target amount signature key number
  dispatch origin (set_burn_transaction_executed id) = do
    validator ← ensure_signed origin
    set_stellar_burn_transaction_executed validator id
  dispatch origin (create_refund_transaction_or_add_sig hash target amount signature key number) =
      do
        validator ← ensure_signed origin
        create_stellar_refund_transaction_or_add_sig validator hash target amount signature key
            number
  dispatch origin (set_refund_transaction_executed hash) = do
    validator ← ensure_signed origin
    set_stellar_refund_transaction_executed validator hash
