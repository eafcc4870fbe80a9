-- ===== src/Bridge/Refund.antt =====
-- tfchain_bridge/pkg/bridge/refund.go: refunds of deposits on Stellar.
pub mod Expired
pub mod Ready
use tfchain_tft_bridge.Prelude.{ℕ, ℤ, to_int64, to_uint64, Text, if◌then◌else◌}
use tfchain_tft_bridge.Errors.{sentinel, transaction_already_refunded}
use tfchain_tft_bridge.Exec.{pure, raise, ◌>>=◌, ◌>>◌}
use tfchain_tft_bridge.Env.{Env}
use tfchain_tft_bridge.Env.Types.{Context, Transaction}
use tfchain_tft_bridge.World.{Action, ask}
use tfchain_tft_bridge.World.Calls
use tfchain_tft_bridge.Persistency.{save_stellar_cursor}
use tfchain_tft_bridge.Substrate.Client.{
  retry_create_refund_transaction_or_add_sig, retry_set_refund_transaction_executed_tx,
}
use tfchain_tft_bridge.Substrate.Events.{RefundTransactionExpiredEvent, RefundTransactionReadyEvent}
use tfchain_tft_bridge.Stellar.Wallet.{
  create_refund_and_return_signature, create_refund_payment_with_signatures_and_submit,
}
use tfchain_tft_bridge.Bridge.State.{Bridge}

module _ {E : Env} (fuel : ℕ) (b : Bridge E) (ctx : Context) where
  unfoldable pub sign_refund : RefundTransactionExpiredEvent → Action E Unit
  sign_refund event = do
    signed ← create_refund_and_return_signature b.wallet event.target event.amount event.hash
    retry_create_refund_transaction_or_add_sig fuel b.sub_client ctx event.hash event.target
        (to_int64 event.amount) signed.0 (E.address b.wallet.keypair) signed.1

  unfoldable pub handle_refund_expired : RefundTransactionExpiredEvent → Action E Unit
  handle_refund_expired event = do
    refunded ← Calls.is_refunded_already E event.hash
    if refunded then pure tt else sign_refund event

  unfoldable pub pay_refund : Text → Action E Unit
  pay_refund hash = do
    refund ← ask (E.get_refund_transaction hash)
    create_refund_payment_with_signatures_and_submit b.wallet refund.target refund.amount
        refund.tx_hash refund.signatures (to_int64 refund.sequence_number)
    retry_set_refund_transaction_executed_tx fuel b.sub_client ctx refund.tx_hash

  unfoldable pub handle_refund_ready : RefundTransactionReadyEvent → Action E Unit
  handle_refund_ready event = do
    refunded ← Calls.is_refunded_already E event.hash
    if refunded then raise (sentinel transaction_already_refunded) else pay_refund event.hash

  -- The handler of `mint` for what cannot be minted: the cursor is saved once the refund is proposed.
  unfoldable pub refund : Text → ℤ → Transaction → Action E Unit
  refund destination amount tx = do
    handle_refund_expired
        (record { hash = tx.hash; target = destination; amount = to_uint64 amount })
    save_stellar_cursor b.block_persistency tx.paging_token
