-- ===== src/Bridge/Withdraw.antt =====
-- tfchain_bridge/pkg/bridge/withdraw.go: withdrawals from TFChain to Stellar.
pub mod Ready
pub mod Proposal
pub mod GivenBack
pub mod Created
pub mod MintId
pub mod Once
use tfchain_tft_bridge.Prelude.{ℕ, to_int64, List, [], ◌∷◌, ◌++◌, Text, codes, if◌then◌else◌}
use tfchain_tft_bridge.Errors.{
  sentinel, transaction_already_burned, transaction_already_minted, no_signatures, Result, value,
  error,
}
use tfchain_tft_bridge.Exec.{pure, raise, try, ◌>>=◌, ◌>>◌}
use tfchain_tft_bridge.Env.{Env}
use tfchain_tft_bridge.Env.Types.{Context, StellarSignature, BurnTransaction}
use tfchain_tft_bridge.World.{Action, ask}
use tfchain_tft_bridge.World.Calls
use tfchain_tft_bridge.Go.Strconv.{format}
use tfchain_tft_bridge.Substrate.Client.{
  check_minted, retry_set_withdraw_executed, retry_propose_withdraw_or_add_sig,
  retry_propose_mint_or_vote,
}
use tfchain_tft_bridge.Substrate.Events.{
  WithdrawCreatedEvent, WithdrawReadyEvent, WithdrawExpiredEvent,
}
use tfchain_tft_bridge.Stellar.Wallet.{
  check_account, create_payment_and_return_signature, create_payment_with_signatures_and_submit,
}
use tfchain_tft_bridge.Bridge.State.{Bridge}

-- `fmt.Sprintf("refund-%d", withdraw.ID)`: the mint that gives a bad withdrawal back.
unfoldable pub mint_id : ℕ → Text
mint_id id = codes "refund-" ++ format id

module _ {E : Env} (fuel : ℕ) (b : Bridge E) (ctx : Context) where
  -- The end of the handlers of created and of expired withdrawals.
  unfoldable pub sign_withdraw : ℕ → Text → ℕ → Action E Unit
  sign_withdraw id target amount = do
    signed ← create_payment_and_return_signature b.wallet target amount
    retry_propose_withdraw_or_add_sig fuel b.sub_client ctx id target (to_int64 amount) signed.0
        (E.address b.wallet.keypair) signed.1

  unfoldable pub handle_bad_withdraw : WithdrawCreatedEvent → Action E Unit
  handle_bad_withdraw withdraw = do
    minted ← check_minted (mint_id withdraw.id)
    if minted then raise (sentinel transaction_already_minted) else do
      retry_propose_mint_or_vote fuel b.sub_client ctx (mint_id withdraw.id) withdraw.source
          (to_int64 withdraw.amount)
      retry_set_withdraw_executed fuel b.sub_client ctx withdraw.id

  unfoldable pub created_on_account : WithdrawCreatedEvent → Result Unit → Action E Unit
  created_on_account withdraw (value _) = sign_withdraw withdraw.id withdraw.target withdraw.amount
  created_on_account withdraw (error _) = handle_bad_withdraw withdraw

  unfoldable pub handle_withdraw_created : WithdrawCreatedEvent → Action E Unit
  handle_withdraw_created withdraw = do
    burned ← Calls.is_burned_already E withdraw.id
    if burned then raise (sentinel transaction_already_burned) else do
      checked ← try (check_account b.wallet withdraw.target)
      created_on_account withdraw checked

  unfoldable pub expired_on_account : WithdrawExpiredEvent → Result Unit → Action E Unit
  expired_on_account withdraw (value _) = sign_withdraw withdraw.id withdraw.target withdraw.amount
  expired_on_account withdraw (error _) =
      retry_set_withdraw_executed fuel b.sub_client ctx withdraw.id

  unfoldable pub handle_withdraw_expired : WithdrawExpiredEvent → Action E Unit
  handle_withdraw_expired withdraw = do
    checked ← try (check_account b.wallet withdraw.target)
    expired_on_account withdraw checked

  unfoldable pub pay_withdraw : ℕ → BurnTransaction → List StellarSignature → Action E Unit
  pay_withdraw id burn_tx [] = raise (sentinel no_signatures)
  pay_withdraw id burn_tx (sig ∷ sigs) = do
    create_payment_with_signatures_and_submit b.wallet burn_tx.target burn_tx.amount (sig ∷ sigs)
        (to_int64 burn_tx.sequence_number)
    retry_set_withdraw_executed fuel b.sub_client ctx id

  unfoldable pub handle_withdraw_ready : WithdrawReadyEvent → Action E Unit
  handle_withdraw_ready withdraw = do
    burned ← Calls.is_burned_already E withdraw.id
    if burned then raise (sentinel transaction_already_burned) else do
      burn_tx ← ask (E.get_burn_transaction withdraw.id)
      pay_withdraw withdraw.id burn_tx burn_tx.signatures
