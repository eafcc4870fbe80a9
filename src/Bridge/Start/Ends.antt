-- ===== src/Bridge/Start/Ends.antt =====
-- The loops of tfchain_bridge/pkg/bridge/bridge.go over the events of a block end.
use tfchain_tft_bridge.Prelude.{ℕ, ◌<◌, Bool, List, [], ◌∷◌, Text}
use tfchain_tft_bridge.Errors.{Error, Result, value, error}
use tfchain_tft_bridge.Env.{Env}
use tfchain_tft_bridge.Env.Types.{StellarSignature, BurnTransaction, running}
use tfchain_tft_bridge.World.{World, Action}
use tfchain_tft_bridge.World.Timely.{
  Deadline, Ended, IsSteady, IsTimely, timely_rules, IsTimely-pure, IsTimely-raise, IsTimely-if,
  IsTimely-try, IsTimely-bind,
}
use tfchain_tft_bridge.Substrate.Client.Ends.{
  is_burned_already-IsTimely, is_refunded_already-IsTimely, check_minted-IsTimely,
  retry_set_withdraw_executed-IsTimely, retry_propose_withdraw_or_add_sig-IsTimely,
  retry_create_refund_transaction_or_add_sig-IsTimely,
  retry_set_refund_transaction_executed_tx-IsTimely, retry_propose_mint_or_vote-IsTimely,
}
use tfchain_tft_bridge.Substrate.Events.{
  Events, WithdrawCreatedEvent, WithdrawReadyEvent, WithdrawExpiredEvent,
  RefundTransactionReadyEvent, RefundTransactionExpiredEvent,
}
use tfchain_tft_bridge.Stellar.Wallet.Ends.{
  check_account-IsTimely, create_payment_and_return_signature-IsTimely,
  create_refund_and_return_signature-IsTimely, create_payment_with_signatures_and_submit-IsTimely,
  create_refund_payment_with_signatures_and_submit-IsTimely,
}
use tfchain_tft_bridge.Bridge.State.{Bridge}
use tfchain_tft_bridge.Bridge.Withdraw.{
  sign_withdraw, handle_bad_withdraw, created_on_account, handle_withdraw_created,
  expired_on_account, handle_withdraw_expired, pay_withdraw, handle_withdraw_ready,
}
use tfchain_tft_bridge.Bridge.Refund.{
  sign_refund, handle_refund_expired, pay_refund, handle_refund_ready,
}
use tfchain_tft_bridge.Bridge.Start.{after_handler, each, on_events}

module _ {E : Env} (d : Deadline E) (steady : IsSteady d) (fuel : ℕ) (b : Bridge E) where
  sign_withdraw-IsTimely :
      (id : ℕ) (target : Text) (amount : ℕ)
      → IsTimely d fuel (sign_withdraw fuel b running id target amount)
  unfolding sign_withdraw
  sign_withdraw-IsTimely id target amount = search (
    timely_rules, create_payment_and_return_signature-IsTimely,
    retry_propose_withdraw_or_add_sig-IsTimely,
  )

  handle_bad_withdraw-IsTimely :
      (event : WithdrawCreatedEvent) → IsTimely d fuel (handle_bad_withdraw fuel b running event)
  unfolding handle_bad_withdraw
  handle_bad_withdraw-IsTimely event = search (
    timely_rules, check_minted-IsTimely, retry_propose_mint_or_vote-IsTimely,
    retry_set_withdraw_executed-IsTimely,
  )

  created_on_account-IsTimely :
      (event : WithdrawCreatedEvent) (r : Result Unit)
      → IsTimely d fuel (created_on_account fuel b running event r)
  unfolding created_on_account
  created_on_account-IsTimely event (value _) = sign_withdraw-IsTimely _ _ _
  created_on_account-IsTimely event (error _) = handle_bad_withdraw-IsTimely event

  handle_withdraw_created-IsTimely :
      (event : WithdrawCreatedEvent)
      → IsTimely d fuel (handle_withdraw_created fuel b running event)
  unfolding handle_withdraw_created
  handle_withdraw_created-IsTimely event = search (
    timely_rules, is_burned_already-IsTimely, check_account-IsTimely, created_on_account-IsTimely,
  )

  expired_on_account-IsTimely :
      (event : WithdrawExpiredEvent) (r : Result Unit)
      → IsTimely d fuel (expired_on_account fuel b running event r)
  unfolding expired_on_account
  expired_on_account-IsTimely event (value _) = sign_withdraw-IsTimely _ _ _
  expired_on_account-IsTimely event (error _) =
      retry_set_withdraw_executed-IsTimely d steady fuel b.sub_client event.id

  handle_withdraw_expired-IsTimely :
      (event : WithdrawExpiredEvent)
      → IsTimely d fuel (handle_withdraw_expired fuel b running event)
  unfolding handle_withdraw_expired
  handle_withdraw_expired-IsTimely event =
      search (timely_rules, check_account-IsTimely, expired_on_account-IsTimely)

  pay_withdraw-IsTimely :
      (id : ℕ) (burn_tx : BurnTransaction) (signatures : List StellarSignature)
      → IsTimely d fuel (pay_withdraw fuel b running id burn_tx signatures)
  unfolding pay_withdraw
  pay_withdraw-IsTimely id burn_tx [] = IsTimely-raise d fuel _
  pay_withdraw-IsTimely id burn_tx (sig ∷ sigs) = search (
    timely_rules, create_payment_with_signatures_and_submit-IsTimely,
    retry_set_withdraw_executed-IsTimely,
  )

  handle_withdraw_ready-IsTimely :
      (event : WithdrawReadyEvent) → IsTimely d fuel (handle_withdraw_ready fuel b running event)
  unfolding handle_withdraw_ready
  handle_withdraw_ready-IsTimely event =
      search (
        timely_rules, is_burned_already-IsTimely, steady.get_burn_transaction,
        pay_withdraw-IsTimely,
      )

  sign_refund-IsTimely :
      (event : RefundTransactionExpiredEvent) → IsTimely d fuel (sign_refund fuel b running event)
  unfolding sign_refund
  sign_refund-IsTimely event = search (
    timely_rules, create_refund_and_return_signature-IsTimely,
    retry_create_refund_transaction_or_add_sig-IsTimely,
  )

  handle_refund_expired-IsTimely :
      (event : RefundTransactionExpiredEvent)
      → IsTimely d fuel (handle_refund_expired fuel b running event)
  unfolding handle_refund_expired
  handle_refund_expired-IsTimely event =
      search (timely_rules, is_refunded_already-IsTimely, sign_refund-IsTimely)

  pay_refund-IsTimely : (hash : Text) → IsTimely d fuel (pay_refund fuel b running hash)
  unfolding pay_refund
  pay_refund-IsTimely hash =
      search
        (
          timely_rules, steady.get_refund_transaction,
          create_refund_payment_with_signatures_and_submit-IsTimely,
          retry_set_refund_transaction_executed_tx-IsTimely,
        )
        depth 12

  handle_refund_ready-IsTimely :
      (event : RefundTransactionReadyEvent)
      → IsTimely d fuel (handle_refund_ready fuel b running event)
  unfolding handle_refund_ready
  handle_refund_ready-IsTimely event =
      search (timely_rules, is_refunded_already-IsTimely, pay_refund-IsTimely)

  after_handler-IsTimely :
      (skips : Error → Bool) (text : Text) (rest : Action E Unit) (r : Result Unit)
      → IsTimely d fuel rest
      → IsTimely d fuel (after_handler skips text rest r)
  unfolding after_handler
  after_handler-IsTimely skips text rest (value _) t = t
  after_handler-IsTimely skips text rest (error e) t =
      IsTimely-if d fuel (skips e) _ _ t (IsTimely-raise d fuel _)

  each-IsTimely :
      {A : Type 0} (skips : Error → Bool) (text : Text) (handle : A → Action E Unit) (l : List A)
      → ((a : A) → IsTimely d fuel (handle a))
      → IsTimely d fuel (each skips text handle l)
  unfolding each
  each-IsTimely skips text handle [] t = IsTimely-pure d fuel tt
  each-IsTimely skips text handle (a ∷ more) t =
      IsTimely-bind d fuel _ _ (IsTimely-try d fuel (handle a) (t a))
        (λ r. after_handler-IsTimely skips text _ r (each-IsTimely skips text handle more t))

  on_events-IsTimely : (events : Events) → IsTimely d fuel (on_events fuel b events)
  unfolding on_events
  on_events-IsTimely events =
      search
        (
          timely_rules, each-IsTimely, handle_withdraw_created-IsTimely,
          handle_withdraw_expired-IsTimely, handle_withdraw_ready-IsTimely,
          handle_refund_expired-IsTimely, handle_refund_ready-IsTimely,
        )
        depth 14

  -- If no call of the handlers puts the end of the context off, and each wait ends it or brings it
  -- nearer, then the five loops over the events of a block end, in a return or a panic, with fuel for
  -- the rounds of waiting that are left: no event keeps the main loop for ever, whatever the chain and
  -- Stellar answer.
  pub on_events-Ended :
      (events : Events) (w : World E)
      → d.left w.outside < fuel
      → Ended (on_events fuel b events w).0
  on_events-Ended events w h = ((on_events-IsTimely events).at w h).0
