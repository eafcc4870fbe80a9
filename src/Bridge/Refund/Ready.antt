-- ===== src/Bridge/Refund/Ready.antt =====
-- Paying a refund: `handleRefundReady` of tfchain_bridge/pkg/bridge/refund.go.
use tfchain_tft_bridge.Prelude.{
  ℕ, ℤ, to_int64, ◌≡◌, refl, Bool, true, false, if◌then◌else◌, Text, ◌∷◌,
}
use tfchain_tft_bridge.Errors.{Error, sentinel, transaction_already_refunded, value, error}
use tfchain_tft_bridge.Exec.{Outcome, is_ok, raise}
use tfchain_tft_bridge.Exec.Rules.{Post, raise_post}
use tfchain_tft_bridge.Env.{Env}
use tfchain_tft_bridge.Env.Types.{Context, RefundTransaction}
use tfchain_tft_bridge.World.{World, unanswered, is_refunded, set_refund_executed}
use tfchain_tft_bridge.World.Rules.{logged, question_post, ask_post}
use tfchain_tft_bridge.Substrate.Client.{retry_set_refund_transaction_executed_tx}
use tfchain_tft_bridge.Substrate.Client.Settled.{retry_set_refund_transaction_executed_tx-Retried}
use tfchain_tft_bridge.Substrate.Events.{RefundTransactionReadyEvent}
use tfchain_tft_bridge.Stellar.Wallet.{create_refund_payment_with_signatures_and_submit}
use tfchain_tft_bridge.Stellar.Wallet.Generation.{number_for}
use tfchain_tft_bridge.Stellar.Wallet.Payments.{
  IsSignedRefund, create_refund_payment_with_signatures_and_submit-Submits,
}
use tfchain_tft_bridge.Bridge.State.{Bridge}
use tfchain_tft_bridge.Bridge.Paid.{Pays, pays_post}
use tfchain_tft_bridge.Bridge.Refund.{pay_refund, handle_refund_ready}

module _ {E : Env} (fuel : ℕ) (b : Bridge E) (ctx : Context) where
  -- The payment of the refund that the chain stores, with the signatures that it stores.
  abbrev pub IsRefundPayment : ℤ → RefundTransaction → E.Tx → Type 0
  IsRefundPayment current refund =
      IsSignedRefund b.wallet refund.target refund.amount
        (number_for (to_int64 refund.sequence_number) current) refund.tx_hash refund.signatures

  -- Nothing but the question `is_refunded` was left, for one of three reasons; or the answer was no,
  -- the chain gave a refund transaction, and the rest pays it.
  pub data HandlesReady (hash : Text) (s : World E) (o : Outcome Unit) (t : World E) : Type 0 where
    refunded :
        is_ok o ≡ false → t.trace ≡ (is_refunded hash, true) ∷ s.trace → HandlesReady hash s o t
    no_answer :
        is_ok o ≡ false
        → t.trace ≡ (unanswered (is_refunded hash), false) ∷ s.trace
        → HandlesReady hash s o t
    not_found :
        (e : Error)
        → (E.get_refund_transaction hash (E.is_refunded_already hash s.outside).1).0 ≡ error e
        → is_ok o ≡ false
        → t.trace ≡ (is_refunded hash, false) ∷ s.trace
        → HandlesReady hash s o t
    found :
        (refund : RefundTransaction)
        → (E.get_refund_transaction hash (E.is_refunded_already hash s.outside).1).0 ≡ value refund
        → Pays
            (set_refund_executed refund.tx_hash)
            (is_refunded refund.tx_hash)
            (IsRefundPayment s.sequence_number refund)
            ((is_refunded hash, false) ∷ s.trace)
            o
            t.trace
        → HandlesReady hash s o t

  -- What `handleRefundReady` leaves in the trace behind the question whether the deposit is
  -- refunded. If the answer is yes, or there is none, or the chain does not give the refund
  -- transaction, nothing more, and it fails. Otherwise one transaction at most is submitted: the
  -- payment of the amount that the chain stores to the target that it stores, with the decoded
  -- stored hash as its memo and as many of the first stored signatures as the account requires. If
  -- that submission fails, so does the handler. Only if it succeeds, the retried call that sets the
  -- refund executed follows.
  pub handle_refund_ready-HandlesReady :
      (event : RefundTransactionReadyEvent) (s : World E)
      → Post (handle_refund_ready fuel b ctx event) s (HandlesReady event.hash s)
  unfolding handle_refund_ready pay_refund
  handle_refund_ready-HandlesReady event s =
      let Q = HandlesReady event.hash s in
      question_post Q (is_refunded event.hash) (E.is_refunded_already event.hash) _ s
        (λ refunded _. go refunded) (λ e. no_answer refl refl)
    where
      go :
          (refunded : Bool)
          → Post
              (if refunded
                then raise (sentinel transaction_already_refunded)
                else pay_refund fuel b ctx event.hash)
              (logged {E = E}
                (is_refunded event.hash)
                refunded
                (E.is_refunded_already event.hash s.outside).1
                s)
              (HandlesReady event.hash s)
      go true = raise_post (HandlesReady event.hash s) _ _ (HandlesReady.refunded refl refl)
      go false =
          ask_post (HandlesReady event.hash s) (E.get_refund_transaction event.hash) _ _
            (λ refund given. found refund given (
              pays_post E (set_refund_executed refund.tx_hash) (is_refunded refund.tx_hash)
                (IsRefundPayment s.sequence_number refund)
                ((is_refunded event.hash, false) ∷ s.trace)
                (create_refund_payment_with_signatures_and_submit b.wallet refund.target
                  refund.amount refund.tx_hash refund.signatures (to_int64 refund.sequence_number))
                (retry_set_refund_transaction_executed_tx fuel b.sub_client ctx refund.tx_hash)
                (retry_set_refund_transaction_executed_tx-Retried fuel b.sub_client ctx
                  refund.tx_hash)
                _
                (create_refund_payment_with_signatures_and_submit-Submits b.wallet refund.target
                  refund.amount refund.tx_hash refund.signatures (to_int64 refund.sequence_number)
                  _)))
            (λ e given. not_found e given refl refl)
