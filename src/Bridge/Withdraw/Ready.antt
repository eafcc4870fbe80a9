-- ===== src/Bridge/Withdraw/Ready.antt =====
-- Paying a withdrawal: `handleWithdrawReady` of tfchain_bridge/pkg/bridge/withdraw.go.
use tfchain_tft_bridge.Prelude.{
  ℕ, ℤ, to_int64, ◌≡◌, ◌≢◌, refl, Bool, true, false, if◌then◌else◌, List, [], ◌∷◌,
}
use tfchain_tft_bridge.Errors.{Error, sentinel, transaction_already_burned, value, error}
use tfchain_tft_bridge.Exec.{Outcome, is_ok, raise, ◌>>=◌}
use tfchain_tft_bridge.Exec.Rules.{Post, raise_post}
use tfchain_tft_bridge.Env.{Env}
use tfchain_tft_bridge.Env.Types.{Context, BurnTransaction, StellarSignature, no_memo}
use tfchain_tft_bridge.World.{World, ask, unanswered, is_burned, set_burn_executed}
use tfchain_tft_bridge.World.Rules.{logged, question_post, ask_post}
use tfchain_tft_bridge.Substrate.Client.{retry_set_withdraw_executed}
use tfchain_tft_bridge.Substrate.Client.Settled.{retry_set_withdraw_executed-Retried}
use tfchain_tft_bridge.Substrate.Events.{WithdrawReadyEvent}
use tfchain_tft_bridge.Stellar.Wallet.{create_payment_with_signatures_and_submit}
use tfchain_tft_bridge.Stellar.Wallet.Generation.{number_for}
use tfchain_tft_bridge.Stellar.Wallet.Submission.{Submits-map}
use tfchain_tft_bridge.Bridge.Paid.{Pays, not_paid, pays_post}
use tfchain_tft_bridge.Stellar.Wallet.Payments.{
  IsSignedPayment, create_payment_with_signatures_and_submit-Submits,
}
use tfchain_tft_bridge.Bridge.State.{Bridge}
use tfchain_tft_bridge.Bridge.Withdraw.{pay_withdraw, handle_withdraw_ready}

module _ {E : Env} (fuel : ℕ) (b : Bridge E) (ctx : Context) where
  -- What may be paid: the burn transaction that the chain stores, with its signatures.
  abbrev pub IsBurnPayment : ℤ → BurnTransaction → List StellarSignature → E.Tx → Type 0
  IsBurnPayment current burn_tx signatures tx =
      (signatures ≢ [])
      × IsSignedPayment b.wallet burn_tx.target burn_tx.amount
          (number_for (to_int64 burn_tx.sequence_number) current) no_memo signatures tx

  pay_withdraw-Pays :
      (id : ℕ) (burn_tx : BurnTransaction) (signatures : List StellarSignature) (s : World E)
      → Post (pay_withdraw fuel b ctx id burn_tx signatures) s (λ o t.
        Pays
          (set_burn_executed id)
          (is_burned id)
          (IsBurnPayment s.sequence_number burn_tx signatures)
          s.trace
          o
          t.trace)
  unfolding pay_withdraw
  pay_withdraw-Pays id burn_tx [] s = unfold raise in not_paid refl refl
  pay_withdraw-Pays id burn_tx (sig ∷ sigs) s =
      pays_post E (set_burn_executed id) (is_burned id)
        (IsBurnPayment s.sequence_number burn_tx (sig ∷ sigs)) s.trace
        (create_payment_with_signatures_and_submit b.wallet burn_tx.target burn_tx.amount
          (sig ∷ sigs) (to_int64 burn_tx.sequence_number))
        (retry_set_withdraw_executed fuel b.sub_client ctx id)
        (retry_set_withdraw_executed-Retried fuel b.sub_client ctx id) s
        (Submits-map (λ tx p. (cc, p))
          (create_payment_with_signatures_and_submit-Submits b.wallet burn_tx.target burn_tx.amount
            (sig ∷ sigs) (to_int64 burn_tx.sequence_number) s))

  -- Nothing but the question `is_burned` was left, for one of three reasons; or the answer was no, the
  -- chain gave a burn transaction, and the rest pays it.
  pub data HandlesReady (id : ℕ) (s : World E) (o : Outcome Unit) (t : World E) : Type 0 where
    burned : is_ok o ≡ false → t.trace ≡ (is_burned id, true) ∷ s.trace → HandlesReady id s o t
    no_answer :
        is_ok o ≡ false
        → t.trace ≡ (unanswered (is_burned id), false) ∷ s.trace
        → HandlesReady id s o t
    not_found :
        (e : Error)
        → (E.get_burn_transaction id (E.is_burned_already id s.outside).1).0 ≡ error e
        → is_ok o ≡ false
        → t.trace ≡ (is_burned id, false) ∷ s.trace
        → HandlesReady id s o t
    found :
        (burn_tx : BurnTransaction)
        → (E.get_burn_transaction id (E.is_burned_already id s.outside).1).0 ≡ value burn_tx
        → Pays
            (set_burn_executed id)
            (is_burned id)
            (IsBurnPayment s.sequence_number burn_tx burn_tx.signatures)
            ((is_burned id, false) ∷ s.trace)
            o
            t.trace
        → HandlesReady id s o t

  -- What `handleWithdrawReady` leaves in the trace behind the question whether the withdrawal is
  -- burned. If the answer is yes, or there is none, or the chain does not give the burn transaction,
  -- nothing more, and it fails. Otherwise one transaction at most is submitted: the payment of the
  -- amount that the chain stores to the target that it stores, with at least one stored signature
  -- and as many of the first ones as the account requires. If that submission fails, so does the
  -- handler. Only if it succeeds, the retried call that sets the withdrawal executed follows.
  pub handle_withdraw_ready-HandlesReady :
      (event : WithdrawReadyEvent) (s : World E)
      → Post (handle_withdraw_ready fuel b ctx event) s (HandlesReady event.id s)
  unfolding handle_withdraw_ready
  handle_withdraw_ready-HandlesReady event s =
      let Q = HandlesReady event.id s in
      question_post Q (is_burned event.id) (E.is_burned_already event.id) _ s
        (λ burned _. go burned) (λ e. no_answer refl refl)
    where
      go :
          (burned : Bool)
          → Post
              (if burned then raise (sentinel transaction_already_burned) else do
                burn_tx ← ask (E.get_burn_transaction event.id)
                pay_withdraw fuel b ctx event.id burn_tx burn_tx.signatures)
              (logged {E = E}
                (is_burned event.id)
                burned
                (E.is_burned_already event.id s.outside).1
                s)
              (HandlesReady event.id s)
      go true = raise_post (HandlesReady event.id s) _ _ (HandlesReady.burned refl refl)
      go false =
          ask_post (HandlesReady event.id s) (E.get_burn_transaction event.id) _ _
            (λ burn_tx given.
              found burn_tx given (pay_withdraw-Pays event.id burn_tx burn_tx.signatures _))
            (λ e given. not_found e given refl refl)
