-- ===== src/Bridge/Withdraw/Once.antt =====
-- The withdrawals of tfchain_bridge/pkg/bridge/withdraw.go on a chain that keeps what is executed.
use tfchain_tft_bridge.Prelude.{
  ℕ, ◌≡◌, ◌≢◌, refl, sym, subst, to_int64, if◌then◌else◌, ◌⊎◌, inl, inr, Bool, true, false, List,
  [], ◌∷◌,
}
use tfchain_tft_bridge.Errors.{value, sentinel, transaction_already_burned, succeeded}
use tfchain_tft_bridge.Exec.{ok, is_ok, raise, ◌>>=◌}
use tfchain_tft_bridge.Exec.Rules.{Post, bind_post}
use tfchain_tft_bridge.Env.{Env}
use tfchain_tft_bridge.Env.Types.{Context, BurnTransaction, StellarSignature}
use tfchain_tft_bridge.World.{World, Trace, told, unanswered, ask, is_burned, set_burn_executed}
use tfchain_tft_bridge.World.Rules.{logged, question_post, ask_post}
use tfchain_tft_bridge.Substrate.Client.{retry_set_withdraw_executed, error_of_check}
use tfchain_tft_bridge.Substrate.Client.Established.{Establishes, retry_post, perform_post}
use tfchain_tft_bridge.Substrate.Client.Established as Established
use tfchain_tft_bridge.World.Calls
use tfchain_tft_bridge.Stellar.Wallet.{create_payment_with_signatures_and_submit}
use tfchain_tft_bridge.Substrate.Events.{WithdrawReadyEvent}
use tfchain_tft_bridge.Bridge.State.{Bridge}
use tfchain_tft_bridge.Bridge.Withdraw.{pay_withdraw, handle_withdraw_ready}

-- What the daemon relies on of the chain: a burn is executed once the call that sets it executed
-- succeeded, or once the chain has answered that it is; this lasts; and then the chain does not answer no.
pub record KeepsBurns (E : Env) : Type 1 where
  pub Executed : ℕ → E.State → Type 0
  pub Later : E.State → E.State → Type 0
  pub set_executed :
      (identity : E.Identity) (id : ℕ) (s : E.State)
      → (E.set_burn_transaction_executed identity id s).0 ≡ value tt
      → Executed id (E.set_burn_transaction_executed identity id s).1
  pub answered :
      (id : ℕ) (s : E.State)
      → (E.is_burned_already id s).0 ≡ value true
      → Executed id (E.is_burned_already id s).1
  pub not_denied :
      (id : ℕ) (s : E.State) → Executed id s → (E.is_burned_already id s).0 ≢ value false
  pub lasts : (id : ℕ) {s t : E.State} → Executed id s → Later s t → Executed id t

-- Nothing but the question whether it is burned, with the answer yes or with none.
abbrev pub OnlyAsked : {Tx : Type 0} → ℕ → Trace Tx → Trace Tx → Type 0
OnlyAsked id old t =
    (t ≡ (is_burned id, true) ∷ old) ⊎ (t ≡ (unanswered (is_burned id), false) ∷ old)

module _ {E : Env} (K : KeepsBurns E) (fuel : ℕ) (b : Bridge E) (ctx : Context) where
  set_burn_post :
      (id : ℕ) (w : World E)
      → Post
          (retry_set_withdraw_executed fuel b.sub_client ctx id)
          w
          (Establishes tt (K.Executed id))
  unfolding retry_set_withdraw_executed
  set_burn_post id w =
      let set = E.set_burn_transaction_executed b.sub_client.identity id in
      retry_post (K.Executed id) (Calls.set_burn_transaction_executed E b.sub_client.identity id)
        (Calls.is_burned_already E id)
        (perform_post tt (K.Executed id) (set_burn_executed id) succeeded set
          (K.set_executed b.sub_client.identity id))
        (Established.question_post true (K.Executed id) (told (is_burned id))
          (E.is_burned_already id) (K.answered id))
        fuel ctx error_of_check w

  pay_withdraw_post :
      (id : ℕ) (burn_tx : BurnTransaction) (signatures : List StellarSignature) (w : World E)
      → Post (pay_withdraw fuel b ctx id burn_tx signatures) w (Establishes tt (K.Executed id))
  unfolding pay_withdraw raise
  pay_withdraw_post id burn_tx [] w = λ e. cc
  pay_withdraw_post id burn_tx (sig ∷ sigs) w =
      bind_post (λ _ _. Unit {0}) (Establishes tt (K.Executed id))
        (create_payment_with_signatures_and_submit b.wallet burn_tx.target burn_tx.amount
          (sig ∷ sigs) (to_int64 burn_tx.sequence_number))
        (λ _. retry_set_withdraw_executed fuel b.sub_client ctx id) w
        (record { on_err = λ x s r e. cc; on_crash = λ s r e. cc; on_unfinished = λ s r e. cc })
        (λ _ t _. set_burn_post id t) tt

  ready_post :
      (event : WithdrawReadyEvent) (w : World E)
      → Post (handle_withdraw_ready fuel b ctx event) w (Establishes tt (K.Executed event.id))
  unfolding handle_withdraw_ready
  ready_post event w =
      question_post (Establishes tt (K.Executed event.id)) (is_burned event.id)
        (E.is_burned_already event.id) _ w (λ burned _. go burned) (λ x e. cc)
    where
      go :
          (burned : Bool)
          → Post
              (if burned then raise (sentinel transaction_already_burned) else do
                burn_tx ← ask (E.get_burn_transaction event.id)
                pay_withdraw fuel b ctx event.id burn_tx burn_tx.signatures)
              (logged {E = E}
                (is_burned event.id)
                burned
                (E.is_burned_already event.id w.outside).1
                w)
              (Establishes tt (K.Executed event.id))
      go true = unfold raise in λ e. cc
      go false =
          ask_post (Establishes tt (K.Executed event.id)) (E.get_burn_transaction event.id) _ _
            (λ burn_tx given. pay_withdraw_post event.id burn_tx burn_tx.signatures _)
            (λ x given e. cc)

  -- No withdrawal is paid twice: if the handler of a ready withdrawal has returned without an error, then
  -- in every later state of the chain, with any sequence number and trace, the handler of a ready
  -- withdrawal with the same id, of this daemon or of one with another configuration, fails and leaves
  -- nothing but the question whether it is burned, with the answer yes or with none: it submits no
  -- payment. The chain must keep what is
  -- executed.
  pub handle_withdraw_ready-once :
      (event again : WithdrawReadyEvent) (w v : World E)
      → again.id ≡ event.id
      → (handle_withdraw_ready fuel b ctx event w).0 ≡ ok tt
      → K.Later (handle_withdraw_ready fuel b ctx event w).1.outside v.outside
      → (fuel' : ℕ) (b' : Bridge E) (ctx' : Context)
      → (is_ok (handle_withdraw_ready fuel' b' ctx' again v).0 ≡ false)
        × OnlyAsked again.id v.trace (handle_withdraw_ready fuel' b' ctx' again v).1.trace
  unfolding handle_withdraw_ready
  handle_withdraw_ready-once event again w v same returned later fuel' b' ctx' =
      question_post (λ o t. (is_ok o ≡ false) × OnlyAsked again.id v.trace t.trace)
        (is_burned again.id) (E.is_burned_already again.id) _ v go (λ x. (refl, inr refl))
    where
      executed : K.Executed again.id v.outside
      executed =
          subst (λ (id : ℕ). K.Executed id v.outside) (sym same)
            (K.lasts event.id (ready_post event w returned) later)

      go :
          (burned : Bool)
          → (E.is_burned_already again.id v.outside).0 ≡ value burned
          → Post
              (if burned then raise (sentinel transaction_already_burned) else do
                burn_tx ← ask (E.get_burn_transaction again.id)
                pay_withdraw fuel' b' ctx' again.id burn_tx burn_tx.signatures)
              (logged {E = E}
                (is_burned again.id)
                burned
                (E.is_burned_already again.id v.outside).1
                v)
              (λ o t. (is_ok o ≡ false) × OnlyAsked again.id v.trace t.trace)
      go true h = unfold raise in (refl, inl refl)
      go false h = absurd (K.not_denied again.id v.outside executed h)
