-- ===== src/Bridge/Withdraw/Created.antt =====
-- `handleWithdrawCreated` and `handleWithdrawExpired` of tfchain_bridge/pkg/bridge/withdraw.go.
use tfchain_tft_bridge.Prelude.{ℕ, ◌≡◌, ◌≢◌, refl, Text, Bool, true, false, ◌∷◌, if◌then◌else◌}
use tfchain_tft_bridge.Errors.{
  sentinel, transaction_already_burned, Result, value, error, succeeded,
}
use tfchain_tft_bridge.Exec.{
  Outcome, ok, err, crash, unfinished, is_ok, caught, continue, raise, try, ◌>>=◌,
}
use tfchain_tft_bridge.Exec.Rules.{Post, raise_post}
use tfchain_tft_bridge.Env.{Env}
use tfchain_tft_bridge.Env.Types.{Context}
use tfchain_tft_bridge.World.{World, Action, unanswered, is_burned, set_burn_executed}
use tfchain_tft_bridge.World.Rules.{logged, question_post}
use tfchain_tft_bridge.Substrate.Client.Trace.{Retried}
use tfchain_tft_bridge.Substrate.Client.Settled.{retry_set_withdraw_executed-Retried}
use tfchain_tft_bridge.Substrate.Events.{WithdrawCreatedEvent, WithdrawExpiredEvent}
use tfchain_tft_bridge.Stellar.Wallet.{check_account}
use tfchain_tft_bridge.Stellar.Wallet.Generation.{IsSame, check_account-IsSame}
use tfchain_tft_bridge.Stellar.Wallet.Trustline.{CanReceive, can_receive, check_account_passes}
use tfchain_tft_bridge.Bridge.State.{Bridge}
use tfchain_tft_bridge.Bridge.Withdraw.{
  created_on_account, handle_withdraw_created, expired_on_account, handle_withdraw_expired,
}
use tfchain_tft_bridge.Bridge.Withdraw.Proposal.{Proposes, sign_withdraw-Proposes}
use tfchain_tft_bridge.Bridge.Withdraw.GivenBack.{GivesBack, handle_bad_withdraw-GivesBack}

module _ {E : Env} {B : Type 0} (Q : Outcome B → World E → Type 0) (b : Bridge E) where
  -- The account of the target is checked; the error is a value of what follows.
  checked_post :
      (account : Text) (k : Result Unit → Action E B) (s : World E)
      → ((r : Result Unit) (t : World E)
          → IsSame s t
          → is_ok (check_account b.wallet account s).0 ≡ succeeded r
          → Post (k r) t Q)
      → Post (try (check_account b.wallet account) >>= k) s Q
  unfolding ◌>>=◌
  checked_post account k s next =
      go (check_account b.wallet account s).0 (check_account b.wallet account s).1 refl
        (check_account-IsSame b.wallet account s)
    where
      go :
          (o : Outcome Unit) (t : World E)
          → is_ok (check_account b.wallet account s).0 ≡ is_ok o
          → IsSame s t × (o ≢ crash) × (o ≢ unfinished)
          → Post (continue (caught o) k) t Q
      go (ok a) t e h = next (value a) t h.0 e
      go (err x) t e h = next (error x) t h.0 e
      go crash t e h = absurd (h.1 refl)
      go unfinished t e h = absurd (h.2 refl)

module _ {E : Env} (fuel : ℕ) (b : Bridge E) (ctx : Context) where
  cannot_receive :
      (account : Text) (s : World E)
      → is_ok (check_account b.wallet account s).0 ≡ false
      → ¬ CanReceive E b.wallet.config account s
  cannot_receive account s c can = let passes = check_account_passes b.wallet account s can in cc

  -- The world behind the question, where the account is checked.
  abbrev asked : WithdrawCreatedEvent → World E → World E
  asked withdraw s =
      logged {E = E} (is_burned withdraw.id) false (E.is_burned_already withdraw.id s.outside).1 s

  -- Only the question whether it is burned, with the answer yes or with none; or the proposal of a payment; or the mint that gives the
  -- amount back.
  pub data HandlesCreated (withdraw : WithdrawCreatedEvent) (s : World E) (o : Outcome Unit)
      (t : World E) : Type 0 where
    burned :
        is_ok o ≡ false
        → t.trace ≡ (is_burned withdraw.id, true) ∷ s.trace
        → HandlesCreated withdraw s o t
    no_answer :
        is_ok o ≡ false
        → t.trace ≡ (unanswered (is_burned withdraw.id), false) ∷ s.trace
        → HandlesCreated withdraw s o t
    to_stellar :
        CanReceive E b.wallet.config withdraw.target (asked withdraw s)
        → Proposes fuel b ctx withdraw.id withdraw.target withdraw.amount s.sequence_number
            ((is_burned withdraw.id, false) ∷ s.trace)
            o
            t.trace
        → HandlesCreated withdraw s o t
    back_to_source :
        ¬ CanReceive E b.wallet.config withdraw.target (asked withdraw s)
        → GivesBack fuel b ctx withdraw ((is_burned withdraw.id, false) ∷ s.trace) o t.trace
        → HandlesCreated withdraw s o t

  module _ (withdraw : WithdrawCreatedEvent) (s : World E) where
    on_account :
        (r : Result Unit) (t : World E)
        → t.trace ≡ (is_burned withdraw.id, false) ∷ s.trace
        → t.sequence_number ≡ s.sequence_number
        → is_ok (check_account b.wallet withdraw.target (asked withdraw s)).0 ≡ succeeded r
        → Post (created_on_account fuel b ctx withdraw r) t (HandlesCreated withdraw s)
    unfolding created_on_account
    on_account (value _) t e n c =
        to_stellar (can_receive b.wallet withdraw.target (asked withdraw s) c) (
          rw (← e, ← n)
            (sign_withdraw-Proposes fuel b ctx withdraw.id withdraw.target withdraw.amount t))
    on_account (error _) t e n c =
        back_to_source (cannot_receive withdraw.target (asked withdraw s) c)
          (rw (← e) (handle_bad_withdraw-GivesBack fuel b ctx withdraw t))

    pub handle_withdraw_created-HandlesCreated :
        Post (handle_withdraw_created fuel b ctx withdraw) s (HandlesCreated withdraw s)
    unfolding handle_withdraw_created
    handle_withdraw_created-HandlesCreated =
        question_post (HandlesCreated withdraw s) (is_burned withdraw.id)
          (E.is_burned_already withdraw.id) _ s (λ burned _. go burned) (λ e. no_answer refl refl)
      where
        go :
            (burned : Bool)
            → Post
                (if burned then raise (sentinel transaction_already_burned) else do
                  checked ← try (check_account b.wallet withdraw.target)
                  created_on_account fuel b ctx withdraw checked)
                (logged {E = E}
                  (is_burned withdraw.id)
                  burned
                  (E.is_burned_already withdraw.id s.outside).1
                  s)
                (HandlesCreated withdraw s)
        go true = raise_post (HandlesCreated withdraw s) _ _ (HandlesCreated.burned refl refl)
        go false =
            checked_post (HandlesCreated withdraw s) b withdraw.target _ _
              (λ r t same c. on_account r t same.trace same.sequence_number c)

  pub data HandlesExpired (withdraw : WithdrawExpiredEvent) (s : World E) (o : Outcome Unit)
      (t : World E) : Type 0 where
    to_stellar :
        CanReceive E b.wallet.config withdraw.target s
        → Proposes fuel b ctx withdraw.id withdraw.target withdraw.amount s.sequence_number s.trace
            o t.trace
        → HandlesExpired withdraw s o t
    given_up :
        ¬ CanReceive E b.wallet.config withdraw.target s
        → Retried (set_burn_executed withdraw.id) (is_burned withdraw.id) s.trace o t.trace
        → HandlesExpired withdraw s o t

  expired-HandlesExpired :
      (withdraw : WithdrawExpiredEvent) (s : World E) (r : Result Unit) (t : World E)
      → IsSame s t
      → is_ok (check_account b.wallet withdraw.target s).0 ≡ succeeded r
      → Post (expired_on_account fuel b ctx withdraw r) t (HandlesExpired withdraw s)
  unfolding expired_on_account
  expired-HandlesExpired withdraw s (value _) t same c =
      HandlesExpired.to_stellar (can_receive b.wallet withdraw.target s c) (
        rw (← same.trace, ← same.sequence_number)
          (sign_withdraw-Proposes fuel b ctx withdraw.id withdraw.target withdraw.amount t))
  expired-HandlesExpired withdraw s (error _) t same c =
      given_up (cannot_receive withdraw.target s c) (
        rw (← same.trace) (retry_set_withdraw_executed-Retried fuel b.sub_client ctx withdraw.id t))

  pub handle_withdraw_expired-HandlesExpired :
      (withdraw : WithdrawExpiredEvent) (s : World E)
      → Post (handle_withdraw_expired fuel b ctx withdraw) s (HandlesExpired withdraw s)
  unfolding handle_withdraw_expired
  handle_withdraw_expired-HandlesExpired withdraw s =
      checked_post (HandlesExpired withdraw s) b withdraw.target _ s
        (expired-HandlesExpired withdraw s)
