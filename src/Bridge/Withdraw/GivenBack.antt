-- ===== src/Bridge/Withdraw/GivenBack.antt =====
-- A withdrawal to an account that cannot receive it: `handleBadWithdraw` of
-- tfchain_bridge/pkg/bridge/withdraw.go.
use tfchain_tft_bridge.Prelude.{ℕ, to_int64, ◌≡◌, refl, Bool, true, false, ◌∷◌, if◌then◌else◌}
use tfchain_tft_bridge.Errors.{sentinel, transaction_already_minted}
use tfchain_tft_bridge.Exec.{Outcome, is_ok, raise, ◌>>◌}
use tfchain_tft_bridge.Exec.Rules.{Post, bind_post, raise_post}
use tfchain_tft_bridge.Env.{Env}
use tfchain_tft_bridge.Env.Types.{Context}
use tfchain_tft_bridge.World.{
  World, Trace, unanswered, is_minted, is_burned, propose_mint, set_burn_executed,
}
use tfchain_tft_bridge.Substrate.Client.{retry_set_withdraw_executed, retry_propose_mint_or_vote}
use tfchain_tft_bridge.Substrate.Client.Trace.{Tries, IsSettled, Retried, Asks}
use tfchain_tft_bridge.Substrate.Client.Settled.{
  check_minted-Asks, retry_propose_mint_or_vote-Retried, retry_set_withdraw_executed-Retried,
}
use tfchain_tft_bridge.Substrate.Events.{WithdrawCreatedEvent}
use tfchain_tft_bridge.Bridge.State.{Bridge}
use tfchain_tft_bridge.Bridge.Withdraw.{mint_id, handle_bad_withdraw}

module _ {E : Env} (fuel : ℕ) (b : Bridge E) (ctx : Context) where
  -- Only the question whether it is given back; or, behind a no, proposals of the mint of the amount
  -- for the source that were not accepted; or, behind an accepted one, the retried call that sets the
  -- withdrawal executed.
  pub data GivesBack (withdraw : WithdrawCreatedEvent) (old : Trace E.Tx) (o : Outcome Unit)
      (t : Trace E.Tx) : Type 0 where
    given_back :
        is_ok o ≡ false
        → t ≡ (is_minted (mint_id withdraw.id), true) ∷ old
        → GivesBack withdraw old o t
    no_answer :
        is_ok o ≡ false
        → t ≡ (unanswered (is_minted (mint_id withdraw.id)), false) ∷ old
        → GivesBack withdraw old o t
    not_minted :
        is_ok o ≡ false
        → Tries
            (propose_mint (mint_id withdraw.id) withdraw.source (to_int64 withdraw.amount))
            (is_minted (mint_id withdraw.id))
            ((is_minted (mint_id withdraw.id), false) ∷ old)
            t
        → GivesBack withdraw old o t
    minted :
        (between : Trace E.Tx)
        → IsSettled
            (propose_mint (mint_id withdraw.id) withdraw.source (to_int64 withdraw.amount))
            (is_minted (mint_id withdraw.id))
            ((is_minted (mint_id withdraw.id), false) ∷ old)
            between
        → Retried (set_burn_executed withdraw.id) (is_burned withdraw.id) between o t
        → GivesBack withdraw old o t

  module _ (withdraw : WithdrawCreatedEvent) (s : World E) where
    give_back :
        (t : World E)
        → t.trace ≡ (is_minted (mint_id withdraw.id), false) ∷ s.trace
        → Post
            (retry_propose_mint_or_vote fuel b.sub_client ctx
                (mint_id withdraw.id)
                withdraw.source
                (to_int64 withdraw.amount)
              >> retry_set_withdraw_executed fuel b.sub_client ctx withdraw.id)
            t
            (λ o t'. GivesBack withdraw s.trace o t'.trace)
    give_back t e =
        let c = propose_mint (mint_id withdraw.id) withdraw.source (to_int64 withdraw.amount) in
        let q = is_minted (mint_id withdraw.id) in
        bind_post (λ o t'. Retried {Tx = E.Tx} c q ((q, false) ∷ s.trace) o t'.trace)
          (λ o t'. GivesBack withdraw s.trace o t'.trace) _ _ t
          (record {
            on_err = λ _ t' h. not_minted refl h;
            on_crash = λ t' h. not_minted refl h;
            on_unfinished = λ t' h. not_minted refl h;
          })
          (λ _ t' h.
            minted t'.trace h
              (retry_set_withdraw_executed-Retried fuel b.sub_client ctx withdraw.id t'))
          (rw (← e) (
            retry_propose_mint_or_vote-Retried fuel b.sub_client ctx (mint_id withdraw.id)
              withdraw.source (to_int64 withdraw.amount) t))

    after_question :
        (minted_already : Bool) (t : World E)
        → t.trace ≡ (is_minted (mint_id withdraw.id), minted_already) ∷ s.trace
        → Post
            (if minted_already then raise (sentinel transaction_already_minted) else do
              retry_propose_mint_or_vote fuel b.sub_client ctx
                  (mint_id withdraw.id)
                  withdraw.source
                  (to_int64 withdraw.amount)
              retry_set_withdraw_executed fuel b.sub_client ctx withdraw.id)
            t
            (λ o t'. GivesBack withdraw s.trace o t'.trace)
    after_question true t e =
        raise_post (λ o t'. GivesBack withdraw s.trace o t'.trace) _ t (GivesBack.given_back refl e)
    after_question false t e = give_back t e

    pub handle_bad_withdraw-GivesBack :
        Post
          (handle_bad_withdraw fuel b ctx withdraw)
          s
          (λ o t. GivesBack withdraw s.trace o t.trace)
    unfolding handle_bad_withdraw
    handle_bad_withdraw-GivesBack =
        bind_post (λ o t. Asks E (is_minted (mint_id withdraw.id)) o s t)
          (λ o t. GivesBack withdraw s.trace o t.trace) _ _ s
          (record {
            on_err = λ _ t l. GivesBack.no_answer refl l.trace;
            on_crash = λ t l. GivesBack.no_answer refl l.trace;
            on_unfinished = λ t l. GivesBack.no_answer refl l.trace;
          })
          (λ minted_already t l. after_question minted_already t l.trace)
          (check_minted-Asks (mint_id withdraw.id) s)
