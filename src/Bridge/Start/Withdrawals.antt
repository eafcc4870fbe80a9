-- ===== src/Bridge/Start/Withdrawals.antt =====
-- The handlers of withdrawals of tfchain_bridge/pkg/bridge/withdraw.go keep the protocol.
use tfchain_tft_bridge.Prelude.{ℕ, ℤ, to_int64, false, refl, ◌∷◌, Text}
use tfchain_tft_bridge.Exec.{Outcome}
use tfchain_tft_bridge.Env.{Env}
use tfchain_tft_bridge.Env.Types.{Context}
use tfchain_tft_bridge.World.{World, Trace, is_minted, is_burned, propose_mint, set_burn_executed}
use tfchain_tft_bridge.Substrate.Client.Trace.{Retried}
use tfchain_tft_bridge.Substrate.Events.{
  WithdrawCreatedEvent, WithdrawExpiredEvent, WithdrawReadyEvent,
}
use tfchain_tft_bridge.Bridge.State.{Bridge}
use tfchain_tft_bridge.Bridge.Paid.{Pays, not_paid, rejected, paid}
use tfchain_tft_bridge.Bridge.Withdraw.{
  handle_withdraw_created, handle_withdraw_expired, handle_withdraw_ready,
}
use tfchain_tft_bridge.Bridge.Withdraw.Proposal.{Proposes, not_signed, proposed}
use tfchain_tft_bridge.Bridge.Withdraw.GivenBack.{GivesBack}
use tfchain_tft_bridge.Bridge.Withdraw.Created.{
  HandlesCreated, HandlesExpired, handle_withdraw_created-HandlesCreated,
  handle_withdraw_expired-HandlesExpired,
}
use tfchain_tft_bridge.Bridge.Withdraw.Ready.{HandlesReady, handle_withdraw_ready-HandlesReady}
use tfchain_tft_bridge.Bridge.Start.Allowed.{
  MayPropose, MayExecute, MaySubmit, IsSafe, IsSafe-Tries, IsSafe-IsSettled, IsSafe-Retried,
}

module _ {E : Env} (expired : ℕ → Type 0) (fuel : ℕ) (b : Bridge E) (ctx : Context) where
  -- A proposal behind the question, or for a withdrawal that has expired.
  IsSafe-Proposes :
      (id : ℕ) (target : Text) (amount : ℕ) (current : ℤ) (old : Trace E.Tx) (o : Outcome Unit)
      (t : Trace E.Tx)
      → ((c : tfchain_tft_bridge.World.Request E.Tx) (t : Trace E.Tx)
          → tfchain_tft_bridge.Substrate.Client.Trace.Tries c (is_burned id) old t
          → MayPropose expired id c t)
      → IsSafe expired old
      → Proposes fuel b ctx id target amount current old o t
      → IsSafe expired t
  IsSafe-Proposes id target amount current old o t may safe (not_signed _ e) = rw e safe
  IsSafe-Proposes id target amount current old o t may safe (proposed signed _ r) =
      IsSafe-Retried expired _ (is_burned id) old (may _) (λ t. tt) o t r safe

  IsSafe-GivesBack :
      (withdraw : WithdrawCreatedEvent) (old : Trace E.Tx) (o : Outcome Unit) (t : Trace E.Tx)
      → IsSafe expired old
      → GivesBack fuel b ctx withdraw old o t
      → IsSafe expired t
  IsSafe-GivesBack withdraw old o t safe (GivesBack.given_back _ e) = rw e (tt, safe)
  IsSafe-GivesBack withdraw old o t safe (GivesBack.no_answer _ e) = rw e (tt, safe)
  IsSafe-GivesBack withdraw old o t safe (GivesBack.not_minted _ r) =
      IsSafe-Tries expired _ _ _ (λ t r. (old, r)) (λ t. tt) r (tt, safe)
  IsSafe-GivesBack withdraw old o t safe (GivesBack.minted between settled r) =
      IsSafe-Retried expired (set_burn_executed withdraw.id) (is_burned withdraw.id) between
        (λ t r.
          MayExecute.given_back withdraw.source (to_int64 withdraw.amount) old between settled r)
        (λ t. tt) o t r
        (IsSafe-IsSettled expired _ _ _ (λ t r. (old, r)) (λ t. tt) settled (tt, safe))

  IsSafe-HandlesCreated :
      (withdraw : WithdrawCreatedEvent) (s : World E) (o : Outcome Unit) (t : World E)
      → IsSafe expired s.trace
      → HandlesCreated fuel b ctx withdraw s o t
      → IsSafe expired t.trace
  IsSafe-HandlesCreated withdraw s o t safe (HandlesCreated.burned _ e) = rw e (tt, safe)
  IsSafe-HandlesCreated withdraw s o t safe (HandlesCreated.no_answer _ e) = rw e (tt, safe)
  IsSafe-HandlesCreated withdraw s o t safe (HandlesCreated.to_stellar _ p) =
      IsSafe-Proposes withdraw.id withdraw.target withdraw.amount s.sequence_number _ o t.trace
        (λ c t r. MayPropose.not_burned s.trace r) (tt, safe) p
  IsSafe-HandlesCreated withdraw s o t safe (HandlesCreated.back_to_source _ g) =
      IsSafe-GivesBack withdraw _ o t.trace (tt, safe) g

  pub handle_withdraw_created-IsSafe :
      (withdraw : WithdrawCreatedEvent) (s : World E)
      → IsSafe expired s.trace
      → IsSafe expired (handle_withdraw_created fuel b ctx withdraw s).1.trace
  handle_withdraw_created-IsSafe withdraw s safe =
      IsSafe-HandlesCreated withdraw s _ _ safe
        (handle_withdraw_created-HandlesCreated fuel b ctx withdraw s)

  IsSafe-HandlesExpired :
      (withdraw : WithdrawExpiredEvent) (s : World E) (o : Outcome Unit) (t : World E)
      → expired withdraw.id
      → IsSafe expired s.trace
      → HandlesExpired fuel b ctx withdraw s o t
      → IsSafe expired t.trace
  IsSafe-HandlesExpired withdraw s o t known safe (HandlesExpired.to_stellar _ p) =
      IsSafe-Proposes withdraw.id withdraw.target withdraw.amount s.sequence_number s.trace o
        t.trace (λ c t r. MayPropose.has_expired known) safe p
  IsSafe-HandlesExpired withdraw s o t known safe (HandlesExpired.given_up _ r) =
      IsSafe-Retried expired (set_burn_executed withdraw.id) (is_burned withdraw.id) s.trace
        (λ t r. MayExecute.has_expired known) (λ t. tt) o t.trace r safe

  pub handle_withdraw_expired-IsSafe :
      (withdraw : WithdrawExpiredEvent) (s : World E)
      → expired withdraw.id
      → IsSafe expired s.trace
      → IsSafe expired (handle_withdraw_expired fuel b ctx withdraw s).1.trace
  handle_withdraw_expired-IsSafe withdraw s known safe =
      IsSafe-HandlesExpired withdraw s _ _ known safe
        (handle_withdraw_expired-HandlesExpired fuel b ctx withdraw s)

  IsSafe-Pays :
      (id : ℕ) (P : E.Tx → Type 0) (old : Trace E.Tx) (o : Outcome Unit) (t : Trace E.Tx)
      → IsSafe expired old
      → Pays (set_burn_executed id) (is_burned id) P ((is_burned id, false) ∷ old) o t
      → IsSafe expired t
  IsSafe-Pays id P old o t safe (not_paid _ e) = rw e (tt, safe)
  IsSafe-Pays id P old o t safe (rejected tx _ _ e) =
      rw e (MaySubmit.not_burned id old refl, (tt, safe))
  IsSafe-Pays id P old o t safe (paid tx _ r) =
      IsSafe-Retried expired (set_burn_executed id) (is_burned id) _
        (λ t r. MayExecute.paid tx old r) (λ t. tt) o t r
        (MaySubmit.not_burned id old refl, (tt, safe))

  IsSafe-HandlesReady :
      (id : ℕ) (s : World E) (o : Outcome Unit) (t : World E)
      → IsSafe expired s.trace
      → HandlesReady fuel b ctx id s o t
      → IsSafe expired t.trace
  IsSafe-HandlesReady id s o t safe (HandlesReady.burned _ e) = rw e (tt, safe)
  IsSafe-HandlesReady id s o t safe (HandlesReady.no_answer _ e) = rw e (tt, safe)
  IsSafe-HandlesReady id s o t safe (HandlesReady.not_found _ _ _ e) = rw e (tt, safe)
  IsSafe-HandlesReady id s o t safe (HandlesReady.found _ _ p) =
      IsSafe-Pays id _ s.trace o t.trace safe p

  pub handle_withdraw_ready-IsSafe :
      (event : WithdrawReadyEvent) (s : World E)
      → IsSafe expired s.trace
      → IsSafe expired (handle_withdraw_ready fuel b ctx event s).1.trace
  handle_withdraw_ready-IsSafe event s safe =
      IsSafe-HandlesReady event.id s _ _ safe
        (handle_withdraw_ready-HandlesReady fuel b ctx event s)
