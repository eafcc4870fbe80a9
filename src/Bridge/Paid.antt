-- ===== src/Bridge/Paid.antt =====
-- The common end of the handlers of ready withdrawals and refunds in tfchain_bridge/pkg/bridge: a
-- payment is submitted, and then the chain is told that it is done.
use tfchain_tft_bridge.Prelude.{◌≡◌, refl, subst, true, false, ◌∷◌}
use tfchain_tft_bridge.Exec.{Outcome, ok, err, crash, unfinished, is_ok, ◌>>◌}
use tfchain_tft_bridge.Exec.Rules.{Post, bind_post}
use tfchain_tft_bridge.Env.{Env}
use tfchain_tft_bridge.World.{World, Action, Request, Trace, submit}
use tfchain_tft_bridge.Substrate.Client.Trace.{Retried}
use tfchain_tft_bridge.Stellar.Wallet.Submission.{Submits, nothing, submitted}

-- The traces that the end of such a handler may leave behind `old`, where `c` is the call that tells
-- the chain and `q` the question whether it has been told.
pub data Pays {Tx : Type 0} (c q : Request Tx) (P : Tx → Type 0) (old : Trace Tx) (o : Outcome Unit)
    (t : Trace Tx) : Type 0 where
  not_paid : is_ok o ≡ false → t ≡ old → Pays c q P old o t
  rejected : (tx : Tx) → P tx → is_ok o ≡ false → t ≡ (submit tx, false) ∷ old → Pays c q P old o t
  paid : (tx : Tx) → P tx → Retried c q ((submit tx, true) ∷ old) o t → Pays c q P old o t

module _ (E : Env) (c q : Request E.Tx) (P : E.Tx → Type 0) (old : Trace E.Tx) where
  abbrev PaysHere : Outcome Unit → Trace E.Tx → Type 0
  PaysHere = Pays {Tx = E.Tx} c q P old

  Pays_of_failed :
      (o o' : Outcome Unit) (t : Trace E.Tx)
      → is_ok o ≡ false
      → is_ok o' ≡ false
      → Submits E P old o t
      → PaysHere o' t
  Pays_of_failed o o' t f f' (nothing _ h) = not_paid f' h
  Pays_of_failed o o' t f f' (submitted tx p h) = rejected tx p f' (rw f at h)

  module _ (pay settle : Action E Unit)
      (settled : (w : World E) → Retried c q w.trace (settle w).0 (settle w).1.trace) where
    Pays_of_submitted :
        (t : World E)
        → Submits E P old (ok tt) t.trace
        → Post settle t (λ o t'. PaysHere o t'.trace)
    Pays_of_submitted t (nothing f h) = cc
    Pays_of_submitted t (submitted tx p h) = paid tx p (
        subst (λ (l : Trace E.Tx). Retried {Tx = E.Tx} c q l (settle t).0 (settle t).1.trace) h
          (settled t))

    -- The payment, and, only if it was accepted, the retried call that settles it.
    pub pays_post :
        (s : World E)
        → Post pay s (λ o t. Submits E P old o t.trace)
        → Post (pay >> settle) s (λ o t. PaysHere o t.trace)
    pays_post s =
        bind_post (λ o t. Submits E P old o t.trace) (λ o t. PaysHere o t.trace) pay _ s
          (record {
            on_err = λ e t. Pays_of_failed (err e) (err e) t.trace refl refl;
            on_crash = λ t. Pays_of_failed crash crash t.trace refl refl;
            on_unfinished = λ t. Pays_of_failed unfinished unfinished t.trace refl refl;
          })
          (λ _ t. Pays_of_submitted t)
