-- ===== src/Substrate/Client/Patience.antt =====
-- The retry loops of tfchain_bridge/pkg/substrate/client.go under the background context, on a chain
-- that gives way.
use tfchain_tft_bridge.Prelude.{
  ℕ, zero, suc, ◌<◌, ◌≤◌, Bool, true, false, ◌≡◌, refl, ◌⊎◌, inl, inr, arith,
}
use tfchain_tft_bridge.Errors.{Error}
use tfchain_tft_bridge.Exec.{
  Outcome, ok, err, crash, unfinished, raise, pure, try, caught, continue, ◌>>=◌,
}
use tfchain_tft_bridge.Exec.Rules.{Returned}
use tfchain_tft_bridge.Env.{Env}
use tfchain_tft_bridge.Env.Types.{background}
use tfchain_tft_bridge.World.{World, Action}
use tfchain_tft_bridge.Substrate.Client.{wait, after_attempt, after_check, retry_loop, retry}

-- Rounds of waiting bring the moment nearer from which the attempt succeeds, and no call puts it off.
pub record Patience {E : Env} (attempt : Action E Unit) (check : Action E Bool) : Type 0 where
  pub left : E.State → ℕ
  pub waits : (s : E.State) → (left (E.wait s).1 < left s) ⊎ (left (E.wait s).1 ≡ 0)
  pub attempt_returns : (w : World E) → Returned (attempt w).0
  pub attempt_left : (w : World E) → left (attempt w).1.outside ≤ left w.outside
  pub check_returns : (w : World E) → Returned (check w).0
  pub check_left : (w : World E) → left (check w).1.outside ≤ left w.outside
  pub accepts : (w : World E) → left w.outside ≡ 0 → (attempt w).0 ≡ ok tt

module _ {E : Env} (attempt : Action E Unit) (check : Action E Bool) where
  -- Success, or the error that the loop makes of an attempt's error and of that of the question.
  pub data Settles (give_up : Error → Error → Error) (o : Outcome Unit) : Type 0 where
    succeeded : o ≡ ok tt → Settles give_up o
    unanswered :
        (v : World E) (e c : Error)
        → (check v).0 ≡ err c
        → o ≡ err (give_up e c)
        → Settles give_up o

  module _ (p : Patience attempt check) (give_up : Error → Error → Error) where
    abbrev Step : ℕ → (Error → Action E Unit) → Type 0
    Step n again = (e : Error) (w : World E) → p.left w.outside < n → Settles give_up (again e w).0

    attempt-Settles :
        (n : ℕ) (again : Error → Action E Unit) (w : World E)
        → Step n again
        → (p.left w.outside < n) ⊎ (p.left w.outside ≡ 0)
        → Settles give_up ((try attempt >>= after_attempt again) w).0
    unfolding ◌>>=◌ try after_attempt pure
    attempt-Settles n again w step near = go (attempt w).0 refl (p.attempt_returns w) near
      where
        go :
            (o : Outcome Unit)
            → (attempt w).0 ≡ o
            → Returned o
            → (p.left w.outside < n) ⊎ (p.left w.outside ≡ 0)
            → Settles give_up (continue (caught o) (after_attempt again) (attempt w).1).0
        go (ok tt) same r near = succeeded refl
        go (err e) same r (inl l) = step e (attempt w).1 (omega (arith, p.attempt_left w))
        go (err e) same r (inr z) = let a = p.accepts w z in cc
        go crash same r near = absurd r
        go unfinished same r near = absurd r

    check-Settles :
        (n : ℕ) (again : Error → Action E Unit) (e : Error) (w : World E)
        → Step n again
        → (p.left w.outside < n) ⊎ (p.left w.outside ≡ 0)
        → Settles give_up ((try check >>= after_check again attempt (give_up e)) w).0
    unfolding ◌>>=◌ try after_check pure raise
    check-Settles n again e w step near =
        go (check w).0 refl (p.check_returns w) near (p.check_left w)
      where
        go :
            (o : Outcome Bool)
            → (check w).0 ≡ o
            → Returned o
            → (p.left w.outside < n) ⊎ (p.left w.outside ≡ 0)
            → p.left (check w).1.outside ≤ p.left w.outside
            → Settles give_up
                (continue (caught o) (after_check again attempt (give_up e)) (check w).1).0
        go (ok true) same r near short = succeeded refl
        go (ok false) same r (inl l) short =
            attempt-Settles n again (check w).1 step (inl (omega arith))
        go (ok false) same r (inr z) short =
            attempt-Settles n again (check w).1 step (inr (omega arith))
        go (err c) same r near short = unanswered w e c same refl
        go crash same r near short = absurd r
        go unfinished same r near short = absurd r

    retry_loop-Settles : (n : ℕ) → Step n (retry_loop n background attempt check give_up)
    unfolding retry_loop wait ◌>>=◌
    retry_loop-Settles zero e w h = absurd (omega arith)
    retry_loop-Settles (suc n) e w h = go (p.waits w.outside) (
        check-Settles n (retry_loop n background attempt check give_up) e
          (record w { outside = (E.wait w.outside).1 }) (retry_loop-Settles n))
      where
        P : Type 0
        P =
            Settles give_up
              ((try check
                  >>= after_check (retry_loop n background attempt check give_up) attempt
                      (give_up e))
                (record w { outside = (E.wait w.outside).1 })).0

        go :
            (p.left (E.wait w.outside).1 < p.left w.outside) ⊎ (p.left (E.wait w.outside).1 ≡ 0)
            → ((p.left (E.wait w.outside).1 < n) ⊎ (p.left (E.wait w.outside).1 ≡ 0) → P)
            → P
        go (inl l) k = k (inl (omega arith))
        go (inr z) k = k (inr z)

    -- Under the background context, which the refunds of a deposit are given, and with fuel for the
    -- rounds after which the attempt succeeds, a retried call returns: without an error, or with the
    -- error that is made of that of a question which was not answered.
    pub retry-Settles :
        (fuel : ℕ) (w : World E)
        → p.left w.outside < fuel
        → Settles give_up (retry fuel background attempt check give_up w).0
    unfolding retry
    retry-Settles fuel w h =
        attempt-Settles fuel (retry_loop fuel background attempt check give_up) w
          (retry_loop-Settles fuel) (inl h)
