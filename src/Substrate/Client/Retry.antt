-- ===== src/Substrate/Client/Retry.antt =====
-- The retry loops of tfchain_bridge/pkg/substrate/client.go: what they leave in the trace, and that
-- they end.
use tfchain_tft_bridge.Prelude.{ℕ, zero, suc, Bool, true, false, ◌≡◌, refl, if◌then◌else◌}
use tfchain_tft_bridge.Errors.{Error}
use tfchain_tft_bridge.Exec.{
  Outcome, ok, err, crash, unfinished, is_ok, raise, try, caught, continue, ◌>>=◌,
}
use tfchain_tft_bridge.Exec.Rules.{Post}
use tfchain_tft_bridge.Env.{Env}
use tfchain_tft_bridge.Env.Types.{Context, background, running}
use tfchain_tft_bridge.World.{World, Action, Request, Trace}
use tfchain_tft_bridge.Substrate.Client.{wait, after_attempt, after_check, retry_loop, retry}
use tfchain_tft_bridge.Substrate.Client.Trace.{
  Tries, start, failed, denied, no_answer, by_attempt, by_answer, Retried, Logs, Asks,
}

module _ {E : Env} (c q : Request E.Tx) (attempt : Action E Unit) (check : Action E Bool)
    (attempt-Logs : (w : World E) → Logs E c (is_ok (attempt w).0) w (attempt w).1)
    (check-Asks : (w : World E) → Asks E q (check w).0 w (check w).1) (old : Trace E.Tx) where
  abbrev Step : (Error → Action E Unit) → Type 0
  Step again =
      (e : Error) (w : World E)
      → Tries c q old w.trace
      → Retried c q old (again e w).0 (again e w).1.trace

  attempt_once :
      (again : Error → Action E Unit)
      → Step again
      → (w : World E) → Tries c q old w.trace
      → Post
          (λ w. continue (caught (attempt w).0) (after_attempt again) (attempt w).1)
          w
          (λ o w'. Retried c q old o w'.trace)
  unfolding after_attempt ◌>>=◌
  attempt_once again step w h = go (attempt w).0 (attempt w).1 (attempt-Logs w)
    where
      go :
          (o : Outcome Unit) (w' : World E)
          → Logs E c (is_ok o) w w'
          → Post (continue (caught o) (after_attempt again)) w' (λ o w'. Retried c q old o w'.trace)
      go (ok tt) w' l = rw l.trace (by_attempt h)
      go (err e) w' l = step e w' (rw l.trace (failed h))
      go crash w' l = rw l.trace (failed h)
      go unfinished w' l = rw l.trace (failed h)

  check_once :
      (again : Error → Action E Unit) (give_up : Error → Error)
      → Step again
      → (w : World E) → Tries c q old w.trace
      → Post
          (λ w. continue (caught (check w).0) (after_check again attempt give_up) (check w).1)
          w
          (λ o w'. Retried c q old o w'.trace)
  unfolding after_check ◌>>=◌
  check_once again give_up step w h = go (check w).0 (check w).1 (check-Asks w)
    where
      go :
          (o : Outcome Bool) (w' : World E)
          → Asks E q o w w'
          → Post
              (continue (caught o) (after_check again attempt give_up))
              w'
              (λ o w'. Retried c q old o w'.trace)
      go (ok true) w' l = rw l.trace (by_answer h)
      go (ok false) w' l = attempt_once again step w' (rw l.trace (denied h))
      go (err e) w' l = rw l.trace (no_answer h)
      go crash w' l = rw l.trace (no_answer h)
      go unfinished w' l = rw l.trace (no_answer h)

  trace-wait : (ctx : Context) (w : World E) → (wait ctx w).1.trace ≡ w.trace
  unfolding wait ◌>>=◌
  trace-wait background w = refl
  trace-wait running w = refl

  wait_once :
      (ctx : Context) (again : Error → Action E Unit) (give_up : Error → Error) (e : Error)
      → Step again
      → (w : World E) → Tries c q old w.trace
      → (done : Bool)
      → Post
          (if done
            then raise e
            else do answer ← try check; after_check again attempt give_up answer)
          w
          (λ o w'. Retried c q old o w'.trace)
  unfolding ◌>>=◌
  wait_once ctx again give_up e step w h true = h
  wait_once ctx again give_up e step w h false = check_once again give_up step w h

  retry_loop-Retried :
      (fuel : ℕ) (ctx : Context) (give_up : Error → Error → Error)
      → Step (retry_loop fuel ctx attempt check give_up)
  unfolding retry_loop wait ◌>>=◌
  retry_loop-Retried zero ctx give_up e w h = h
  retry_loop-Retried (suc fuel) background give_up e w h =
      wait_once background _ (give_up e) e (retry_loop-Retried fuel background give_up) _ h false
  retry_loop-Retried (suc fuel) running give_up e w h =
      wait_once running _ (give_up e) e (retry_loop-Retried fuel running give_up) _ h
        (E.wait w.outside).0

-- The trace of a retried call: attempts that failed and questions that were answered with no
-- or not at all, and, exactly if the call returns without an error, one last entry: the attempt that
-- succeeded, or the answer that it had been done already.
pub retry-Retried :
    {E : Env} (c q : Request E.Tx) (attempt : Action E Unit) (check : Action E Bool)
    → ((w : World E) → Logs E c (is_ok (attempt w).0) w (attempt w).1)
    → ((w : World E) → Asks E q (check w).0 w (check w).1)
    → (fuel : ℕ) (ctx : Context) (give_up : Error → Error → Error) (w : World E)
    → Retried c q w.trace
        (retry fuel ctx attempt check give_up w).0
        (retry fuel ctx attempt check give_up w).1.trace
unfolding retry ◌>>=◌
retry-Retried c q attempt check attempt-Logs check-Asks fuel ctx give_up w =
    attempt_once c q attempt check attempt-Logs check-Asks w.trace _
      (retry_loop-Retried c q attempt check attempt-Logs check-Asks w.trace fuel ctx give_up) w
      start
