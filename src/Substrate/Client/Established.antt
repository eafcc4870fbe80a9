-- ===== src/Substrate/Client/Established.antt =====
-- What a retried call of tfchain_bridge/pkg/substrate/client.go leaves true of the chain when it succeeds.
use tfchain_tft_bridge.Prelude.{ℕ, zero, suc, Bool, true, false, ◌≡◌, refl, if◌then◌else◌, ◌∷◌}
use tfchain_tft_bridge.Errors.{Error, Result, value, error}
use tfchain_tft_bridge.Exec.{
  Outcome, ok, err, crash, unfinished, raise, lift, try, caught, continue, ◌>>=◌,
}
use tfchain_tft_bridge.Exec.Rules.{Post}
use tfchain_tft_bridge.Env.{Env, Call}
use tfchain_tft_bridge.Env.Types.{Context, background, running}
use tfchain_tft_bridge.World.{World, Action, Request, Entry, perform, question}
use tfchain_tft_bridge.Substrate.Client.{wait, after_attempt, after_check, retry_loop, retry}

-- If it succeeds, the predicate holds of what lies outside.
abbrev pub Establishes :
    {E : Env} {A : Type 0} → A → (E.State → Type 0) → Outcome A → World E → Type 0
Establishes {E} {A} a P o w = o ≡ ok a → P w.outside

pub perform_post :
    {E : Env} {A : Type 0} (a : A) (P : E.State → Type 0) (q : Request E.Tx)
    (flag : Result A → Bool) (call : Call E.State A)
    → ((s : E.State) → (call s).0 ≡ value a → P (call s).1)
    → (w : World E) → Post (perform E q flag call) w (Establishes a P)
unfolding perform lift
perform_post {E} {A} a P q flag call h w =
    go (call w.outside).0 (call w.outside).1 (h w.outside) (flag (call w.outside).0)
  where
    go :
        (r : Result A) (s : E.State)
        → (r ≡ value a → P s)
        → (b : Bool)
        → Post (lift r) (record w { outside = s; trace = (q, b) ∷ w.trace }) (Establishes a P)
    go (value x) s h b = λ e. h (cc)
    go (error x) s h b = λ e. cc

pub question_post :
    {E : Env} (a : Bool) (P : E.State → Type 0) (entry : Result Bool → Entry E.Tx)
    (call : Call E.State Bool)
    → ((s : E.State) → (call s).0 ≡ value a → P (call s).1)
    → (w : World E) → Post (question E entry call) w (Establishes a P)
unfolding question lift
question_post {E} a P entry call h w =
    go (call w.outside).0 (call w.outside).1 (h w.outside) (entry (call w.outside).0)
  where
    go :
        (r : Result Bool) (s : E.State)
        → (r ≡ value a → P s)
        → (x : Entry E.Tx)
        → Post (lift r) (record w { outside = s; trace = x ∷ w.trace }) (Establishes a P)
    go (value x) s h b = λ e. h (cc)
    go (error x) s h b = λ e. cc

module _ {E : Env} (P : E.State → Type 0) (attempt : Action E Unit) (check : Action E Bool)
    (attempt_post : (w : World E) → Post attempt w (Establishes tt P))
    (check_post : (w : World E) → Post check w (Establishes true P)) where
  abbrev Step : (Error → Action E Unit) → Type 0
  Step again = (e : Error) (w : World E) → Post (again e) w (Establishes tt P)

  attempt_once :
      (again : Error → Action E Unit)
      → Step again
      → (w : World E)
      → Post
          (λ w. continue (caught (attempt w).0) (after_attempt again) (attempt w).1)
          w
          (Establishes tt P)
  unfolding after_attempt ◌>>=◌
  attempt_once again step w = go (attempt w).0 (attempt w).1 (attempt_post w)
    where
      go :
          (o : Outcome Unit) (w' : World E)
          → Establishes {E = E} tt P o w'
          → Post (continue (caught o) (after_attempt again)) w' (Establishes tt P)
      go (ok tt) w' h = h
      go (err e) w' h = step e w'
      go crash w' h = λ e. cc
      go unfinished w' h = λ e. cc

  check_once :
      (again : Error → Action E Unit) (give_up : Error → Error)
      → Step again
      → (w : World E)
      → Post
          (λ w. continue (caught (check w).0) (after_check again attempt give_up) (check w).1)
          w
          (Establishes tt P)
  unfolding after_check ◌>>=◌
  check_once again give_up step w = go (check w).0 (check w).1 (check_post w)
    where
      go :
          (o : Outcome Bool) (w' : World E)
          → Establishes {E = E} true P o w'
          → Post (continue (caught o) (after_check again attempt give_up)) w' (Establishes tt P)
      go (ok true) w' h = λ e. h refl
      go (ok false) w' h = attempt_once again step w'
      go (err e) w' h = λ e. cc
      go crash w' h = λ e. cc
      go unfinished w' h = λ e. cc

  wait_once :
      (again : Error → Action E Unit) (give_up : Error → Error) (e : Error)
      → Step again
      → (w : World E) (done : Bool)
      → Post
          (if done
            then raise e
            else do answer ← try check; after_check again attempt give_up answer)
          w
          (Establishes tt P)
  unfolding ◌>>=◌
  wait_once again give_up e step w true = λ e. cc
  wait_once again give_up e step w false = check_once again give_up step w

  retry_loop_post :
      (fuel : ℕ) (ctx : Context) (give_up : Error → Error → Error)
      → Step (retry_loop fuel ctx attempt check give_up)
  unfolding retry_loop wait ◌>>=◌
  retry_loop_post zero ctx give_up e w = λ e. cc
  retry_loop_post (suc fuel) background give_up e w =
      wait_once _ (give_up e) e (retry_loop_post fuel background give_up) _ false
  retry_loop_post (suc fuel) running give_up e w =
      wait_once _ (give_up e) e (retry_loop_post fuel running give_up) _ (E.wait w.outside).0

  pub retry_post :
      (fuel : ℕ) (ctx : Context) (give_up : Error → Error → Error) (w : World E)
      → Post (retry fuel ctx attempt check give_up) w (Establishes tt P)
  unfolding retry ◌>>=◌
  retry_post fuel ctx give_up w = attempt_once _ (retry_loop_post fuel ctx give_up) w
