-- ===== src/World/Calm.antt =====
-- Actions that change nothing that the daemon keeps, and return: one rule for each way to build one.
use tfchain_tft_bridge.Prelude.{◌≡◌, refl, ◌∙◌, Bool, true, false, if◌then◌else◌}
use tfchain_tft_bridge.Errors.{Error, Result, value, error}
use tfchain_tft_bridge.Exec.{
  Outcome, ok, err, crash, unfinished, pure, raise, lift, try, caught, continue, ◌>>=◌,
}
use tfchain_tft_bridge.Exec.Rules.{Post, Returned}
use tfchain_tft_bridge.Env.{Env, Call}
use tfchain_tft_bridge.World.{World, Action, ask}

pub record IsCalm {E : Env} {A : Type 0} (m : Action E A) : Type 0 where
  pub trace : (w : World E) → (m w).1.trace ≡ w.trace
  pub sequence_number : (w : World E) → (m w).1.sequence_number ≡ w.sequence_number
  pub returned : (w : World E) → Returned (m w).0

module _ {E : Env} {A : Type 0} where
  pub IsCalm-pure : (a : A) → IsCalm {E = E} (pure a)
  unfolding pure
  IsCalm-pure a = record { trace = λ w. refl; sequence_number = λ w. refl; returned = λ w. tt }

  pub IsCalm-raise : (e : Error) → IsCalm {E = E} {A = A} (raise e)
  unfolding raise
  IsCalm-raise e = record { trace = λ w. refl; sequence_number = λ w. refl; returned = λ w. tt }

  pub IsCalm-lift : (r : Result A) → IsCalm {E = E} (lift r)
  unfolding lift
  IsCalm-lift (value a) = record {
    trace = λ w. refl;
    sequence_number = λ w. refl;
    returned = λ w. tt;
  }
  IsCalm-lift (error e) = record {
    trace = λ w. refl;
    sequence_number = λ w. refl;
    returned = λ w. tt;
  }

  pub IsCalm-ask : (c : Call E.State A) → IsCalm {E = E} (ask c)
  unfolding ask
  IsCalm-ask c = record {
    trace = λ w. (IsCalm-lift (c w.outside).0).trace _;
    sequence_number = λ w. (IsCalm-lift (c w.outside).0).sequence_number _;
    returned = λ w. (IsCalm-lift (c w.outside).0).returned _;
  }

  pub IsCalm-if :
      (b : Bool) (m n : Action E A) → IsCalm m → IsCalm n → IsCalm {E = E} (if b then m else n)
  IsCalm-if true m n cm cn = cm
  IsCalm-if false m n cm cn = cn

module _ {E : Env} {A B : Type 0} (f : A → Action E B) (calm : (a : A) → IsCalm (f a)) where
  continue-trace : (o : Outcome A) (w : World E) → (continue o f w).1.trace ≡ w.trace
  continue-trace (ok a) w = (calm a).trace w
  continue-trace (err e) w = refl
  continue-trace crash w = refl
  continue-trace unfinished w = refl

  continue-sequence_number :
      (o : Outcome A) (w : World E) → (continue o f w).1.sequence_number ≡ w.sequence_number
  continue-sequence_number (ok a) w = (calm a).sequence_number w
  continue-sequence_number (err e) w = refl
  continue-sequence_number crash w = refl
  continue-sequence_number unfinished w = refl

  continue-Returned : (o : Outcome A) (w : World E) → Returned o → Returned (continue o f w).0
  continue-Returned (ok a) w r = (calm a).returned w
  continue-Returned (err e) w r = tt
  continue-Returned crash w r = r
  continue-Returned unfinished w r = r

pub IsCalm-bind :
    {E : Env} {A B : Type 0} (m : Action E A) (f : A → Action E B)
    → IsCalm m
    → ((a : A) → IsCalm (f a))
    → IsCalm {E = E} (m >>= f)
unfolding ◌>>=◌
IsCalm-bind m f calm calm_f = record {
  trace = λ w. continue-trace f calm_f (m w).0 (m w).1 ∙ calm.trace w;
  sequence_number = λ w. continue-sequence_number f calm_f (m w).0 (m w).1 ∙ calm.sequence_number w;
  returned = λ w. continue-Returned f calm_f (m w).0 (m w).1 (calm.returned w);
}

pub ruleset calm_rules =
    (IsCalm-pure, IsCalm-raise, IsCalm-lift, IsCalm-ask, IsCalm-if, IsCalm-bind)

-- The rest after a calm part whose error is a value of the rest.
pub calm_try_post :
    {E : Env} {A B : Type 0} (Q : Outcome B → World E → Type 0) (m : Action E A)
    (k : Result A → Action E B) (s : World E)
    → IsCalm m
    → ((r : Result A) (t : World E)
        → t.trace ≡ s.trace
        → t.sequence_number ≡ s.sequence_number
        → caught (m s).0 ≡ ok r
        → Post (k r) t Q)
    → Post (try m >>= k) s Q
unfolding ◌>>=◌
calm_try_post {E} {A} Q m k s calm on_result =
    go (m s).0 (m s).1 refl (calm.trace s) (calm.sequence_number s) (calm.returned s)
  where
    go :
        (o : Outcome A) (t : World E)
        → (m s).0 ≡ o
        → t.trace ≡ s.trace
        → t.sequence_number ≡ s.sequence_number
        → Returned o
        → Post (continue (caught o) k) t Q
    go (ok a) t e same n _ = on_result (value a) t same n (rw e)
    go (err x) t e same n _ = on_result (error x) t same n (rw e)
    go crash t e same n r = absurd r
    go unfinished t e same n r = absurd r

-- The rest after a calm part whose error ends the whole.
pub calm_post :
    {E : Env} {A B : Type 0} (Q : Outcome B → World E → Type 0) (m : Action E A)
    (k : A → Action E B) (s : World E)
    → IsCalm m
    → ((a : A) (t : World E)
        → t.trace ≡ s.trace
        → t.sequence_number ≡ s.sequence_number
        → (m s).0 ≡ ok a
        → Post (k a) t Q)
    → ((e : Error) (t : World E)
        → t.trace ≡ s.trace
        → t.sequence_number ≡ s.sequence_number
        → (m s).0 ≡ err e
        → Q (err e) t)
    → Post (m >>= k) s Q
unfolding ◌>>=◌
calm_post {E} {A} Q m k s calm on_ok on_err =
    go (m s).0 (m s).1 refl (calm.trace s) (calm.sequence_number s) (calm.returned s)
  where
    go :
        (o : Outcome A) (t : World E)
        → (m s).0 ≡ o
        → t.trace ≡ s.trace
        → t.sequence_number ≡ s.sequence_number
        → Returned o
        → Post (continue o k) t Q
    go (ok a) t e same n _ = on_ok a t same n e
    go (err x) t e same n _ = on_err x t same n e
    go crash t e same n r = absurd r
    go unfinished t e same n r = absurd r
