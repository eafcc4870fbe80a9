-- ===== src/World/Quiet.antt =====
-- Actions that leave no entry in the trace, one rule for each way to build one.
use tfchain_tft_bridge.Prelude.{◌≡◌, refl, ◌∙◌, Bool, true, false, Text, if◌then◌else◌}
use tfchain_tft_bridge.Errors.{Error, Result, value, error}
use tfchain_tft_bridge.Exec.{
  Outcome, ok, err, crash, unfinished, pure, raise, abort, lift, continue, wrapping, ◌>>=◌,
}
use tfchain_tft_bridge.Env.{Env, Call}
use tfchain_tft_bridge.World.{World, Action, ask}

pub record IsQuiet {E : Env} {A : Type 0} (m : Action E A) : Type 0 where
  pub at : (w : World E) → (m w).1.trace ≡ w.trace

module _ {E : Env} {A : Type 0} where
  pub IsQuiet-pure : (a : A) → IsQuiet {E = E} (pure a)
  unfolding pure
  IsQuiet-pure a = record { at = λ w. refl }

  pub IsQuiet-raise : (e : Error) → IsQuiet {E = E} {A = A} (raise e)
  unfolding raise
  IsQuiet-raise e = record { at = λ w. refl }

  pub IsQuiet-abort : IsQuiet {E = E} {A = A} abort
  unfolding abort
  IsQuiet-abort = record { at = λ w. refl }

  pub IsQuiet-lift : (r : Result A) → IsQuiet {E = E} (lift r)
  unfolding lift
  IsQuiet-lift (value a) = record { at = λ w. refl }
  IsQuiet-lift (error e) = record { at = λ w. refl }

  pub IsQuiet-ask : (c : Call E.State A) → IsQuiet {E = E} (ask c)
  unfolding ask
  IsQuiet-ask c = record { at = λ w. (IsQuiet-lift (c w.outside).0).at _ }

  pub IsQuiet-if :
      (b : Bool) (m n : Action E A) → IsQuiet m → IsQuiet n → IsQuiet {E = E} (if b then m else n)
  IsQuiet-if true m n qm qn = qm
  IsQuiet-if false m n qm qn = qn

  pub IsQuiet-wrapping : (t : Text) (m : Action E A) → IsQuiet m → IsQuiet {E = E} (wrapping t m)
  unfolding wrapping
  IsQuiet-wrapping t m q = record { at = q.at }

module _ {E : Env} {A B : Type 0} where
  continue-trace :
      (o : Outcome A) (f : A → Action E B)
      → ((a : A) → IsQuiet (f a))
      → (w : World E) → (continue o f w).1.trace ≡ w.trace
  continue-trace (ok a) f q w = (q a).at w
  continue-trace (err e) f q w = refl
  continue-trace crash f q w = refl
  continue-trace unfinished f q w = refl

  pub IsQuiet-bind :
      (m : Action E A) (f : A → Action E B)
      → IsQuiet m
      → ((a : A) → IsQuiet (f a))
      → IsQuiet {E = E} (m >>= f)
  unfolding ◌>>=◌
  IsQuiet-bind m f qm qf = record { at = λ w. continue-trace (m w).0 f qf (m w).1 ∙ qm.at w }

pub ruleset quiet_rules = (
  IsQuiet-pure, IsQuiet-raise, IsQuiet-abort, IsQuiet-lift, IsQuiet-ask, IsQuiet-if,
  IsQuiet-wrapping, IsQuiet-bind,
)
