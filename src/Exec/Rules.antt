-- ===== src/Exec/Rules.antt =====
-- Postconditions of actions: a rule for each way to build one.
use tfchain_tft_bridge.Prelude.{Bool, true, false, ◌≡◌, refl, if◌then◌else◌}
use tfchain_tft_bridge.Errors.{Error, Result, value, error}
use tfchain_tft_bridge.Exec.{
  Outcome, ok, err, crash, unfinished, Exec, pure, raise, lift, continue, ◌>>=◌,
}

-- `Q` holds of what `m` gives at `s`.
abbrev pub Post : {S A : Type 0} → Exec S A → S → (Outcome A → S → Type 0) → Type 0
Post m s Q = Q (m s).0 (m s).1

-- A Go call has returned, with an error or without.
abbrev pub Returned : {A : Type 0} → Outcome A → Type 0
Returned (ok _) = Unit
Returned (err _) = Unit
Returned crash = ⊥
Returned unfinished = ⊥

module _ {S A B : Type 0} (R : Outcome A → S → Type 0) (Q : Outcome B → S → Type 0) where
  -- The failures of the first part are those of the whole.
  pub record Passes : Type 0 where
    pub on_err : (e : Error) (s : S) → R (err e) s → Q (err e) s
    pub on_crash : (s : S) → R crash s → Q crash s
    pub on_unfinished : (s : S) → R unfinished s → Q unfinished s

  continue_post :
      (f : A → Exec S B) (o : Outcome A) (s : S)
      → Passes
      → ((a : A) (t : S) → R (ok a) t → Post (f a) t Q)
      → R o s
      → Post (continue o f) s Q
  continue_post f (ok a) s passes next r = next a s r
  continue_post f (err e) s passes next r = passes.on_err e s r
  continue_post f crash s passes next r = passes.on_crash s r
  continue_post f unfinished s passes next r = passes.on_unfinished s r

  pub bind_post :
      (m : Exec S A) (f : A → Exec S B) (s : S)
      → Passes
      → ((a : A) (t : S) → R (ok a) t → Post (f a) t Q)
      → Post m s R
      → Post (m >>= f) s Q
  unfolding ◌>>=◌
  bind_post m f s passes next r = let (o, t) = m s in continue_post f o t passes next r

module _ {S A B : Type 0} (Q : Outcome B → S → Type 0) where
  -- The first part is a result that is at hand.
  pub bind_lift_post :
      (r : Result A) (f : A → Exec S B) (s : S)
      → ((a : A) → r ≡ value a → Post (f a) s Q)
      → ((e : Error) → Q (err e) s)
      → Post (lift r >>= f) s Q
  unfolding ◌>>=◌
  bind_lift_post (value a) f s on_value on_error = on_value a refl
  bind_lift_post (error e) f s on_value on_error = on_error e

-- A choice by a test.
pub if_post :
    {S B : Type 0} (Q : Outcome B → S → Type 0) (b : Bool) (m n : Exec S B) (s : S)
    → (b ≡ true → Post m s Q)
    → (b ≡ false → Post n s Q)
    → Post (if b then m else n) s Q
if_post Q true m n s on_true on_false = on_true refl
if_post Q false m n s on_true on_false = on_false refl

module _ {S B : Type 0} (Q : Outcome B → S → Type 0) where
  pub raise_post : (e : Error) (s : S) → Q (err e) s → Post (raise e) s Q
  unfolding raise
  raise_post e s q = q

  pub pure_post : (b : B) (s : S) → Q (ok b) s → Post (pure b) s Q
  unfolding pure
  pure_post b s q = q
