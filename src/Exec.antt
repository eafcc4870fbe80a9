-- ===== src/Exec.antt =====
-- Methods that change state and may fail: what was done before a failure stays done.
pub mod Rules
use tfchain_tft_bridge.Prelude.{Bool, true, false, Text}
use tfchain_tft_bridge.Errors.{Error, wrap, Result, value, error}

-- `crash` is a panic or `log.Fatal`; `unfinished` says that a loop used up its fuel.
pub data Outcome (A : Type 0) : Type 0 where
  ok : A → Outcome A
  err : Error → Outcome A
  crash : Outcome A
  unfinished : Outcome A

abbrev pub is_ok : {A : Type 0} → Outcome A → Bool
is_ok (ok _) = true
is_ok _ = false

abbrev pub Exec : Type 0 → Type 0 → Type 0
Exec S A = S → Outcome A × S

abbrev pub caught : {A : Type 0} → Outcome A → Outcome (Result A)
caught (ok a) = ok (value a)
caught (err e) = ok (error e)
caught crash = crash
caught unfinished = unfinished

module _ {S A : Type 0} where
  unfoldable pub pure : A → Exec S A
  pure a s = (ok a, s)

  unfoldable pub raise : Error → Exec S A
  raise e s = (err e, s)

  -- `log.Fatal`, or a panic.
  unfoldable pub abort : Exec S A
  abort s = (crash, s)

  unfoldable pub lift : Result A → Exec S A
  lift (value a) s = (ok a, s)
  lift (error e) s = (err e, s)

  -- `x, err := m()`: the error is a value of the next lines.
  unfoldable pub try : Exec S A → Exec S (Result A)
  try m s = let (o, s') = m s in (caught o, s')

-- `errors.Wrap` on the error of an action.
abbrev pub wrapped : {A : Type 0} → Text → Outcome A → Outcome A
wrapped t (ok a) = ok a
wrapped t (err e) = err (wrap e t)
wrapped t crash = crash
wrapped t unfinished = unfinished

unfoldable pub wrapping : {S A : Type 0} → Text → Exec S A → Exec S A
wrapping t m s = let (o, s') = m s in (wrapped t o, s')

module _ {S A B : Type 0} where
  abbrev pub continue : Outcome A → (A → Exec S B) → Exec S B
  continue (ok a) f s = f a s
  continue (err e) f s = (err e, s)
  continue crash f s = (crash, s)
  continue unfinished f s = (unfinished, s)

  infixl 5 ◌>>=◌
  -- Opening this opens the actions above too.
  unfoldable pub ◌>>=◌ : Exec S A → (A → Exec S B) → Exec S B
  unfolding pure raise abort lift try wrapping
  ◌>>=◌ m f s = let (o, s') = m s in continue o f s'

infixl 5 ◌>>◌
abbrev pub ◌>>◌ : {S A B : Type 0} → Exec S A → Exec S B → Exec S B
m >> k = m >>= λ _. k
