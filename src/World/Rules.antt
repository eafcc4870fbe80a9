-- ===== src/World/Rules.antt =====
-- Postconditions of calls to the outside: what the rest of a handler starts from.
use tfchain_tft_bridge.Prelude.{◌≡◌, refl, Bool, false, ◌∷◌}
use tfchain_tft_bridge.Errors.{Error, Result, value, error}
use tfchain_tft_bridge.Exec.{Outcome, ok, err, crash, unfinished, continue, lift, ◌>>=◌}
use tfchain_tft_bridge.Exec.Rules.{Post}
use tfchain_tft_bridge.Env.{Env, Call}
use tfchain_tft_bridge.World.{World, Action, Request, unanswered, told, ask, question}
use tfchain_tft_bridge.World.Quiet.{IsQuiet}

-- The world behind a question `q` that was answered, and behind one that was not.
abbrev pub logged : {E : Env} → Request E.Tx → Bool → E.State → World E → World E
logged q flag after s = record s { outside = after; trace = (q, flag) ∷ s.trace }

abbrev pub not_answered : {E : Env} → Request E.Tx → E.State → World E → World E
not_answered q after s = record s { outside = after; trace = (unanswered q, false) ∷ s.trace }

module _ {E : Env} {B : Type 0} (Q : Outcome B → World E → Type 0) where
  pub question_post :
      (q : Request E.Tx) (call : Call E.State Bool) (k : Bool → Action E B) (s : World E)
      → ((b : Bool) → (call s.outside).0 ≡ value b → Post (k b) (logged q b (call s.outside).1 s) Q)
      → ((e : Error) → Q (err e) (not_answered q (call s.outside).1 s))
      → Post (question E (told q) call >>= k) s Q
  unfolding question ◌>>=◌
  question_post q call k s on_answer on_error =
      go (call s.outside).0 (call s.outside).1 on_answer on_error
    where
      go :
          (r : Result Bool) (after : E.State)
          → ((b : Bool) → r ≡ value b → Post (k b) (logged q b after s) Q)
          → ((e : Error) → Q (err e) (not_answered q after s))
          → Post (lift r >>= k) (record s { outside = after; trace = told q r ∷ s.trace }) Q
      go (value b) after on_answer on_error = on_answer b refl
      go (error e) after on_answer on_error = on_error e

  pub ask_post :
      {A : Type 0} (call : Call E.State A) (k : A → Action E B) (s : World E)
      → ((a : A)
          → (call s.outside).0 ≡ value a
          → Post (k a) (record s { outside = (call s.outside).1 }) Q)
      → ((e : Error)
          → (call s.outside).0 ≡ error e
          → Q (err e) (record s { outside = (call s.outside).1 }))
      → Post (ask call >>= k) s Q
  unfolding ask ◌>>=◌
  ask_post {A} call k s on_answer on_error =
      go (call s.outside).0 (call s.outside).1 on_answer on_error
    where
      go :
          (r : Result A) (after : E.State)
          → ((a : A) → r ≡ value a → Post (k a) (record s { outside = after }) Q)
          → ((e : Error) → r ≡ error e → Q (err e) (record s { outside = after }))
          → Post (lift r >>= k) (record s { outside = after }) Q
      go (value a) after on_answer on_error = on_answer a refl
      go (error e) after on_answer on_error = on_error e refl

module _ {E : Env} {A B : Type 0} (Q : Outcome B → World E → Type 0) where
  -- A first part that leaves nothing in the trace.
  pub quiet_post :
      (m : Action E A) (k : A → Action E B) (s : World E)
      → IsQuiet m
      → ((a : A) (t : World E) → t.trace ≡ s.trace → Post (k a) t Q)
      → ((e : Error) (t : World E) → t.trace ≡ s.trace → Q (err e) t)
      → ((t : World E) → t.trace ≡ s.trace → Q crash t)
      → ((t : World E) → t.trace ≡ s.trace → Q unfinished t)
      → Post (m >>= k) s Q
  unfolding ◌>>=◌
  quiet_post m k s quiet on_ok on_err on_crash on_unfinished = go (m s).0 (m s).1 (quiet.at s)
    where
      go : (o : Outcome A) (t : World E) → t.trace ≡ s.trace → Post (continue o k) t Q
      go (ok a) t same = on_ok a t same
      go (err e) t same = on_err e t same
      go crash t same = on_crash t same
      go unfinished t same = on_unfinished t same
