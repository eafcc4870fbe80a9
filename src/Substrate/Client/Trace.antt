-- ===== src/Substrate/Client/Trace.antt =====
-- What a retried call leaves in the trace.
use tfchain_tft_bridge.Prelude.{Bool, true, false, ◌≡◌, refl, ◌∷◌}
use tfchain_tft_bridge.Errors.{Result, value, error, succeeded}
use tfchain_tft_bridge.Exec.{Outcome, ok, is_ok, lift}
use tfchain_tft_bridge.Env.{Env, Call}
use tfchain_tft_bridge.World.{World, Request, unanswered, Entry, Trace, told, question, perform}

-- Attempts `c` that failed, and questions `q` that were answered with no or not at all, on top of
-- `old`.
pub data Tries {Tx : Type 0} (c q : Request Tx) (old : Trace Tx) : Trace Tx → Type 0 where
  start : Tries c q old old
  failed : {t : Trace Tx} → Tries c q old t → Tries c q old ((c, false) ∷ t)
  denied : {t : Trace Tx} → Tries c q old t → Tries c q old ((q, false) ∷ t)
  no_answer : {t : Trace Tx} → Tries c q old t → Tries c q old ((unanswered q, false) ∷ t)

-- Behind such attempts one succeeded, or the question was answered with yes.
pub data IsSettled {Tx : Type 0} (c q : Request Tx) (old : Trace Tx) : Trace Tx → Type 0 where
  by_attempt : {t : Trace Tx} → Tries c q old t → IsSettled c q old ((c, true) ∷ t)
  by_answer : {t : Trace Tx} → Tries c q old t → IsSettled c q old ((q, true) ∷ t)

abbrev pub Retried :
    {Tx : Type 0} → Request Tx → Request Tx → Trace Tx → Outcome Unit → Trace Tx → Type 0
Retried c q old (ok _) t = IsSettled c q old t
Retried c q old _ t = Tries c q old t

-- The entry of a question by its outcome.
abbrev pub said : {Tx : Type 0} → Request Tx → Outcome Bool → Entry Tx
said q (ok answer) = (q, answer)
said q _ = (unanswered q, false)

-- The question is the one entry more in the trace, and the sequence number is as it was.
pub record Asks (E : Env) (q : Request E.Tx) (o : Outcome Bool) (w w' : World E) : Type 0 where
  pub trace : w'.trace ≡ said q o ∷ w.trace
  pub sequence_number : w'.sequence_number ≡ w.sequence_number

-- One entry more in the trace, and the sequence number as it was.
pub record Logs (E : Env) (c : Request E.Tx) (flag : Bool) (w w' : World E) : Type 0 where
  pub trace : w'.trace ≡ (c, flag) ∷ w.trace
  pub sequence_number : w'.sequence_number ≡ w.sequence_number

module _ (E : Env) (c : Request E.Tx) where
  lift-Logs :
      {A : Type 0} (r : Result A) (s : E.State) (w : World E)
      → let after : World E = record w { outside = s; trace = (c, succeeded r) ∷ w.trace } in
        Logs E c (is_ok (lift r after).0) w (lift r after).1
  unfolding lift
  lift-Logs (value a) s w = record { trace = refl; sequence_number = refl }
  lift-Logs (error e) s w = record { trace = refl; sequence_number = refl }

  pub perform-Logs :
      {A : Type 0} (call : Call E.State A) (w : World E)
      → Logs E c (is_ok (perform E c succeeded call w).0) w (perform E c succeeded call w).1
  unfolding perform
  perform-Logs call w = lift-Logs (call w.outside).0 (call w.outside).1 w

  lift-Asks :
      (r : Result Bool) (s : E.State) (w : World E)
      → let after : World E = record w { outside = s; trace = told c r ∷ w.trace } in
        Asks E c (lift r after).0 w (lift r after).1
  unfolding lift
  lift-Asks (value a) s w = record { trace = refl; sequence_number = refl }
  lift-Asks (error e) s w = record { trace = refl; sequence_number = refl }

  pub question-Asks :
      (call : Call E.State Bool) (w : World E)
      → Asks E c (question E (told c) call w).0 w (question E (told c) call w).1
  unfolding question
  question-Asks call w = lift-Asks (call w.outside).0 (call w.outside).1 w
