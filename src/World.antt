-- ===== src/World.antt =====
-- The state that the handlers of the daemon change: what lies outside, the wallet's sequence
-- number, and a record of the calls that matter to the money, the newest first.
pub mod Calls
pub mod Quiet
pub mod Rules
pub mod Calm
pub mod Timely
use tfchain_tft_bridge.Prelude.{ℕ, ℤ, Bool, false, List, ◌∷◌, Text, if◌then◌else◌}
use tfchain_tft_bridge.Errors.{
  Error, mint_transaction_not_found, is_error, Result, value, error, succeeded,
}
use tfchain_tft_bridge.Exec.{Outcome, ok, err, Exec, lift}
use tfchain_tft_bridge.Env.{Env, Call}
use tfchain_tft_bridge.Env.Types.{AccountId, Blockheight}

-- A question or an action, with its arguments.
pub data Request (Tx : Type 0) : Type 0 where
  is_minted : Text → Request Tx
  is_refunded : Text → Request Tx
  is_burned : ℕ → Request Tx
  propose_mint : Text → AccountId → ℤ → Request Tx
  propose_burn : ℕ → Text → ℤ → Text → Text → ℕ → Request Tx
  set_burn_executed : ℕ → Request Tx
  create_refund : Text → Text → ℤ → Text → Text → ℕ → Request Tx
  set_refund_executed : Text → Request Tx
  submit : Tx → Request Tx
  save : Blockheight → Request Tx
  -- A question that was asked and not answered.
  unanswered : Request Tx → Request Tx

-- The flag is the answer to a question, or says whether an action succeeded. It is false beside
-- `unanswered`.
abbrev pub Entry : Type 0 → Type 0
Entry Tx = Request Tx × Bool

abbrev pub Trace : Type 0 → Type 0
Trace Tx = List (Entry Tx)

pub record World (E : Env) : Type 0 where
  pub outside : E.State
  -- `sequenceNumber` of the wallet, an int64.
  pub sequence_number : ℤ
  pub trace : Trace E.Tx

-- What a handler is.
abbrev pub Action : Env → Type 0 → Type 0
Action E A = Exec (World E) A

module _ {E : Env} where
  -- A call that leaves no entry.
  unfoldable pub ask : {A : Type 0} → Call E.State A → Action E A
  ask c w = let (r, s) = c w.outside in lift r (record w { outside = s })

-- The entry of a question whose error is no answer.
abbrev pub told : {Tx : Type 0} → Request Tx → Result Bool → Entry Tx
told q (value answer) = (q, answer)
told q (error e) = (unanswered q, false)

-- The entry of the question for a mint: the error that the client library has for a mint that it does
-- not find is the answer no.
abbrev pub told_mint : {Tx : Type 0} → Request Tx → Result Bool → Entry Tx
told_mint q (value answer) = (q, answer)
told_mint q (error e) =
    if is_error e mint_transaction_not_found then (q, false) else (unanswered q, false)

-- A question leaves its entry.
unfoldable pub question : (E : Env) → (Result Bool → Entry E.Tx) → Call E.State Bool → Action E Bool
question E entry c w =
    let (r, s) = c w.outside in lift r (record w { outside = s; trace = entry r ∷ w.trace })

-- An action that leaves an entry.
unfoldable pub perform :
    (E : Env) {A : Type 0} → Request E.Tx → (Result A → Bool) → Call E.State A → Action E A
perform E q flag c w =
    let (r, s) = c w.outside in lift r (record w { outside = s; trace = (q, flag r) ∷ w.trace })
