-- ===== src/Bridge/Start/Allowed.antt =====
-- The protocol of the daemon: what must stand below an entry of the trace.
use tfchain_tft_bridge.Prelude.{ℕ, ℤ, true, false, ◌≡◌, [], ◌∷◌, Text}
use tfchain_tft_bridge.Exec.{Outcome, ok, err, crash, unfinished}
use tfchain_tft_bridge.Env.Types.{AccountId}
use tfchain_tft_bridge.World.{
  Request, Trace, is_minted, is_refunded, is_burned, propose_mint, propose_burn, set_burn_executed,
  create_refund, set_refund_executed, submit, save, unanswered,
}
use tfchain_tft_bridge.Substrate.Client.Trace.{
  Tries, start, failed, denied, no_answer, IsSettled, by_attempt, by_answer, Retried,
}
use tfchain_tft_bridge.Bridge.Withdraw.{mint_id}

module _ {Tx : Type 0} (expired : ℕ → Type 0) where
  -- Where the cursor may be saved: behind an accepted mint, behind a refund that is proposed or done,
  -- and for a transaction that is not minted.
  pub data MaySave : Trace Tx → Type 0 where
    minted :
        (hash : Text) (account : AccountId) (amount : ℤ) (old t : Trace Tx)
        → IsSettled
            (propose_mint hash account amount)
            (is_minted hash)
            ((is_minted hash, false) ∷ old)
            t
        → MaySave t
    proposed :
        (hash target : Text) (amount : ℤ) (signature address : Text) (sequence : ℕ)
        (old t : Trace Tx)
        → IsSettled
            (create_refund hash target amount signature address sequence)
            (is_refunded hash)
            ((is_refunded hash, false) ∷ old)
            t
        → MaySave t
    refunded : (hash : Text) (old t : Trace Tx) → t ≡ (is_refunded hash, true) ∷ old → MaySave t
    returned : (hash : Text) (old t : Trace Tx) → t ≡ (is_minted hash, false) ∷ old → MaySave t

  -- Where the chain may be told that a withdrawal is executed: behind a payment that Stellar accepted
  -- directly behind the answer that the withdrawal is not burned; behind the accepted mint that gives
  -- it back; and for a withdrawal that expired.
  pub data MayExecute (id : ℕ) (t : Trace Tx) : Type 0 where
    paid :
        (tx : Tx) (old : Trace Tx)
        → Tries
            (set_burn_executed id)
            (is_burned id)
            ((submit tx, true) ∷ (is_burned id, false) ∷ old)
            t
        → MayExecute id t
    given_back :
        (account : AccountId) (amount : ℤ) (old between : Trace Tx)
        → IsSettled
            (propose_mint (mint_id id) account amount)
            (is_minted (mint_id id))
            ((is_minted (mint_id id), false) ∷ old)
            between
        → Tries (set_burn_executed id) (is_burned id) between t
        → MayExecute id t
    has_expired : expired id → MayExecute id t

  pub data MaySubmit (t : Trace Tx) : Type 0 where
    not_burned : (id : ℕ) (old : Trace Tx) → t ≡ (is_burned id, false) ∷ old → MaySubmit t
    not_refunded :
        (hash : Text) (old : Trace Tx) → t ≡ (is_refunded hash, false) ∷ old → MaySubmit t

  pub data MayPropose (id : ℕ) (c : Request Tx) (t : Trace Tx) : Type 0 where
    not_burned :
        (old : Trace Tx)
        → Tries c (is_burned id) ((is_burned id, false) ∷ old) t
        → MayPropose id c t
    has_expired : expired id → MayPropose id c t

  -- What stands below a request. Questions may be asked at any time.
  abbrev pub Allowed : Request Tx → Trace Tx → Type 0
  Allowed (is_minted _) t = Unit
  Allowed (is_refunded _) t = Unit
  Allowed (is_burned _) t = Unit
  Allowed (propose_mint hash account amount) t =
      (old : Trace Tx) × Tries (propose_mint hash account amount) (is_minted hash)
        ((is_minted hash, false) ∷ old) t
  Allowed (propose_burn id target amount signature address sequence) t =
      MayPropose id (propose_burn id target amount signature address sequence) t
  Allowed (set_burn_executed id) t = MayExecute id t
  Allowed (create_refund hash target amount signature address sequence) t =
      (old : Trace Tx) × Tries (create_refund hash target amount signature address sequence)
        (is_refunded hash) ((is_refunded hash, false) ∷ old) t
  Allowed (set_refund_executed hash) t =
      (tx : Tx) × (question : Text) × (old : Trace Tx) × Tries (set_refund_executed hash)
        (is_refunded hash) ((submit tx, true) ∷ (is_refunded question, false) ∷ old) t
  Allowed (submit tx) t = MaySubmit t
  Allowed (save b) t = MaySave t
  Allowed (unanswered _) t = Unit

  -- Every entry of a trace is allowed by what stands below it.
  abbrev pub IsSafe : Trace Tx → Type 0
  IsSafe [] = Unit
  IsSafe ((request, flag) ∷ t) = Allowed request t × IsSafe t

  module _ (c q : Request Tx) (old : Trace Tx)
      (c_allowed : (t : Trace Tx) → Tries c q old t → Allowed c t)
      (q_allowed : (t : Trace Tx) → Allowed q t) where
    pub IsSafe-Tries : {t : Trace Tx} → Tries c q old t → IsSafe old → IsSafe t
    IsSafe-Tries start h = h
    IsSafe-Tries (failed {t = t} r) h = (c_allowed t r, IsSafe-Tries r h)
    IsSafe-Tries (denied {t = t} r) h = (q_allowed t, IsSafe-Tries r h)
    IsSafe-Tries (no_answer {t = t} r) h = (tt, IsSafe-Tries r h)

    pub IsSafe-IsSettled : {t : Trace Tx} → IsSettled c q old t → IsSafe old → IsSafe t
    IsSafe-IsSettled (by_attempt {t = t} r) h = (c_allowed t r, IsSafe-Tries r h)
    IsSafe-IsSettled (by_answer {t = t} r) h = (q_allowed t, IsSafe-Tries r h)

    pub IsSafe-Retried :
        (o : Outcome Unit) (t : Trace Tx) → Retried c q old o t → IsSafe old → IsSafe t
    IsSafe-Retried (ok _) t r h = IsSafe-IsSettled r h
    IsSafe-Retried (err _) t r h = IsSafe-Tries r h
    IsSafe-Retried crash t r h = IsSafe-Tries r h
    IsSafe-Retried unfinished t r h = IsSafe-Tries r h
