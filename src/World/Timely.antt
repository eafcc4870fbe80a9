-- ===== src/World/Timely.antt =====
-- Actions that end before the context does: one rule for each way to build one.
use tfchain_tft_bridge.Prelude.{
  ℕ, ℤ, ◌≤◌, ◌<◌, Bool, true, false, ◌≡◌, ◌⊎◌, arith, ◌∷◌, if◌then◌else◌, Text,
}
use tfchain_tft_bridge.Errors.{Error, Result, value, error}
use tfchain_tft_bridge.Exec.{
  Outcome, ok, err, crash, unfinished, pure, raise, abort, lift, try, caught, wrapped, wrapping,
  continue, ◌>>=◌,
}
use tfchain_tft_bridge.Env.{Env, Call}
use tfchain_tft_bridge.Env.Types.{AccountId, HorizonClient}
use tfchain_tft_bridge.World.{World, Action, Request, Entry, ask, perform, question}

-- A bound on the rounds of waiting that are left until the running context ends. Each wait ends
-- with the context done, or uses up one round.
pub record Deadline (E : Env) : Type 0 where
  pub left : E.State → ℕ
  pub wait_ends :
      (s : E.State)
      → (((E.wait s).0 ≡ true) × (left (E.wait s).1 ≤ left s)) ⊎ (left (E.wait s).1 < left s)

-- A Go call has ended: it has returned or panicked.
abbrev pub Ended : {A : Type 0} → Outcome A → Type 0
Ended (ok _) = Unit
Ended (err _) = Unit
Ended crash = Unit
Ended unfinished = ⊥

module _ {E : Env} (d : Deadline E) where
  -- A call that does not put the deadline off.
  pub record IsShort {A : Type 0} (c : Call E.State A) : Type 0 where
    pub at : (s : E.State) → d.left (c s).1 ≤ d.left s

  -- An action that ends and does not put the deadline off, if fewer than `bound` rounds are left.
  pub record IsTimely (bound : ℕ) {A : Type 0} (m : Action E A) : Type 0 where
    pub at :
        (w : World E)
        → d.left w.outside < bound
        → Ended (m w).0 × (d.left (m w).1.outside ≤ d.left w.outside)

-- No call of the handlers of events puts the deadline off.
pub record IsSteady {E : Env} (d : Deadline E) : Type 0 where
  pub is_minted_already : (hash : Text) → IsShort d (E.is_minted_already hash)
  pub is_refunded_already : (hash : Text) → IsShort d (E.is_refunded_already hash)
  pub is_burned_already : (id : ℕ) → IsShort d (E.is_burned_already id)
  pub propose_or_vote_mint_transaction :
      (identity : E.Identity) (hash : Text) (target : AccountId) (amount : ℤ)
      → IsShort d (E.propose_or_vote_mint_transaction identity hash target amount)
  pub propose_burn_transaction_or_add_sig :
      (identity : E.Identity) (id : ℕ) (target : Text) (amount : ℤ) (signature address : Text)
      (sequence : ℕ)
      → IsShort d (
          E.propose_burn_transaction_or_add_sig identity id target amount signature address
            sequence)
  pub set_burn_transaction_executed :
      (identity : E.Identity) (id : ℕ) → IsShort d (E.set_burn_transaction_executed identity id)
  pub create_refund_transaction_or_add_sig :
      (identity : E.Identity) (hash target : Text) (amount : ℤ) (signature address : Text)
      (sequence : ℕ)
      → IsShort d (
          E.create_refund_transaction_or_add_sig identity hash target amount signature address
            sequence)
  pub set_refund_transaction_executed :
      (identity : E.Identity) (hash : Text)
      → IsShort d (E.set_refund_transaction_executed identity hash)
  pub get_burn_transaction : (id : ℕ) → IsShort d (E.get_burn_transaction id)
  pub get_refund_transaction : (hash : Text) → IsShort d (E.get_refund_transaction hash)
  pub account_detail :
      (client : HorizonClient) (address : Text) → IsShort d (E.account_detail client address)
  pub submit_transaction :
      (client : HorizonClient) (tx : E.Tx) → IsShort d (E.submit_transaction client tx)

module _ {E : Env} (d : Deadline E) (bound : ℕ) where
  module _ {A : Type 0} where
    pub IsTimely-pure : (a : A) → IsTimely d bound (pure a)
    unfolding pure
    IsTimely-pure a = record { at = λ w h. (tt, omega arith) }

    pub IsTimely-raise : (e : Error) → IsTimely d bound {A = A} (raise e)
    unfolding raise
    IsTimely-raise e = record { at = λ w h. (tt, omega arith) }

    pub IsTimely-abort : IsTimely d bound {A = A} abort
    unfolding abort
    IsTimely-abort = record { at = λ w h. (tt, omega arith) }

    lift_at :
        (r : Result A) (w : World E)
        → Ended (lift r w).0 × (d.left (lift r w).1.outside ≤ d.left w.outside)
    unfolding lift
    lift_at (value a) w = (tt, omega arith)
    lift_at (error e) w = (tt, omega arith)

    pub IsTimely-lift : (r : Result A) → IsTimely d bound (lift r)
    IsTimely-lift r = record { at = λ w h. lift_at r w }

    pub IsTimely-ask : (c : Call E.State A) → IsShort d c → IsTimely d bound (ask c)
    unfolding ask
    IsTimely-ask c short = record {
      at = λ w h.
          let l = lift_at (c w.outside).0 (record w { outside = (c w.outside).1 }) in
          let s = short.at w.outside in (l.0, omega (arith, l.1, s));
    }

    pub IsTimely-perform :
        (q : Request E.Tx) (flag : Result A → Bool) (c : Call E.State A)
        → IsShort d c
        → IsTimely d bound (perform E q flag c)
    unfolding perform
    IsTimely-perform q flag c short = record {
      at = λ w h.
          let l =
            lift_at (c w.outside).0 (record w {
              outside = (c w.outside).1;
              trace = (q, flag (c w.outside).0) ∷ w.trace;
            }) in
          let s = short.at w.outside in (l.0, omega (arith, l.1, s));
    }

    pub IsTimely-if :
        (b : Bool) (m n : Action E A)
        → IsTimely d bound m
        → IsTimely d bound n
        → IsTimely d bound (if b then m else n)
    IsTimely-if true m n tm tn = tm
    IsTimely-if false m n tm tn = tn

    Ended-caught : (o : Outcome A) → Ended o → Ended (caught o)
    Ended-caught (ok a) h = tt
    Ended-caught (err e) h = tt
    Ended-caught crash h = tt
    Ended-caught unfinished h = h

    pub IsTimely-try : (m : Action E A) → IsTimely d bound m → IsTimely d bound (try m)
    unfolding try
    IsTimely-try m t = record { at = λ w h. (Ended-caught (m w).0 (t.at w h).0, (t.at w h).1) }

    Ended-wrapped : (t : Text) (o : Outcome A) → Ended o → Ended (wrapped t o)
    Ended-wrapped t (ok a) h = tt
    Ended-wrapped t (err e) h = tt
    Ended-wrapped t crash h = tt
    Ended-wrapped t unfinished h = h

    pub IsTimely-wrapping :
        (x : Text) (m : Action E A) → IsTimely d bound m → IsTimely d bound (wrapping x m)
    unfolding wrapping
    IsTimely-wrapping x m t = record {
      at = λ w h. (Ended-wrapped x (m w).0 (t.at w h).0, (t.at w h).1);
    }

  module _ {A B : Type 0} where
    continue_at :
        (f : A → Action E B) (o : Outcome A) (w : World E)
        → ((a : A) → IsTimely d bound (f a))
        → Ended o
        → d.left w.outside < bound
        → Ended (continue o f w).0 × (d.left (continue o f w).1.outside ≤ d.left w.outside)
    continue_at f (ok a) w t e h = (t a).at w h
    continue_at f (err x) w t e h = (tt, omega arith)
    continue_at f crash w t e h = (tt, omega arith)
    continue_at f unfinished w t e h = absurd e

    pub IsTimely-bind :
        (m : Action E A) (f : A → Action E B)
        → IsTimely d bound m
        → ((a : A) → IsTimely d bound (f a))
        → IsTimely d bound (m >>= f)
    unfolding ◌>>=◌
    IsTimely-bind m f t tf = record {
      at = λ w h.
          let first = t.at w h in
          let rest = continue_at f (m w).0 (m w).1 tf first.0 (omega (arith, first.1)) in
          (rest.0, omega (arith, first.1, rest.1));
    }

module _ {E : Env} (d : Deadline E) (bound : ℕ) where
  pub IsTimely-question :
      (entry : Result Bool → Entry E.Tx) (c : Call E.State Bool)
      → IsShort d c
      → IsTimely d bound (question E entry c)
  unfolding question
  IsTimely-question entry c short = record {
    at = λ w h.
        let l =
          lift_at d bound (c w.outside).0
            (record w { outside = (c w.outside).1; trace = entry (c w.outside).0 ∷ w.trace }) in
        let s = short.at w.outside in (l.0, omega (arith, l.1, s));
  }

pub ruleset timely_rules = (
  IsTimely-pure, IsTimely-raise, IsTimely-abort, IsTimely-lift, IsTimely-ask, IsTimely-perform,
  IsTimely-if, IsTimely-try, IsTimely-wrapping, IsTimely-bind,
)
