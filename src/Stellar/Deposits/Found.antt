-- ===== src/Stellar/Deposits/Found.antt =====
-- What `processTransaction` of tfchain_bridge/pkg/stellar/stellar.go finds in a transaction.
use tfchain_tft_bridge.Prelude.{
  ℕ, ◌+◌, ◌≡◌, refl, sym, ap, append_assoc, append-nil, ◌∙◌, Bool, true, false, Option, none, some,
  List, [], ◌∷◌, ◌++◌, Text, All, if◌then◌else◌,
}
use tfchain_tft_bridge.Errors.{Error, Result, value, error}
use tfchain_tft_bridge.Exec.{Outcome, ok, err, caught, try, pure, ◌>>=◌}
use tfchain_tft_bridge.Exec.Rules.{Post}
use tfchain_tft_bridge.Config.{StellarConfig}
use tfchain_tft_bridge.Env.{Env}
use tfchain_tft_bridge.Env.Types.{Transaction, Effect, Operation}
use tfchain_tft_bridge.World.{World}
use tfchain_tft_bridge.World.Calm.{IsCalm, calm_rules, calm_try_post, calm_post}
use tfchain_tft_bridge.Stellar.Deposits.{
  Senders, MintEvent, collect, is_skipped, get_transaction_effects, get_operation_effect,
  after_collect, after_operations, mint_events, process_transaction,
}
use tfchain_tft_bridge.Stellar.Deposits.Ledger.{
  IsLedger, IsPayment, IsCollected, collect-IsCollected,
}

-- How many effects are taken for a deposit.
abbrev pub credits : StellarConfig → List Effect → ℕ
credits config [] = 0
credits config (effect ∷ effects) =
    (if is_skipped config effect then 0 else 1) + credits config effects

module _ {E : Env} (config : StellarConfig) where
  pub get_operation_effect-IsCalm :
      (hash : Text) → IsCalm (get_operation_effect {E = E} config hash)
  unfolding get_operation_effect
  get_operation_effect-IsCalm hash = search calm_rules

  pub get_transaction_effects-IsCalm :
      (hash : Text) → IsCalm (get_transaction_effects {E = E} config hash)
  unfolding get_transaction_effects
  get_transaction_effects-IsCalm hash = search calm_rules

module _ (E : Env) (config : StellarConfig) (tx : Transaction) where
  -- An event of the transaction whose senders are those of the operations that Horizon gave.
  pub record IsDeposit (event : MintEvent) : Type 0 where
    pub of_tx : event.tx ≡ tx
    pub no_error : event.err ≡ none
    pub operations : List Operation
    pub asked : World E
    pub answered :
        caught (get_operation_effect {E = E} config tx.hash asked).0 ≡ ok (value operations)
    pub ledger : IsLedger E config.stellar_bridge_account operations [] event.senders

  -- The events for some effects: one for each that is taken for a deposit, in the same order, but for
  -- those at which Horizon did not give the operations.
  pub data Finds : List Effect → List MintEvent → Type 0 where
    finished : Finds [] []
    passed_over :
        {effect : Effect} {effects : List Effect} {events : List MintEvent}
        → is_skipped config effect ≡ true
        → Finds effects events
        → Finds (effect ∷ effects) events
    no_operations :
        {effect : Effect} {effects : List Effect} {events : List MintEvent}
        → is_skipped config effect ≡ false
        → (asked : World E) (e : Error)
        → caught (get_operation_effect {E = E} config tx.hash asked).0 ≡ ok (error e)
        → Finds effects events
        → Finds (effect ∷ effects) events
    deposit :
        {effect : Effect} {effects : List Effect} {event : MintEvent} {events : List MintEvent}
        → is_skipped config effect ≡ false
        → IsDeposit event
        → Finds effects events
        → Finds (effect ∷ effects) (event ∷ events)

  -- What the loop over the effects does behind the events found before, and that it changes nothing that
  -- the daemon keeps: it returns them and those for the effects; or no event at all, since not all the
  -- operations are payments.
  pub data Found (before : List MintEvent) (effects : List Effect) (s : World E)
      (o : Outcome (List MintEvent)) (t : World E) : Type 0 where
    all_found :
        (events : List MintEvent)
        → o ≡ ok (before ++ events)
        → Finds effects events
        → t.trace ≡ s.trace
        → t.sequence_number ≡ s.sequence_number
        → Found before effects s o t
    not_payments :
        (operations : List Operation) (asked : World E)
        → o ≡ ok []
        → caught (get_operation_effect {E = E} config tx.hash asked).0 ≡ ok (value operations)
        → ¬ All IsPayment operations
        → t.trace ≡ s.trace
        → t.sequence_number ≡ s.sequence_number
        → Found before effects s o t

  Found-without :
      (before : List MintEvent) (effect : Effect) (effects : List Effect) (s t : World E)
      (o : Outcome (List MintEvent))
      → ((events : List MintEvent) → Finds effects events → Finds (effect ∷ effects) events)
      → Found before effects s o t
      → Found before (effect ∷ effects) s o t
  Found-without before effect effects s t o more (all_found events e f same n) =
      all_found events e (more events f) same n
  Found-without before effect effects s t o more (not_payments ops asked e a p same n) =
      not_payments ops asked e a p same n

  Found-with :
      (before : List MintEvent) (event : MintEvent) (effect : Effect) (effects : List Effect)
      (s t : World E) (o : Outcome (List MintEvent))
      → is_skipped config effect ≡ false
      → IsDeposit event
      → Found (before ++ event ∷ []) effects s o t
      → Found before (effect ∷ effects) s o t
  Found-with before event effect effects s t o taken h (all_found events e f same n) =
      all_found (event ∷ events) (e ∙ ap ok (append_assoc before (event ∷ []) events))
        (deposit taken h f) same n
  Found-with before event effect effects s t o taken h (not_payments ops asked e a p same n) =
      not_payments ops asked e a p same n

  abbrev Loop : List Effect → Type 0
  Loop effects =
      (before : List MintEvent) (s t : World E)
      → t.trace ≡ s.trace
      → t.sequence_number ≡ s.sequence_number
      → Post (mint_events config tx effects before) t (Found before effects s)

  after_operations-Found :
      (effect : Effect) (effects : List Effect)
      → Loop effects
      → is_skipped config effect ≡ false
      → (before : List MintEvent) (s t : World E) → t.trace ≡ s.trace
      → t.sequence_number ≡ s.sequence_number
      → (r : Result (List Operation)) (asked : World E)
      → caught (get_operation_effect {E = E} config tx.hash asked).0 ≡ ok r
      → Post
          (after_operations config tx (mint_events config tx effects) before r)
          t
          (Found before (effect ∷ effects) s)
  unfolding after_operations
  after_operations-Found effect effects again taken before s t same n (error x) asked answered =
      Found-without before effect effects s _ _ (λ events f. no_operations taken asked x answered f)
        (again before s t same n)
  after_operations-Found effect effects again taken before s t same n (value ops) asked answered =
      go (collect E config.stellar_bridge_account ops [])
        (collect-IsCollected E config.stellar_bridge_account ops)
    where
      go :
          (r : Option Senders)
          → IsCollected E config.stellar_bridge_account ops r
          → Post
              (after_collect config tx (mint_events config tx effects) before r)
              t
              (Found before (effect ∷ effects) s)
      go none c = unfold pure in not_payments ops asked refl answered c same n
      go (some senders) c =
          let event : MintEvent = record { senders = senders; tx = tx; err = none } in
          Found-with before event effect effects s _ _ taken
            (record {
              of_tx = refl;
              no_error = refl;
              operations = ops;
              asked = asked;
              answered = answered;
              ledger = c;
            })
            (again (before ++ event ∷ []) s t same n)

  mint_events-Found : (effects : List Effect) → Loop effects
  unfolding mint_events
  mint_events-Found [] before s t same n =
      unfold pure in all_found [] (ap ok (sym (append-nil before))) finished same n
  mint_events-Found (effect ∷ effects) before s t same n =
      go (mint_events-Found effects) (is_skipped config effect) refl
    where
      go :
          Loop effects
          → (skipped : Bool) → is_skipped config effect ≡ skipped
          → Post
              (if skipped then mint_events config tx effects before else do
                ops ← try (get_operation_effect config tx.hash)
                after_operations config tx (mint_events config tx effects) before ops)
              t
              (Found before (effect ∷ effects) s)
      go again true e =
          Found-without before effect effects s _ _ (λ events f. passed_over e f)
            (again before s t same n)
      go again false e =
          calm_try_post (Found before (effect ∷ effects) s) (get_operation_effect config tx.hash) _
            t (get_operation_effect-IsCalm config tx.hash)
            (λ r t' same' n' answered.
              after_operations-Found effect effects again e before s t' (same' ∙ same) (n' ∙ n) r t
                answered)

  -- What `processTransaction` gives for a transaction.
  pub data Processes (s : World E) (o : Outcome (List MintEvent)) (t : World E) : Type 0 where
    unsuccessful :
        tx.successful ≡ false
        → o ≡ ok []
        → t.trace ≡ s.trace
        → t.sequence_number ≡ s.sequence_number
        → Processes s o t
    no_effects :
        (e : Error)
        → tx.successful ≡ true
        → (get_transaction_effects {E = E} config tx.hash s).0 ≡ err e
        → o ≡ err e
        → t.trace ≡ s.trace
        → t.sequence_number ≡ s.sequence_number
        → Processes s o t
    found :
        (effects : List Effect)
        → tx.successful ≡ true
        → (get_transaction_effects {E = E} config tx.hash s).0 ≡ ok effects
        → Found [] effects s o t
        → Processes s o t

  -- `processTransaction` gives no event for a transaction that was not successful, and fails with the
  -- error of the effects if it does not get them. Otherwise it returns one event for each effect that
  -- it does not skip, in the order of the effects, but for those at which Horizon did not give the
  -- operations; or no event, if Horizon gave operations that are not all payments. Each event is one
  -- of that transaction and holds a map in which no sender stands twice, with the sums of the payments
  -- to the bridge account among the operations that Horizon gave. It changes nothing that the daemon
  -- keeps.
  pub process_transaction-Processes :
      (s : World E) → Post (process_transaction config tx) s (Processes s)
  unfolding process_transaction
  process_transaction-Processes s = go tx.successful refl
    where
      go :
          (successful : Bool)
          → tx.successful ≡ successful
          → Post
              (if successful
                then (do
                  effects ← get_transaction_effects config tx.hash
                  mint_events config tx effects [])
                else pure [])
              s
              (Processes s)
      go false e = unfold pure in unsuccessful e refl refl refl
      go true e =
          calm_post (Processes s) (get_transaction_effects config tx.hash) _ s
            (get_transaction_effects-IsCalm config tx.hash)
            (λ effects t same n answered.
              found effects e answered (mint_events-Found effects [] s t same n))
            (λ x t same n answered. no_effects x e answered refl same n)
