-- ===== src/Stellar/Deposits/Count.antt =====
-- How many events `processTransaction` of tfchain_bridge/pkg/stellar/stellar.go finds.
use tfchain_tft_bridge.Prelude.{
  ℕ, ◌+◌, ◌≡◌, ◌≢◌, refl, Bool, true, false, Option, none, some, List, [], ◌∷◌, arith, length,
  length-append, All, if◌then◌else◌,
}
use tfchain_tft_bridge.Exec.{Exec, Outcome, ok, try, pure, ◌>>=◌}
use tfchain_tft_bridge.Config.{StellarConfig}
use tfchain_tft_bridge.Env.{Env}
use tfchain_tft_bridge.Env.Types.{Transaction, Effect, Operation}
use tfchain_tft_bridge.World.{World}
use tfchain_tft_bridge.Stellar.Deposits.{
  Senders, MintEvent, is_skipped, get_transaction_effects, get_operation_effect, after_collect,
  after_operations, mint_events, process_transaction,
}
use tfchain_tft_bridge.Stellar.Deposits.Ledger.{IsPayment, collect-ne-none}
use tfchain_tft_bridge.Stellar.Deposits.Found.{credits}

-- A return of that many events.
abbrev pub Counts : ℕ → Outcome (List MintEvent) → Type 0
Counts n o = (events : List MintEvent) × (o ≡ ok events) × (length events ≡ n)

module _ {E : Env} (config : StellarConfig) (tx : Transaction)
    (payments : (w : World E)
      → (ops : List Operation) × ((get_operation_effect {E = E} config tx.hash w).0 ≡ ok ops)
        × All IsPayment ops) where
  after_collect-Counts :
      (again : List MintEvent → Exec (World E) (List MintEvent)) (events : List MintEvent) (n : ℕ)
      (r : Option Senders) (w : World E)
      → r ≢ none
      → ((more : List MintEvent) → length more ≡ 1 + length events → Counts n (again more w).0)
      → Counts n (after_collect config tx again events r w).0
  unfolding after_collect
  after_collect-Counts again events n none w some_map goes_on = absurd (some_map refl)
  after_collect-Counts again events n (some senders) w some_map goes_on =
      goes_on _ (
        omega
          (arith, length-append events (record { senders = senders; tx = tx; err = none } ∷ [])))

  abbrev Loops : List Effect → Type 0
  Loops effects =
      (events : List MintEvent) (w : World E)
      → Counts (length events + credits config effects) (mint_events config tx effects events w).0

  operations-Counts :
      (effects : List Effect) (events : List MintEvent) (w : World E)
      → Loops effects
      → Counts
          (length events + (1 + credits config effects))
          ((try (get_operation_effect config tx.hash)
              >>= after_operations config tx (mint_events config tx effects) events)
            w).0
  unfolding ◌>>=◌ try after_operations
  operations-Counts effects events w ih =
      let p = payments w in
      let v : World E = (get_operation_effect {E = E} config tx.hash w).1 in
      rw (p.1) (
        after_collect-Counts (mint_events config tx effects) events _ _ v
          (collect-ne-none E config.stellar_bridge_account p.0 [] p.2)
          (λ more n. let c = ih more v in (c.0, c.1, omega (arith, c.2, n))))

  effect-Counts :
      (skipped : Bool) (effects : List Effect) (events : List MintEvent) (w : World E)
      → Loops effects
      → Counts
          (length events + ((if skipped then 0 else 1) + credits config effects))
          ((if skipped
              then mint_events config tx effects events
              else (try (get_operation_effect config tx.hash)
                  >>= after_operations config tx (mint_events config tx effects) events))
            w).0
  effect-Counts true effects events w ih = let c = ih events w in (c.0, c.1, omega (arith, c.2))
  effect-Counts false effects events w ih = operations-Counts effects events w ih

  mint_events-Counts : (effects : List Effect) → Loops effects
  unfolding mint_events pure
  mint_events-Counts [] events w = (events, refl, omega arith)
  mint_events-Counts (effect ∷ effects) events w =
      effect-Counts (is_skipped config effect) effects events w (mint_events-Counts effects)

  -- If Horizon always gives the operations of the transaction, and they are payments, then
  -- `processTransaction` returns for a successful transaction exactly one event for each of its
  -- effects that is taken for a deposit.
  pub process_transaction-Counts :
      (effects : List Effect) (w : World E)
      → tx.successful ≡ true
      → (get_transaction_effects {E = E} config tx.hash w).0 ≡ ok effects
      → Counts (credits config effects) (process_transaction config tx w).0
  unfolding process_transaction ◌>>=◌
  process_transaction-Counts effects w successful gives = go tx.successful successful
    where
      go :
          (b : Bool)
          → b ≡ true
          → Counts
              (credits config effects)
              ((if b
                  then (do
                    given ← get_transaction_effects {E = E} config tx.hash
                    mint_events config tx given [])
                  else pure [])
                w).0
      go false e = cc
      go true e =
          let c =
            mint_events-Counts effects [] (get_transaction_effects {E = E} config tx.hash w).1 in
          rw gives (c.0, c.1, omega (arith, c.2))
