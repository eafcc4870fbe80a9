-- ===== src/Stellar/Deposits.antt =====
-- `processTransaction` of tfchain_bridge/pkg/stellar/stellar.go: the deposits that a transaction on the
-- bridge account makes.
pub mod Ledger
pub mod Credits
pub mod Found
pub mod Count
use tfchain_tft_bridge.Prelude.{
  ℤ, ◌+ℤ◌, Bool, not, ◌&&◌, ◌||◌, Option, none, some, List, [], ◌∷◌, ◌++◌, Text, codes, text_eq,
  if◌then◌else◌,
}
use tfchain_tft_bridge.Errors.{Error, Result, value, error}
use tfchain_tft_bridge.Exec.{pure, lift, try, ◌>>=◌}
use tfchain_tft_bridge.Config.{StellarConfig}
use tfchain_tft_bridge.Env.{Env}
use tfchain_tft_bridge.Env.Types.{Transaction, Effect, Operation}
use tfchain_tft_bridge.World.{Action, ask}
use tfchain_tft_bridge.Stellar.Network.{
  get_horizon_client, get_asset_code_and_issuer, asset_code, asset_issuer,
}

-- `map[string]*big.Int`, in the order in which `range` goes through it. Go leaves that order open, so
-- a statement about all lists is one about every order.
abbrev pub Senders : Type 0
Senders = List (Text × ℤ)

pub record MintEvent : Type 0 where
  pub senders : Senders
  pub tx : Transaction
  pub err : Option Error

pub record MintEventSubscription : Type 0 where
  pub events : List MintEvent
  pub err : Option Error

-- The amount of a sender is set, or increased if it is there.
unfoldable pub add_deposit : Text → ℤ → Senders → Senders
add_deposit sender amount [] = (sender, amount) ∷ []
add_deposit sender amount ((s, n) ∷ rest) =
    if text_eq s sender then (s, n +ℤ amount) ∷ rest else (s, n) ∷ add_deposit sender amount rest

module _ (E : Env) (account : Text) where
  -- A payment to another account, or of an amount that cannot be read, adds nothing.
  unfoldable pub add_payment : Operation → Senders → Senders
  unfolding add_deposit
  add_payment op senders =
      if text_eq op.to_account account
      then elim (E.parse_int64 op.amount) [
        | error _ ↦ senders
        | value amount ↦ add_deposit op.from_account amount senders
      ]
      else senders

  -- The loop over the operations; `none` is the early `return nil, nil`.
  unfoldable pub collect : List Operation → Senders → Option Senders
  unfolding add_payment
  collect [] senders = some senders
  collect (op ∷ ops) senders =
      let rest = collect ops (add_payment op senders) in
      if text_eq op.kind (codes "payment") then rest else none

-- The three tests that skip an effect.
unfoldable pub is_skipped : StellarConfig → Effect → Bool
is_skipped config effect =
    let asset = get_asset_code_and_issuer config in
    not (text_eq effect.account config.stellar_bridge_account)
    || not (text_eq effect.kind (codes "account_credited"))
    || (not (text_eq effect.asset_code (asset_code asset))
        && not (text_eq effect.asset_issuer (asset_issuer asset)))

module _ {E : Env} (config : StellarConfig) where
  unfoldable pub get_transaction_effects : Text → Action E (List Effect)
  get_transaction_effects hash = do
    client ← lift (get_horizon_client config)
    ask (E.effects client hash)

  unfoldable pub get_operation_effect : Text → Action E (List Operation)
  get_operation_effect hash = do
    client ← lift (get_horizon_client config)
    ask (E.operations client hash)

  unfoldable pub after_collect :
      Transaction
      → (List MintEvent → Action E (List MintEvent))
      → List MintEvent
      → Option Senders
      → Action E (List MintEvent)
  after_collect tx again events none = pure []
  after_collect tx again events (some senders) =
      again (events ++ record { senders = senders; tx = tx; err = none } ∷ [])

  unfoldable pub after_operations :
      Transaction
      → (List MintEvent → Action E (List MintEvent))
      → List MintEvent
      → Result (List Operation)
      → Action E (List MintEvent)
  unfolding after_collect
  after_operations tx again events (error _) = again events
  after_operations tx again events (value ops) =
      after_collect tx again events (collect E config.stellar_bridge_account ops [])

  -- The loop over the effects; `events` are those found so far.
  unfoldable pub mint_events :
      Transaction → List Effect → List MintEvent → Action E (List MintEvent)
  unfolding after_operations
  mint_events tx [] events = pure events
  mint_events tx (effect ∷ effects) events =
      let rest = mint_events tx effects in
      if is_skipped config effect
      then rest events
      else do ops ← try (get_operation_effect tx.hash); after_operations tx rest events ops

  unfoldable pub process_transaction : Transaction → Action E (List MintEvent)
  unfolding mint_events
  process_transaction tx =
      if tx.successful
      then (do effects ← get_transaction_effects tx.hash; mint_events tx effects [])
      else pure []
