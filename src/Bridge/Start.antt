-- ===== src/Bridge/Start.antt =====
-- `Start` of tfchain_bridge/pkg/bridge/bridge.go: the main loop of the daemon.
pub mod Allowed
mod Withdrawals
mod Deposits
pub mod Safe
pub mod Ends
pub mod Covered
use tfchain_tft_bridge.Prelude.{
  Bool, false, ◌||◌, Option, none, some, List, [], ◌∷◌, Text, codes, ℕ, if◌then◌else◌,
}
use tfchain_tft_bridge.Errors.{
  Error, wrap, transaction_already_refunded, transaction_already_minted, transaction_already_burned,
  is_error, Result, value, error,
}
use tfchain_tft_bridge.Exec.{unfinished, pure, raise, try, wrapping, ◌>>=◌, ◌>>◌}
use tfchain_tft_bridge.Env.{Env}
use tfchain_tft_bridge.Env.Types.{running}
use tfchain_tft_bridge.World.{Action}
use tfchain_tft_bridge.Persistency.{get_height}
use tfchain_tft_bridge.Substrate.Events.{Events, EventSubscription}
use tfchain_tft_bridge.Stellar.Deposits.{MintEvent, MintEventSubscription}
use tfchain_tft_bridge.Bridge.State.{Bridge}
use tfchain_tft_bridge.Bridge.Withdraw.{
  handle_withdraw_created, handle_withdraw_expired, handle_withdraw_ready,
}
use tfchain_tft_bridge.Bridge.Refund.{handle_refund_expired, handle_refund_ready}
use tfchain_tft_bridge.Bridge.Mint.{mint}

-- The errors that the loops pass over with `continue`.
abbrev pub skips_created : Error → Bool
skips_created e = is_error e transaction_already_burned || is_error e transaction_already_minted

abbrev pub skips_none : Error → Bool
skips_none e = false

abbrev pub skips_burned : Error → Bool
skips_burned e = is_error e transaction_already_burned

abbrev pub skips_refunded : Error → Bool
skips_refunded e = is_error e transaction_already_refunded

abbrev pub skips_minted : Error → Bool
skips_minted e = is_error e transaction_already_minted

unfoldable pub after_handler :
    {E : Env} → (Error → Bool) → Text → Action E Unit → Result Unit → Action E Unit
after_handler skips text rest (value _) = rest
after_handler skips text rest (error e) = if skips e then rest else raise (wrap e text)

module _ {E : Env} {A : Type 0} (skips : Error → Bool) (text : Text) where
  -- `for _, a := range events`: the first error that is not passed over ends everything.
  unfoldable pub each : (A → Action E Unit) → List A → Action E Unit
  each handle [] = pure tt
  each handle (a ∷ more) =
      let rest = each handle more in do r ← try (handle a); after_handler skips text rest r

-- What the `select` of the loop receives: from one of the two channels, or the end of the context.
pub data Received : Type 0 where
  from_tfchain : EventSubscription → Received
  from_stellar : MintEventSubscription → Received
  done : Error → Received

module _ {E : Env} (fuel : ℕ) (b : Bridge E) where
  -- The five loops over the events of a block.
  unfoldable pub on_events : Events → Action E Unit
  on_events events = do
    each skips_created (codes "failed to handle withdraw created")
        (handle_withdraw_created fuel b running) events.withdraw_created_events
    each skips_none (codes "failed to handle withdraw expired")
        (handle_withdraw_expired fuel b running) events.withdraw_expired_events
    each skips_burned (codes "failed to handle withdraw ready")
        (handle_withdraw_ready fuel b running) events.withdraw_ready_events
    each skips_none (codes "failed to handle refund expired") (handle_refund_expired fuel b running)
        events.refund_expired_events
    each skips_refunded (codes "failed to handle refund ready") (handle_refund_ready fuel b running)
        events.refund_ready_events

  unfoldable pub mint_event : MintEvent → Action E Unit
  mint_event event = mint fuel b running event.tx event.senders

  -- A message with an error makes `Start` return `errors.Wrap(err, …)`. That `err` is not the
  -- message's but the one of `GetHeight`, which is nil by then, and `errors.Wrap` of nil is nil. The
  -- stream's goroutine writes to the same `err`, on its way to `log.Fatal`: that race is left out.
  unfoldable pub unless_failed : Option Error → Action E Unit → Action E Unit
  unless_failed none rest = rest
  unless_failed (some _) rest = pure tt

  -- One round of the loop, and the rest of the loop.
  unfoldable pub receive : Action E Unit → Received → Action E Unit
  unfolding unless_failed mint_event
  receive rest (from_tfchain received) =
      unless_failed received.err (do on_events received.events; rest)
  receive rest (from_stellar received) =
      unless_failed received.err
        (do each skips_minted (codes "failed to handle mint") mint_event received.events; rest)
  receive rest (done e) = raise e

  -- The loop over what it receives, in the order of the `select`s; the list is cut where the
  -- observation ends.
  unfoldable pub serve : List Received → Action E Unit
  unfolding receive
  serve [] = λ w. (unfinished, w)
  serve (received ∷ more) = let rest = serve more in receive rest received

  -- What the two goroutines send depends on the cursor that the stream of deposits begins at.
  unfoldable pub start : (Text → List Received) → Action E Unit
  unfolding serve
  start received = do
    height ←
        wrapping (codes "failed to get block height from persistency")
          (get_height b.block_persistency)
    serve (received height.stellar_cursor)
