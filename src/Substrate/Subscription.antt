-- ===== src/Substrate/Subscription.antt =====
-- `SubscribeTfchainBridgeEvents` of tfchain_bridge/pkg/substrate/events.go: the events of the finalized
-- blocks, sent to the main loop.
pub mod Heads
use tfchain_tft_bridge.Prelude.{ℕ, zero, suc, ◌%◌, ◌^◌, none, some, List, [], ◌∷◌, ◌++◌}
use tfchain_tft_bridge.Errors.{Error, sentinel, canceled, Result, value, error}
use tfchain_tft_bridge.Exec.{
  Outcome, ok, err, crash, unfinished, Exec, pure, raise, abort, try, ◌>>=◌, ◌>>◌,
}
use tfchain_tft_bridge.Env.{Env}
use tfchain_tft_bridge.Env.Types.{HeadEvent, new_head, subscription_error, context_done}
use tfchain_tft_bridge.World.{World, Action, ask}
use tfchain_tft_bridge.Substrate.Events.{
  Events, EventSubscription, no_events, process_events_for_height,
}

-- The world; what was sent on the channel, oldest first; and, for the statements only, the numbers of
-- the heads received, oldest first.
pub record Subscribing (E : Env) : Type 0 where
  pub world : World E
  pub sent : List EventSubscription
  pub heads : List ℕ

abbrev pub Subscriber : Env → Type 0 → Type 0
Subscriber E A = Exec (Subscribing E) A

-- The message for both results of `processEventsForHeight`; beside an error it has no events.
abbrev pub message_of : Result Events → EventSubscription
message_of (value events) = record { events = events; err = none }
message_of (error e) = record { events = no_events; err = some e }

abbrev pub noted : HeadEvent → List ℕ → List ℕ
noted (new_head number) heads = heads ++ number ∷ []
noted (subscription_error e) heads = heads
noted context_done heads = heads

module _ {E : Env} where
  unfoldable pub in_world : {A : Type 0} → Action E A → Subscriber E A
  in_world m st = let (o, w) = m st.world in (o, record st { world = w })

  -- What the `select` gives. The number of a head is noted when it is received.
  unfoldable pub next_head : Subscriber E HeadEvent
  next_head st =
      let (event, s) = E.next_head st.world.outside in
      (
        ok event,
        record st { world = record st.world { outside = s }; heads = noted event st.heads },
      )

  -- `log.Fatal` for an error.
  unfoldable pub or_fatal : Result Unit → Subscriber E Unit
  or_fatal (value _) = pure tt
  or_fatal (error _) = abort

  -- The retries of a lost subscription have given up: the error is not looked at, and the next
  -- `select` on the nil subscription panics.
  unfoldable pub after_reopen : Subscriber E Unit → Result Unit → Subscriber E Unit
  after_reopen again (value _) = again
  after_reopen again (error _) = abort

-- `others` is what the rest of the daemon does until the main loop receives the message.
module _ {E : Env} (others : World E → World E) where
  unfoldable pub send : EventSubscription → Subscriber E Unit
  send message st = (ok tt, record st { world = others st.world; sent = st.sent ++ message ∷ [] })

  unfoldable pub on_head : Subscriber E Unit → HeadEvent → Subscriber E Unit
  unfolding after_reopen
  on_head again (new_head number) = do
    r ← try (in_world (process_events_for_height (number % 2 ^ 32)))
    send (message_of r)
    again
  on_head again (subscription_error e) = do r ← try (in_world (ask E.reopen)); after_reopen again r
  on_head again context_done = raise (sentinel canceled)

  unfoldable pub subscribe_loop : ℕ → Subscriber E Unit
  unfolding on_head
  subscribe_loop zero = λ st. (unfinished, st)
  subscribe_loop (suc fuel) = do event ← next_head; on_head (subscribe_loop fuel) event

  unfoldable pub subscribe_tfchain_bridge_events : ℕ → Subscriber E Unit
  unfolding subscribe_loop or_fatal
  subscribe_tfchain_bridge_events fuel = do
    connected ← try (in_world (ask E.get_client))
    or_fatal connected
    subscribed ← try (in_world (ask E.subscribe_finalized_heads))
    or_fatal subscribed
    subscribe_loop fuel
