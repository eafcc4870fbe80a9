-- ===== src/Substrate/Subscription/Heads.antt =====
-- The subscription of tfchain_bridge/pkg/substrate/events.go sends one message for each head.
use tfchain_tft_bridge.Prelude.{ℕ, zero, suc, ◌%◌, ◌^◌, ◌≡◌, refl, false, List, [], ◌∷◌, ◌++◌}
use tfchain_tft_bridge.Errors.{Result, value, error}
use tfchain_tft_bridge.Exec.{
  Outcome, ok, err, crash, unfinished, is_ok, raise, abort, lift, try, caught, continue, ◌>>=◌,
}
use tfchain_tft_bridge.Exec.Rules.{Post, Returned}
use tfchain_tft_bridge.Env.{Env, Call}
use tfchain_tft_bridge.Env.Types.{HeadEvent, new_head, subscription_error, context_done}
use tfchain_tft_bridge.World.{World, ask}
use tfchain_tft_bridge.World.Calm.{IsCalm, calm_rules}
use tfchain_tft_bridge.Substrate.Events.{Events, EventSubscription, process_events_for_height}
use tfchain_tft_bridge.Substrate.Subscription.{
  Subscribing, Subscriber, message_of, noted, in_world, next_head, or_fatal, after_reopen, send,
  on_head, subscribe_loop, subscribe_tfchain_bridge_events,
}

module _ (E : Env) where
  -- The message holds what `processEventsForHeight` returned for the number of the head as a uint32.
  abbrev pub IsMessage : EventSubscription → ℕ → Type 0
  IsMessage message head =
      (r : Result Events) × (asked : World E) × (caught
          (process_events_for_height {E = E} (head % 2 ^ 32) asked).0
        ≡ ok r)
      × (message ≡ message_of r)

  -- One message for each head, in the same order.
  abbrev pub Answers : List EventSubscription → List ℕ → Type 0
  Answers [] [] = Unit
  Answers (message ∷ messages) (head ∷ heads) = IsMessage message head × Answers messages heads
  Answers _ _ = ⊥

  Answers-snoc :
      (messages : List EventSubscription) (heads : List ℕ) (message : EventSubscription) (head : ℕ)
      → Answers messages heads
      → IsMessage message head
      → Answers (messages ++ message ∷ []) (heads ++ head ∷ [])
  Answers-snoc [] [] message head h m = (m, tt)
  Answers-snoc [] (t ∷ heads) message head h m = absurd h
  Answers-snoc (n ∷ messages) [] message head h m = absurd h
  Answers-snoc (n ∷ messages) (t ∷ heads) message head (hn, h) m =
      (hn, Answers-snoc messages heads message head h m)

module _ {E : Env} where
  process_events_for_height-IsCalm :
      (height : ℕ) → IsCalm (process_events_for_height {E = E} height)
  unfolding process_events_for_height
  process_events_for_height-IsCalm height = search calm_rules

  abbrev pub Done : Outcome Unit → Subscribing E → Type 0
  Done o st = (is_ok o ≡ false) × Answers E st.sent st.heads

  abbrev Again : Subscriber E Unit → Type 0
  Again again = (st : Subscribing E) → Answers E st.sent st.heads → Post again st Done

  -- A call whose error is a value of the rest.
  asked_post :
      (call : Call E.State Unit) (k : Result Unit → Subscriber E Unit)
      → ((r : Result Unit) → Again (k r))
      → Again (try (in_world (ask call)) >>= k)
  unfolding in_world ask ◌>>=◌
  asked_post call k next st h = go (call st.world.outside).0 (call st.world.outside).1
    where
      go :
          (r : Result Unit) (s : E.State)
          → let got = lift r (record st.world { outside = s }) in
            Post (continue (caught got.0) k) (record st { world = got.1 }) Done
      go (value a) s = next (value a) _ h
      go (error e) s = next (error e) _ h

  or_fatal_post :
      (r : Result Unit) (k : Unit → Subscriber E Unit) → Again (k tt) → Again (or_fatal r >>= k)
  unfolding or_fatal ◌>>=◌
  or_fatal_post (value _) k next st h = next st h
  or_fatal_post (error _) k next st h = (refl, h)

  after_reopen-Done :
      (again : Subscriber E Unit) (r : Result Unit) → Again again → Again (after_reopen again r)
  unfolding after_reopen
  after_reopen-Done again (value _) goes_on = goes_on
  after_reopen-Done again (error _) goes_on = λ st h. unfold abort in (refl, h)

module _ {E : Env} (others : World E → World E) where
  -- The event was received, and the messages answer the heads before it.
  abbrev Received : HeadEvent → Subscribing E → Type 0
  Received event st = (before : List ℕ) × (st.heads ≡ noted event before) × Answers E st.sent before

  on_number-Done :
      (again : Subscriber E Unit) (number : ℕ)
      → Again again
      → (st : Subscribing E) → Received (new_head number) st
      → Post (on_head others again (new_head number)) st Done
  unfolding on_head in_world send ◌>>=◌
  on_number-Done again number goes_on st (before, e, h) =
      go (process_events_for_height (number % 2 ^ 32) st.world).0
        (process_events_for_height (number % 2 ^ 32) st.world).1 refl
        ((process_events_for_height-IsCalm (number % 2 ^ 32)).returned st.world)
    where
      go :
          (o : Outcome Events) (w : World E)
          → (process_events_for_height (number % 2 ^ 32) st.world).0 ≡ o
          → Returned o
          → Post
              (continue (caught o) (λ r. send others (message_of r) >>= (λ _. again)))
              (record st { world = w })
              Done
      go (ok events) w g r = goes_on _ (
          rw e (
            Answers-snoc E st.sent before (message_of (value events)) number h
              (value events, st.world, rw g, refl)))
      go (err x) w g r = goes_on _ (
          rw e (
            Answers-snoc E st.sent before (message_of (error x)) number h
              (error x, st.world, rw g, refl)))
      go crash w e r = absurd r
      go unfinished w e r = absurd r

  on_head-Done :
      (again : Subscriber E Unit) (event : HeadEvent)
      → Again again
      → (st : Subscribing E) → Received event st
      → Post (on_head others again event) st Done
  unfolding on_head
  on_head-Done again (new_head number) goes_on st h = on_number-Done again number goes_on st h
  on_head-Done again (subscription_error e) goes_on st (before, same, h) =
      asked_post E.reopen (after_reopen again) (λ r. after_reopen-Done again r goes_on) st
        (rw same h)
  on_head-Done again context_done goes_on st (before, same, h) = unfold raise in (refl, rw same h)

  subscribe_loop-Done : (fuel : ℕ) → Again (subscribe_loop others fuel)
  unfolding subscribe_loop in_world next_head ◌>>=◌
  subscribe_loop-Done zero st h = (refl, h)
  subscribe_loop-Done (suc fuel) st h =
      on_head-Done (subscribe_loop others fuel) (E.next_head st.world.outside).0
        (subscribe_loop-Done fuel) _ (st.heads, refl, h)

  -- However long it runs, `SubscribeTfchainBridgeEvents` does not return without an error. It sends one
  -- message for each head that it received, in the same order, with the events or the error that
  -- `processEventsForHeight` returned for the head's number as a uint32, whatever the rest of the
  -- daemon does while a message waits, and however often the subscription is lost and reopened.
  pub subscribe_tfchain_bridge_events-Answers :
      (fuel : ℕ) (w : World E)
      → Post
          (subscribe_tfchain_bridge_events others fuel)
          (record { world = w; sent = []; heads = [] })
          Done
  unfolding subscribe_tfchain_bridge_events
  subscribe_tfchain_bridge_events-Answers fuel w =
      asked_post E.get_client _
        (λ connected. or_fatal_post connected _ (
          asked_post E.subscribe_finalized_heads _
            (λ subscribed. or_fatal_post subscribed _ (subscribe_loop-Done fuel))))
        _ tt
