-- ===== src/Bridge/Start/Safe.antt =====
-- Whatever the main loop of tfchain_bridge/pkg/bridge/bridge.go receives, it keeps the protocol.
use tfchain_tft_bridge.Prelude.{ℕ, All}
use tfchain_tft_bridge.Env.{Env}
use tfchain_tft_bridge.World.{World, Action}
use tfchain_tft_bridge.Substrate.Events.{Events}
use tfchain_tft_bridge.Bridge.State.{Bridge}
use tfchain_tft_bridge.Bridge.Start.{Received, from_tfchain, from_stellar, done}
use tfchain_tft_bridge.Bridge.Start.Allowed.{IsSafe}

-- The withdrawals that the events call expired are.
abbrev pub KnowsExpired : (ℕ → Type 0) → Received → Type 0
KnowsExpired expired (from_tfchain received) =
    All (λ e. expired e.id) received.events.withdraw_expired_events
KnowsExpired expired (from_stellar received) = Unit
KnowsExpired expired (done e) = Unit

module _ {E : Env} (expired : ℕ → Type 0) where
  -- An action behind which a safe trace is safe.
  pub record Keeps {A : Type 0} (m : Action E A) : Type 0 where
    pub at : (s : World E) → IsSafe expired s.trace → IsSafe expired (m s).1.trace
