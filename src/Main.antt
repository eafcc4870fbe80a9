-- ===== src/Main.antt =====
-- tfchain_bridge/main.go: how the process ends.
pub mod Shutdown
use tfchain_tft_bridge.Prelude.{◌≡◌, Bool, true, false, List, Text, ℕ, if◌then◌else◌}
use tfchain_tft_bridge.Errors.{
  Error, Sentinel, sentinel, canceled, same_sentinel, Result, value, error,
}
use tfchain_tft_bridge.Exec.{Outcome, ok, err, crash, unfinished, pure, abort, try, ◌>>=◌, ◌>>◌}
use tfchain_tft_bridge.Env.{Env}
use tfchain_tft_bridge.World.{World, Action}
use tfchain_tft_bridge.Config.{BridgeConfig}
use tfchain_tft_bridge.Bridge.State.{Bridge, new_bridge}
use tfchain_tft_bridge.Bridge.Start.{Received, start}

-- `normal` is the return of `main`, `fatal` is `log.Fatal` or a panic, `serving` an observation
-- that is cut before the end.
pub data Exit : Type 0 where
  normal fatal serving : Exit

-- `err != context.Canceled` compares the error itself: a wrapped one is another error.
abbrev pub is_canceled : Error → Bool
is_canceled (sentinel s) = same_sentinel s canceled
is_canceled _ = false

unfoldable pub exit_of : Outcome Unit → Exit
exit_of (ok _) = normal
exit_of (err e) = if is_canceled e then normal else fatal
exit_of crash = fatal
exit_of unfinished = serving

module _ {E : Env} (fuel : ℕ) where
  unfoldable pub or_start : (Text → List Received) → Result (Bridge E) → Action E Unit
  or_start received (value br) = start fuel br received
  or_start received (error e) = abort

  -- Without a bridge the process panics.
  unfoldable pub run : BridgeConfig → (Text → List Received) → Action E Unit
  unfolding or_start
  run bridge_cfg received = do br ← try (new_bridge bridge_cfg); or_start received br

  unfoldable pub main : BridgeConfig → (Text → List Received) → World E → Exit
  main bridge_cfg received w = exit_of (run bridge_cfg received w).0
