-- ===== src/Substrate/Client/Background.antt =====
-- The retry loops of tfchain_bridge/pkg/substrate/client.go under a context that never ends.
use tfchain_tft_bridge.Prelude.{ℕ, zero, suc, false, ◌≡◌, refl, Bool}
use tfchain_tft_bridge.Errors.{Error}
use tfchain_tft_bridge.Exec.{ok, err, unfinished, try, ◌>>=◌}
use tfchain_tft_bridge.Env.{Env}
use tfchain_tft_bridge.Env.Types.{background}
use tfchain_tft_bridge.World.{World, Action}
use tfchain_tft_bridge.Substrate.Client.{wait, after_attempt, after_check, retry_loop, retry}

module _ {E : Env} (attempt : Action E Unit) (check : Action E Bool)
    (refuses : (w : World E) → (e : Error) × ((attempt w).0 ≡ err e))
    (denies : (w : World E) → (check w).0 ≡ ok false) where
  after_attempt-unfinished :
      (again : Error → Action E Unit) (w : World E)
      → ((e : Error) (v : World E) → (again e v).0 ≡ unfinished)
      → ((try attempt >>= after_attempt again) w).0 ≡ unfinished
  unfolding ◌>>=◌ after_attempt try
  after_attempt-unfinished again w more = rw ((refuses w).1) (more (refuses w).0 (attempt w).1)

  retry_loop-unfinished :
      (fuel : ℕ) (give_up : Error → Error → Error) (e : Error) (w : World E)
      → (retry_loop fuel background attempt check give_up e w).0 ≡ unfinished
  unfolding retry_loop wait ◌>>=◌ after_check
  retry_loop-unfinished zero give_up e w = refl
  retry_loop-unfinished (suc fuel) give_up e w =
      let v : World E = record w { outside = (E.wait w.outside).1 } in
      rw (denies v) (
        after_attempt-unfinished (retry_loop fuel background attempt check give_up) (check v).1
          (retry_loop-unfinished fuel give_up))

  -- Under the background context, which the refunds of a deposit are given, a retried call never ends
  -- as long as the attempt fails and the question is answered with no: no amount of fuel is enough.
  pub retry-unfinished :
      (fuel : ℕ) (give_up : Error → Error → Error) (w : World E)
      → (retry fuel background attempt check give_up w).0 ≡ unfinished
  unfolding retry
  retry-unfinished fuel give_up w =
      after_attempt-unfinished (retry_loop fuel background attempt check give_up) w
        (retry_loop-unfinished fuel give_up)
