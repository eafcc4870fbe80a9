-- ===== src/Main/Shutdown.antt =====
-- When the process of tfchain_bridge/main.go ends normally.
use tfchain_tft_bridge.Prelude.{
  ℕ, ◌≡◌, refl, Bool, true, false, Option, none, some, List, [], ◌∷◌, Text, if◌then◌else◌,
}
use tfchain_tft_bridge.Errors.{
  Error, message, foreign, transaction_already_refunded, transaction_already_minted,
  transaction_already_burned, no_signatures, mint_transaction_not_found, wrap, sentinel, canceled,
  Result, value, error,
}
use tfchain_tft_bridge.Exec.{
  Outcome, ok, err, crash, unfinished, pure, raise, abort, try, caught, wrapped, continue, wrapping,
  ◌>>=◌,
}
use tfchain_tft_bridge.Env.{Env}
use tfchain_tft_bridge.World.{World, Action}
use tfchain_tft_bridge.Config.{BridgeConfig}
use tfchain_tft_bridge.Prelude.{◌≢◌, ◌⊎◌, inl, inr}
use tfchain_tft_bridge.Exec.{◌>>◌, wrapping, pure, try}
use tfchain_tft_bridge.Persistency.{get_height}
use tfchain_tft_bridge.Substrate.Events.{Events}
use tfchain_tft_bridge.Bridge.State.{Bridge, new_bridge}
use tfchain_tft_bridge.Bridge.Start.{
  after_handler, each, Received, from_tfchain, from_stellar, done, on_events, receive, serve, start,
  unless_failed, skips_created, skips_none, skips_burned, skips_refunded, skips_minted,
}
use tfchain_tft_bridge.Main.{normal, fatal, is_canceled, exit_of, or_start, run, main}

-- Not the error of the context itself.
abbrev IsLoud : {A : Type 0} → Outcome A → Type 0
IsLoud (ok _) = Unit
IsLoud (err e) = is_canceled e ≡ false
IsLoud crash = Unit
IsLoud unfinished = Unit

IsLoud-wrapped : {A : Type 0} (t : Text) (o : Outcome A) → IsLoud (wrapped t o)
IsLoud-wrapped t (ok a) = tt
IsLoud-wrapped t (err e) = refl
IsLoud-wrapped t crash = tt
IsLoud-wrapped t unfinished = tt

IsLoud-caught : {A : Type 0} (o : Outcome A) → IsLoud (caught o)
IsLoud-caught (ok a) = tt
IsLoud-caught (err e) = tt
IsLoud-caught crash = tt
IsLoud-caught unfinished = tt

module _ {E : Env} where
  IsLoud-raise :
      (A : Type 0) (e : Error) (t : Text) (w : World E) → IsLoud {A = A} (raise (wrap e t) w).0
  unfolding raise
  IsLoud-raise A e t w = refl

  IsLoud-wrapping :
      {A : Type 0} (t : Text) (m : Action E A) (w : World E) → IsLoud (wrapping t m w).0
  unfolding wrapping
  IsLoud-wrapping t m w = IsLoud-wrapped t (m w).0

  IsLoud-try : {A : Type 0} (m : Action E A) (w : World E) → IsLoud (try m w).0
  unfolding try
  IsLoud-try m w = IsLoud-caught (m w).0

  IsLoud-continue :
      {A B : Type 0} (f : A → Action E B) (o : Outcome A) (w : World E)
      → IsLoud o
      → ((a : A) (v : World E) → IsLoud (f a v).0)
      → IsLoud (continue o f w).0
  IsLoud-continue f (ok a) w h k = k a w
  IsLoud-continue f (err e) w h k = h
  IsLoud-continue f crash w h k = tt
  IsLoud-continue f unfinished w h k = tt

  IsLoud-bind :
      {A B : Type 0} (m : Action E A) (f : A → Action E B) (w : World E)
      → IsLoud (m w).0
      → ((a : A) (v : World E) → IsLoud (f a v).0)
      → IsLoud ((m >>= f) w).0
  unfolding ◌>>=◌
  IsLoud-bind m f w h k = IsLoud-continue f (m w).0 (m w).1 h k

  IsLoud-after_handler :
      (skips : Error → Bool) (text : Text) (rest : Action E Unit) (r : Result Unit) (w : World E)
      → ((v : World E) → IsLoud (rest v).0)
      → IsLoud (after_handler skips text rest r w).0
  unfolding after_handler
  IsLoud-after_handler skips text rest (value _) w k = k w
  IsLoud-after_handler skips text rest (error e) w k = go (skips e)
    where
      go : (b : Bool) → IsLoud ((if b then rest else raise (wrap e text)) w).0
      go true = k w
      go false = IsLoud-raise Unit e text w

  IsLoud-each :
      {A : Type 0} (skips : Error → Bool) (text : Text) (handle : A → Action E Unit) (l : List A)
      (w : World E)
      → IsLoud (each skips text handle l w).0
  unfolding each pure
  IsLoud-each skips text handle [] w = tt
  IsLoud-each skips text handle (a ∷ more) w =
      IsLoud-bind (try (handle a)) _ w (IsLoud-try (handle a) w)
        (λ r v. IsLoud-after_handler skips text _ r v (IsLoud-each skips text handle more))

  module _ (fuel : ℕ) (b : Bridge E) where
    IsLoud-on_events : (events : Events) (w : World E) → IsLoud (on_events fuel b events w).0
    unfolding on_events
    IsLoud-on_events events w = IsLoud-bind _ _ w (IsLoud-each skips_created _ _ _ w) λ _ v1.
        IsLoud-bind _ _ v1 (IsLoud-each skips_none _ _ _ v1) λ _ v2.
          IsLoud-bind _ _ v2 (IsLoud-each skips_burned _ _ _ v2) λ _ v3.
            IsLoud-bind _ _ v3 (IsLoud-each skips_none _ _ _ v3)
              λ _ v4. IsLoud-each skips_refunded _ _ _ v4

is_canceled_whole : (e : Error) → is_canceled e ≡ true → e ≡ sentinel canceled
is_canceled_whole (sentinel canceled) h = refl
is_canceled_whole (sentinel transaction_already_refunded) h = cc
is_canceled_whole (sentinel transaction_already_minted) h = cc
is_canceled_whole (sentinel transaction_already_burned) h = cc
is_canceled_whole (sentinel no_signatures) h = cc
is_canceled_whole (sentinel mint_transaction_not_found) h = cc
is_canceled_whole (message t) h = cc
is_canceled_whole (foreign n) h = cc
is_canceled_whole (wrap e t) h = cc

fatal-ne-normal : (b : Bool) → b ≡ false → (if b then normal else fatal) ≡ normal → ⊥
fatal-ne-normal true p h = cc
fatal-ne-normal false p h = cc

-- Only a cancellation ends the process normally.
exit_of_canceled : (e : Error) → exit_of (err e) ≡ normal → e ≡ sentinel canceled
unfolding exit_of
exit_of_canceled e h = is_canceled_whole e (go (is_canceled e) h)
  where
    go : (b : Bool) → (if b then normal else fatal) ≡ normal → b ≡ true
    go true h = refl
    go false h = cc

-- The loop receives a cancelled context, or a message with an error.
abbrev pub Stops : List Received → Type 0
Stops [] = ⊥
Stops (done e ∷ _) = e ≡ sentinel canceled
Stops (from_tfchain sub ∷ more) = (sub.err ≢ none) ⊎ Stops more
Stops (from_stellar sub ∷ more) = (sub.err ≢ none) ⊎ Stops more

module _ {E : Env} (fuel : ℕ) where
  -- An error that is not bare ends the process by `log.Fatal`, so a normal end comes later.
  later :
      {A : Type 0} (m : Outcome A) (k : A → Action E Unit) (w : World E) (P : Type 0)
      → IsLoud m
      → ((a : A) (v : World E) → exit_of (k a v).0 ≡ normal → P)
      → exit_of (continue m k w).0 ≡ normal
      → P
  unfolding exit_of
  later (ok a) k w P loud more h = more a w h
  later (err e) k w P loud more h = absurd (fatal-ne-normal (is_canceled e) loud h)
  later crash k w P loud more h = cc
  later unfinished k w P loud more h = cc

  unless_failed-normal :
      (b : Bridge E) (e : Option Error) (m rest : Action E Unit) (w : World E) (P : Type 0)
      → ((v : World E) → IsLoud (m v).0)
      → ((v : World E) → exit_of (rest v).0 ≡ normal → P)
      → exit_of (unless_failed fuel b e (m >> rest) w).0 ≡ normal
      → (e ≢ none) ⊎ P
  unfolding unless_failed ◌>>=◌
  unless_failed-normal b none m rest w P loud more h =
      inr (later (m w).0 (λ _. rest) (m w).1 P (loud w) (λ _. more) h)
  unless_failed-normal b (some e) m rest w P loud more h = inl (λ p. cc)

  serve-normal :
      (b : Bridge E) (received : List Received) (w : World E)
      → exit_of (serve fuel b received w).0 ≡ normal
      → Stops received
  unfolding serve receive raise exit_of
  serve-normal b [] w h = cc
  serve-normal b (done e ∷ more) w h = exit_of_canceled e h
  serve-normal b (from_tfchain sub ∷ more) w h =
      unless_failed-normal b sub.err (on_events fuel b sub.events) (serve fuel b more) w
        (Stops more) (IsLoud-on_events fuel b sub.events) (serve-normal b more) h
  serve-normal b (from_stellar sub ∷ more) w h =
      unless_failed-normal b sub.err _ (serve fuel b more) w (Stops more)
        (IsLoud-each skips_minted _ _ sub.events) (serve-normal b more) h

  or_start-normal :
      (received : Text → List Received) (br : Result (Bridge E)) (w : World E)
      → exit_of (or_start fuel received br w).0 ≡ normal
      → (cursor : Text) × Stops (received cursor)
  unfolding or_start start ◌>>=◌ exit_of abort
  or_start-normal received (error e) w h = cc
  or_start-normal received (value br) w h =
      later _ (λ height. serve fuel br (received height.stellar_cursor)) _ _
        (IsLoud-wrapping _ (get_height br.block_persistency) w)
        (λ height v n. (height.stellar_cursor, serve-normal br _ v n)) h

  -- If the process ends normally, then, for some cursor, the main loop receives the bare error
  -- `context.Canceled` of the context, or a message with an error.
  pub main-normal :
      (bridge_cfg : BridgeConfig) (received : Text → List Received) (w : World E)
      → main fuel bridge_cfg received w ≡ normal
      → (cursor : Text) × Stops (received cursor)
  unfolding main run ◌>>=◌
  main-normal bridge_cfg received w h =
      later _ (or_start fuel received) _ _ (IsLoud-try (new_bridge bridge_cfg) w)
        (or_start-normal received) h
