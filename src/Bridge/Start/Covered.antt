-- ===== src/Bridge/Start/Covered.antt =====
-- The loops of tfchain_bridge/pkg/bridge/bridge.go over the events of a block leave no event out.
use tfchain_tft_bridge.Prelude.{
  ℕ, ◌≡◌, refl, ◌∙◌, ◌⊎◌, inl, inr, ◌||◌, Bool, true, false, List, [], ◌∷◌, Text, if◌then◌else◌,
}
use tfchain_tft_bridge.Errors.{
  Error, wrap, is_error, transaction_already_burned, transaction_already_minted,
  transaction_already_refunded,
}
use tfchain_tft_bridge.Exec.{
  Outcome, ok, err, crash, unfinished, raise, try, caught, continue, ◌>>=◌,
}
use tfchain_tft_bridge.Env.{Env}
use tfchain_tft_bridge.Env.Types.{running}
use tfchain_tft_bridge.World.{World, Action}
use tfchain_tft_bridge.Substrate.Events.{Events}
use tfchain_tft_bridge.Bridge.State.{Bridge}
use tfchain_tft_bridge.Bridge.Withdraw.{
  handle_withdraw_created, handle_withdraw_expired, handle_withdraw_ready,
}
use tfchain_tft_bridge.Bridge.Refund.{handle_refund_expired, handle_refund_ready}
use tfchain_tft_bridge.Bridge.Start.{
  after_handler, each, on_events, skips_created, skips_none, skips_burned, skips_refunded,
}

-- A success, or an error that may be passed over.
abbrev pub Passed : (Error → Type 0) → Outcome Unit → Type 0
Passed Ignored (ok _) = Unit
Passed Ignored (err e) = Ignored e
Passed Ignored crash = ⊥
Passed Ignored unfinished = ⊥

-- Each of the events was handed to its handler, which passed, in the order of the list: the first one in
-- the first state, each later one in the state that the handler of the one before it left, and the last
-- one left the last state.
pub data Covered {E : Env} {A : Type 0} (Ignored : Error → Type 0) (handle : A → Action E Unit)
    : List A → World E → World E → Type 0 where
  no_more : {w : World E} → Covered Ignored handle [] w w
  one_more :
      {a : A} {more : List A} {w v : World E}
      → Passed Ignored (handle a w).0
      → Covered Ignored handle more (handle a w).1 v
      → Covered Ignored handle (a ∷ more) w v

abbrev pub IsBurnedOrMinted : Error → Type 0
IsBurnedOrMinted e =
    (is_error e transaction_already_burned ≡ true) ⊎ (is_error e transaction_already_minted ≡ true)

abbrev pub IsBurned : Error → Type 0
IsBurned e = is_error e transaction_already_burned ≡ true

abbrev pub IsRefunded : Error → Type 0
IsRefunded e = is_error e transaction_already_refunded ≡ true

abbrev pub Never : Error → Type 0
Never e = ⊥

skips_created-IsBurnedOrMinted : (e : Error) → skips_created e ≡ true → IsBurnedOrMinted e
skips_created-IsBurnedOrMinted e h =
    go (is_error e transaction_already_burned) (is_error e transaction_already_minted) h
  where
    go : (a b : Bool) → (a || b) ≡ true → (a ≡ true) ⊎ (b ≡ true)
    go true b h = inl refl
    go false b h = inr h

module _ {E : Env} {A : Type 0} (skips : Error → Bool) (Ignored : Error → Type 0)
    (skipped : (e : Error) → skips e ≡ true → Ignored e) (text : Text)
    (handle : A → Action E Unit) where
  after_handler-Covered :
      (more : List A) (o : Outcome Unit) (v : World E)
      → ((u : World E)
          → (each skips text handle more u).0 ≡ ok tt
          → Covered Ignored handle more u (each skips text handle more u).1)
      → let m = continue (caught o) (after_handler skips text (each skips text handle more)) in
        (m v).0 ≡ ok tt → Passed Ignored o × Covered Ignored handle more v (m v).1
  unfolding after_handler raise
  after_handler-Covered more (ok _) v ih h = (tt, ih v h)
  after_handler-Covered more (err e) v ih h = go (skips e) (skipped e) h
    where
      go :
          (b : Bool)
          → (b ≡ true → Ignored e)
          → let m = if b then each skips text handle more else raise (wrap e text) in
            (m v).0 ≡ ok tt → Ignored e × Covered Ignored handle more v (m v).1
      go true i h = (i refl, ih v h)
      go false i h = cc
  after_handler-Covered more crash v ih h = cc
  after_handler-Covered more unfinished v ih h = cc

  each-Covered :
      (l : List A) (w : World E)
      → (each skips text handle l w).0 ≡ ok tt
      → Covered Ignored handle l w (each skips text handle l w).1
  unfolding each ◌>>=◌ try
  each-Covered [] w h = no_more
  each-Covered (a ∷ more) w h =
      let (passed, rest) =
        after_handler-Covered more (handle a w).0 (handle a w).1 (each-Covered more) h in
      one_more passed rest

module _ {E : Env} where
  -- The parts of a sequence that returned without an error did so too, and the second one ends it.
  parts_ok :
      (m n : Action E Unit) (w : World E)
      → ((m >>= (λ _. n)) w).0 ≡ ok tt
      → ((m w).0 ≡ ok tt) × ((n (m w).1).0 ≡ ok tt) × (((m >>= (λ _. n)) w).1 ≡ (n (m w).1).1)
  unfolding ◌>>=◌
  parts_ok m n w h = go (m w).0 (m w).1 h
    where
      go :
          (o : Outcome Unit) (v : World E)
          → (continue o (λ _. n) v).0 ≡ ok tt
          → (o ≡ ok tt) × ((n v).0 ≡ ok tt) × ((continue o (λ _. n) v).1 ≡ (n v).1)
      go (ok tt) v h = (refl, h, refl)
      go (err x) v h = cc
      go crash v h = cc
      go unfinished v h = cc

  module _ (fuel : ℕ) (b : Bridge E) where
    -- The five lists one behind the other, each from the state that the one before it left.
    pub record AllCovered (events : Events) (w v : World E) : Type 0 where
      pub after_created : World E
      pub after_expired : World E
      pub after_ready : World E
      pub after_refund_expired : World E
      pub created :
          Covered IsBurnedOrMinted
            (handle_withdraw_created fuel b running)
            events.withdraw_created_events
            w
            after_created
      pub expired :
          Covered Never
            (handle_withdraw_expired fuel b running)
            events.withdraw_expired_events
            after_created
            after_expired
      pub ready :
          Covered IsBurned
            (handle_withdraw_ready fuel b running)
            events.withdraw_ready_events
            after_expired
            after_ready
      pub refund_expired :
          Covered Never
            (handle_refund_expired fuel b running)
            events.refund_expired_events
            after_ready
            after_refund_expired
      pub refund_ready :
          Covered IsRefunded
            (handle_refund_ready fuel b running)
            events.refund_ready_events
            after_refund_expired
            v

    -- If the five loops over the events of a block return without an error, then they consist of one
    -- call of the handler of its kind for each event of the block, in the order of the lists, each in
    -- the state that the call before it left, the created withdrawals first, then the expired and the
    -- ready ones, then the expired and the ready refunds. Each of the calls returned without an error,
    -- or with one that says that the withdrawal is already burned (for created and ready ones), that it
    -- is already given back (for created ones), or that the deposit is already refunded (for ready
    -- refunds).
    pub on_events-Covered :
        (events : Events) (w : World E)
        → (on_events fuel b events w).0 ≡ ok tt
        → AllCovered events w (on_events fuel b events w).1
    unfolding on_events
    on_events-Covered events w h =
        let (c, h1, e1) = parts_ok _ _ w h in
        let (x, h2, e2) = parts_ok _ _ _ h1 in
        let (y, h3, e3) = parts_ok _ _ _ h2 in
        let (z, h4, e4) = parts_ok _ _ _ h3 in
        record {
          after_created = _;
          after_expired = _;
          after_ready = _;
          after_refund_expired = _;
          created =
              each-Covered skips_created IsBurnedOrMinted skips_created-IsBurnedOrMinted _ _ _ _ c;
          expired = each-Covered skips_none Never (λ e h. cc) _ _ _ _ x;
          ready = each-Covered skips_burned IsBurned (λ e h. h) _ _ _ _ y;
          refund_expired = each-Covered skips_none Never (λ e h. cc) _ _ _ _ z;
          refund_ready =
              rw (e1 ∙ e2 ∙ e3 ∙ e4) (each-Covered skips_refunded IsRefunded (λ e h. h) _ _ _ _ h4);
        }
