-- ===== src/Stellar/Stream/Order.antt =====
-- The stream of tfchain_bridge/pkg/stellar/stellar.go sends what it fetches, in order and once.
use tfchain_tft_bridge.Prelude.{
  ℕ, zero, suc, ◌≡◌, refl, sym, ◌∙◌, ap, false, none, List, [], ◌∷◌, ◌++◌, append_assoc, append-nil,
  Text,
}
use tfchain_tft_bridge.Errors.{Result, value, error}
use tfchain_tft_bridge.Exec.{
  Outcome, ok, err, crash, unfinished, is_ok, caught, continue, pure, raise, lift, try, ◌>>=◌,
}
use tfchain_tft_bridge.Exec.Rules.{Post, bind_post, if_post, bind_lift_post}
use tfchain_tft_bridge.Config.{StellarConfig}
use tfchain_tft_bridge.Env.{Env}
use tfchain_tft_bridge.Env.Types.{HorizonClient, Transaction}
use tfchain_tft_bridge.World.{World}
use tfchain_tft_bridge.Substrate.Client.{wait}
use tfchain_tft_bridge.Stellar.Network.{get_horizon_client}
use tfchain_tft_bridge.Stellar.Deposits.{MintEvent, MintEventSubscription, process_transaction}
use tfchain_tft_bridge.Stellar.Stream.{
  Streaming, Streamer, in_world, send, set_cursor, forward, forward_all, pause, pause_if_empty,
  with_page, transactions, fetch, after_response, stream_loop, stream_bridge_stellar_transactions,
  poll,
}

-- The transactions of the pages, oldest first.
abbrev pub flat : List (Text × List Transaction) → List Transaction
flat [] = []
flat ((cursor, page) ∷ pages) = flat pages ++ page

-- The paging token of the last transaction, or the cursor before.
abbrev pub last_token : Text → List Transaction → Text
last_token cursor [] = cursor
last_token cursor (tx ∷ more) = last_token tx.paging_token more

-- Each page was asked for behind the last transaction of the pages before it.
abbrev pub Chained : Text → List (Text × List Transaction) → Type 0
Chained cursor [] = Unit
Chained cursor ((asked, page) ∷ pages) =
    (asked ≡ last_token cursor (flat pages)) × Chained cursor pages

last_token-append :
    (cursor : Text) (txs : List Transaction) (tx : Transaction)
    → last_token cursor (txs ++ tx ∷ []) ≡ tx.paging_token
last_token-append cursor [] tx = refl
last_token-append cursor (t ∷ txs) tx = last_token-append t.paging_token txs tx

module _ (E : Env) (config : StellarConfig) where
  -- The message holds what `processTransaction` returned for the transaction.
  abbrev pub IsMessage : MintEventSubscription → Transaction → Type 0
  IsMessage message tx =
      (message.err ≡ none)
      × (asked : World E) × ((process_transaction config tx asked).0 ≡ ok message.events)

  -- One message for each transaction, in the same order.
  abbrev pub Aligned : List MintEventSubscription → List Transaction → Type 0
  Aligned [] [] = Unit
  Aligned (message ∷ messages) (tx ∷ txs) = IsMessage message tx × Aligned messages txs
  Aligned _ _ = ⊥

  Aligned-snoc :
      (messages : List MintEventSubscription) (txs : List Transaction)
      (message : MintEventSubscription) (tx : Transaction)
      → Aligned messages txs
      → IsMessage message tx
      → Aligned (messages ++ message ∷ []) (txs ++ tx ∷ [])
  Aligned-snoc [] [] message tx h m = (m, tt)
  Aligned-snoc [] (t ∷ txs) message tx h m = absurd h
  Aligned-snoc (n ∷ messages) [] message tx h m = absurd h
  Aligned-snoc (n ∷ messages) (t ∷ txs) message tx (hn, h) m =
      (hn, Aligned-snoc messages txs message tx h m)

  -- Of the transactions fetched, all but `rest` were sent, and the cursor stands behind the last one.
  pub record InOrder (cursor : Text) (rest : List Transaction) (st : Streaming E) : Type 0 where
    pub handled : List Transaction
    pub fetched : flat st.pages ≡ handled ++ rest
    pub aligned : Aligned st.sent handled
    pub behind : st.cursor ≡ last_token cursor handled
    pub chained : Chained cursor st.pages

  pub record SomeInOrder (cursor : Text) (st : Streaming E) : Type 0 where
    pub rest : List Transaction
    pub in_order : InOrder cursor rest st

module _ {E : Env} (config : StellarConfig) (others : World E → World E) (cursor : Text) where
  abbrev pub Done : Outcome Unit → Streaming E → Type 0
  Done o st = (is_ok o ≡ false) × SomeInOrder E config cursor st

  abbrev Forwarded : List Transaction → Outcome Unit → Streaming E → Type 0
  Forwarded rest (ok _) st = InOrder E config cursor rest st
  Forwarded rest o st = SomeInOrder E config cursor st

  -- What the world does meanwhile does not matter.
  moved :
      (rest : List Transaction) (st : Streaming E) (w : World E)
      → InOrder E config cursor rest st
      → InOrder E config cursor rest (record st { world = w })
  moved rest st w h = record {
    handled = h.handled;
    fetched = h.fetched;
    aligned = h.aligned;
    behind = h.behind;
    chained = h.chained;
  }

  sent_one :
      (tx : Transaction) (rest : List Transaction) (st : Streaming E) (events : List MintEvent)
      → InOrder E config cursor (tx ∷ rest) st
      → (process_transaction config tx st.world).0 ≡ ok events
      → (w : World E)
      → InOrder E config cursor rest (record st {
        world = w;
        sent = st.sent ++ record { events = events; err = none } ∷ [];
        cursor = tx.paging_token;
      })
  sent_one tx rest st events h gave w = record {
    handled = h.handled ++ tx ∷ [];
    fetched = h.fetched ∙ sym (append_assoc h.handled (tx ∷ []) rest);
    aligned = Aligned-snoc E config st.sent h.handled _ tx h.aligned (refl, st.world, gave);
    behind = sym (last_token-append cursor h.handled tx);
    chained = h.chained;
  }

  forward-Forwarded :
      (tx : Transaction) (rest : List Transaction) (st : Streaming E)
      → InOrder E config cursor (tx ∷ rest) st
      → Post (forward config others tx) st (Forwarded rest)
  unfolding forward in_world send set_cursor ◌>>=◌
  forward-Forwarded tx rest st h =
      go (process_transaction config tx st.world).0 (process_transaction config tx st.world).1 refl
    where
      go :
          (o : Outcome (List MintEvent)) (w : World E)
          → (process_transaction config tx st.world).0 ≡ o
          → Post
              (λ (st' : Streaming E).
                (continue o
                  (λ events.
                    send config others (record { events = events; err = none })
                    >>= (λ _. set_cursor config others tx.paging_token))
                  st'))
              (record st { world = w })
              (Forwarded rest)
      go (ok events) w e = sent_one tx rest st events h e (others w)
      go (err x) w e = record { rest = tx ∷ rest; in_order = moved (tx ∷ rest) st w h }
      go crash w e = record { rest = tx ∷ rest; in_order = moved (tx ∷ rest) st w h }
      go unfinished w e = record { rest = tx ∷ rest; in_order = moved (tx ∷ rest) st w h }

  forward_all-Forwarded :
      (txs : List Transaction) (st : Streaming E)
      → InOrder E config cursor txs st
      → Post (forward_all config others txs) st (Forwarded [])
  unfolding forward_all
  forward_all-Forwarded [] st h = unfold pure in h
  forward_all-Forwarded (tx ∷ more) st h =
      bind_post (Forwarded more) (Forwarded []) (forward config others tx) _ st
        (record { on_err = λ e st' h'. h'; on_crash = λ st' h'. h'; on_unfinished = λ st' h'. h' })
        (λ _ st' h'. forward_all-Forwarded more st' h') (forward-Forwarded tx more st h)

  -- The loop goes on from any state in which all was sent.
  abbrev Again : Streamer E Unit → Type 0
  Again again = (st : Streaming E) → InOrder E config cursor [] st → Post again st Done

  pause-Done : (again : Streamer E Unit) → Again again → Again (pause config others again)
  unfolding pause in_world wait ◌>>=◌
  pause-Done again goes_on st h =
      if_post Done (E.wait st.world.outside).0 _ again _
        (λ _. unfold raise in (refl, record { rest = []; in_order = moved [] st _ h }))
        (λ _. goes_on _ (moved [] st _ h))

  pause_if_empty-Done :
      (records : List Transaction) (again : Streamer E Unit)
      → Again again
      → Again (pause_if_empty config others records again)
  unfolding pause_if_empty
  pause_if_empty-Done [] again goes_on = pause-Done again goes_on
  pause_if_empty-Done (tx ∷ more) again goes_on = goes_on

  page_kept :
      (records : List Transaction) (st : Streaming E)
      → InOrder E config cursor [] st
      → InOrder E config cursor records (record st { pages = (st.cursor, records) ∷ st.pages })
  page_kept records st h =
      let all : flat st.pages ≡ h.handled = h.fetched ∙ append-nil h.handled in
      record {
        handled = h.handled;
        fetched = ap (λ l. l ++ records) all;
        aligned = h.aligned;
        behind = h.behind;
        chained = (h.behind ∙ ap (last_token cursor) (sym all), h.chained);
      }

  after_page-Done :
      (again : Streamer E Unit) (records : List Transaction)
      → Again again
      → (st : Streaming E) → InOrder E config cursor records st
      → Post (after_response config others again (value records)) st Done
  unfolding after_response
  after_page-Done again records goes_on st h =
      bind_post (Forwarded []) Done (forward_all config others records) _ st
        (record {
          on_err = λ e st' h'. (refl, h');
          on_crash = λ st' h'. (refl, h');
          on_unfinished = λ st' h'. (refl, h');
        })
        (λ _ st' h'. pause_if_empty-Done records again goes_on st' h')
        (forward_all-Forwarded records st h)

  response-Done :
      (client : HorizonClient) (again : Streamer E Unit)
      → Again again
      → Again (try (fetch config others client) >>= after_response config others again)
  unfolding fetch transactions after_response ◌>>=◌
  response-Done client again goes_on st h =
      go (E.transactions client config.stellar_bridge_account st.cursor st.world.outside).0 _
    where
      go :
          (r : Result (List Transaction)) (s : E.State)
          → let got = lift r (record st {
            world = record st.world { outside = s };
            pages = with_page st.cursor r st.pages;
          }) in
            Post (continue (caught got.0) (after_response config others again)) got.1 Done
      go (value records) s = after_page-Done again records goes_on _ (
          moved records (record st { pages = (st.cursor, records) ∷ st.pages }) _
            (page_kept records st h))
      go (error e) s = pause-Done again goes_on _ (moved [] st _ h)

  stream_loop-Done :
      (fuel : ℕ) (client : HorizonClient) → Again (stream_loop config others fuel client)
  unfolding stream_loop in_world poll ◌>>=◌
  stream_loop-Done zero client st h = (refl, record { rest = []; in_order = h })
  stream_loop-Done (suc fuel) client st h =
      if_post Done (E.poll st.world.outside).0 _ _ _
        (λ _. unfold raise in (refl, record { rest = []; in_order = moved [] st _ h }))
        (λ _.
          response-Done client (stream_loop config others fuel client)
            (stream_loop-Done fuel client) _ (moved [] st _ h))

  -- However long it runs, `StreamBridgeStellarTransactions` does not return without an error. It sends
  -- one message for each transaction that it fetched, in the order in which it fetched them, with what
  -- `processTransaction` returned for it, but for a rest that it had not sent when it stopped. The
  -- first page is asked for with the cursor that it was given, and each later one with the paging
  -- token of the last transaction fetched before, so none of those fetched is left out or sent twice. This
  -- holds whatever the rest of the daemon does while a message waits.
  pub stream_bridge_stellar_transactions-InOrder :
      (fuel : ℕ) (w : World E)
      → Post
          (stream_bridge_stellar_transactions config others fuel)
          (record { world = w; cursor = cursor; sent = []; pages = [] })
          Done
  unfolding stream_bridge_stellar_transactions
  stream_bridge_stellar_transactions-InOrder fuel w =
      let begins : InOrder E config cursor []
          (record { world = w; cursor = cursor; sent = []; pages = [] }) =
        record { handled = []; fetched = refl; aligned = tt; behind = refl; chained = tt } in
      bind_lift_post Done (get_horizon_client config) _ _
        (λ client _. stream_loop-Done fuel client _ begins)
        (λ e. (refl, record { rest = []; in_order = begins }))
