-- ===== src/Stellar/Stream.antt =====
-- `StreamBridgeStellarTransactions` of tfchain_bridge/pkg/stellar/stellar.go: the transactions of the
-- bridge account, page by page, sent to the main loop.
pub mod Order
use tfchain_tft_bridge.Prelude.{ℕ, zero, suc, none, List, [], ◌∷◌, ◌++◌, Text, if◌then◌else◌}
use tfchain_tft_bridge.Errors.{Error, sentinel, canceled, Result, value, error}
use tfchain_tft_bridge.Exec.{Exec, unfinished, ok, pure, raise, lift, try, ◌>>=◌, ◌>>◌}
use tfchain_tft_bridge.Config.{StellarConfig}
use tfchain_tft_bridge.Env.{Env}
use tfchain_tft_bridge.Env.Types.{HorizonClient, Transaction, running}
use tfchain_tft_bridge.World.{World, Action, ask}
use tfchain_tft_bridge.Substrate.Client.{wait}
use tfchain_tft_bridge.Stellar.Network.{get_horizon_client}
use tfchain_tft_bridge.Stellar.Deposits.{MintEventSubscription, process_transaction}

-- The world; `opRequest.Cursor`; what was sent on the channel, oldest first; and, for the statements
-- only, the pages that Horizon gave, newest first, each with the cursor it was asked for with.
pub record Streaming (E : Env) : Type 0 where
  pub world : World E
  pub cursor : Text
  pub sent : List MintEventSubscription
  pub pages : List (Text × List Transaction)

abbrev pub Streamer : Env → Type 0 → Type 0
Streamer E A = Exec (Streaming E) A

abbrev pub with_page :
    Text
    → Result (List Transaction)
    → List (Text × List Transaction)
    → List (Text × List Transaction)
with_page cursor (value records) pages = (cursor, records) ∷ pages
with_page cursor (error _) pages = pages

module _ {E : Env} where
  unfoldable pub in_world : {A : Type 0} → Action E A → Streamer E A
  in_world m st = let (o, w) = m st.world in (o, record st { world = w })

  unfoldable pub poll : Action E (tfchain_tft_bridge.Prelude.Bool)
  poll w = let (ended, s) = E.poll w.outside in (ok ended, record w { outside = s })

-- `others` is what the rest of the daemon does until the main loop receives a message: the channel has
-- no buffer.
module _ {E : Env} (config : StellarConfig) (others : World E → World E) where
  unfoldable pub send : MintEventSubscription → Streamer E Unit
  send message st = (ok tt, record st { sent = st.sent ++ message ∷ []; world = others st.world })

  unfoldable pub set_cursor : Text → Streamer E Unit
  set_cursor cursor st = (ok tt, record st { cursor = cursor })

  unfoldable pub forward : Transaction → Streamer E Unit
  forward tx = do
    events ← in_world (process_transaction config tx)
    send (record { events = events; err = none })
    set_cursor tx.paging_token

  -- The loop over the records of a page.
  unfoldable pub forward_all : List Transaction → Streamer E Unit
  forward_all [] = pure tt
  forward_all (tx ∷ more) = do forward tx; forward_all more

  -- A `select` between the end of the context and a timer.
  unfoldable pub pause : Streamer E Unit → Streamer E Unit
  pause again = do
    ended ← in_world (wait running)
    if ended then raise (sentinel canceled) else again

  unfoldable pub pause_if_empty : List Transaction → Streamer E Unit → Streamer E Unit
  pause_if_empty [] again = pause again
  pause_if_empty (tx ∷ more) again = again

  -- `client.Transactions(opRequest)`. A page is noted with the cursor that Horizon was given.
  unfoldable pub transactions : HorizonClient → Text → Streamer E (List Transaction)
  transactions client cursor st =
      let (r, s) = E.transactions client config.stellar_bridge_account cursor st.world.outside in
      lift r
        (record st { world = record st.world { outside = s }; pages = with_page cursor r st.pages })

  unfoldable pub fetch : HorizonClient → Streamer E (List Transaction)
  unfolding transactions
  fetch client st = transactions client st.cursor st

  unfoldable pub after_response : Streamer E Unit → Result (List Transaction) → Streamer E Unit
  after_response again (error _) = pause again
  after_response again (value records) = do forward_all records; pause_if_empty records again

  unfoldable pub stream_loop : ℕ → HorizonClient → Streamer E Unit
  unfolding after_response
  stream_loop zero client = λ st. (unfinished, st)
  stream_loop (suc fuel) client = do
    ended ← in_world poll
    if ended
        then raise (sentinel canceled)
        else do response ← try (fetch client); after_response (stream_loop fuel client) response

  unfoldable pub stream_bridge_stellar_transactions : ℕ → Streamer E Unit
  unfolding stream_loop
  stream_bridge_stellar_transactions fuel = do
    client ← lift (get_horizon_client config)
    stream_loop fuel client
