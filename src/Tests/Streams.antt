-- ===== src/Tests/Streams.antt =====
-- The theorems on the two goroutines and on what they send, on the small chain with one deposit.
use tfchain_tft_bridge.Prelude.{refl, pos, ◌≡◌, ◌↔◌, ◌⊎◌, false, none, [], ◌∷◌, codes}
use tfchain_tft_bridge.Errors.{value}
use tfchain_tft_bridge.Exec.Rules.{Post}
use tfchain_tft_bridge.Env.{Env, Stellar}
use tfchain_tft_bridge.Env.Types.{Effect, Operation, EventRecords}
use tfchain_tft_bridge.World.{World}
use tfchain_tft_bridge.Substrate.Subscription.{subscribe_tfchain_bridge_events}
use tfchain_tft_bridge.Substrate.Subscription.Heads as Heads
use tfchain_tft_bridge.Stellar.Deposits.{collect, is_skipped, process_transaction}
use tfchain_tft_bridge.Stellar.Deposits.Ledger.{IsCollected, collect-IsCollected}
use tfchain_tft_bridge.Stellar.Deposits.Credits.{is_skipped-not_asset}
use tfchain_tft_bridge.Stellar.Deposits.Credits as Credits
use tfchain_tft_bridge.Stellar.Asset
use tfchain_tft_bridge.Stellar.Deposits.Found.{Processes, process_transaction-Processes}
use tfchain_tft_bridge.Stellar.Stream.{stream_bridge_stellar_transactions}
use tfchain_tft_bridge.Stellar.Stream.Order as Order
use tfchain_tft_bridge.Stellar.Deposits.Count.{Counts, process_transaction-Counts}
use tfchain_tft_bridge.Stellar.Deposits.{get_transaction_effects, get_operation_effect}
use tfchain_tft_bridge.Stellar.Network.{get_horizon_client, get_asset_code_and_issuer}
use tfchain_tft_bridge.Prelude.{text_eq}
use tfchain_tft_bridge.Exec.{lift, ◌>>=◌}
use tfchain_tft_bridge.World.{ask}
use tfchain_tft_bridge.Tests.{
  Sim, sim_chain, sim_stellar, sim_host, answer, config, deposit, stored_hash,
}

abbrev credit : Effect
credit = record {
  account = codes "GBRIDGE";
  kind = codes "account_credited";
  asset_code = codes "TFT";
  asset_issuer = codes "GOTHER";
}

abbrev payment : Operation
payment = record {
  kind = codes "payment";
  from_account = codes "GALICE";
  to_account = codes "GBRIDGE";
  amount = codes "2.5";
  asset_code = codes "TFT";
  asset_issuer = codes "GOTHER";
}

-- Horizon gives one deposit of one payment.
abbrev busy_stellar : Stellar Sim
busy_stellar = record sim_stellar {
  transactions = λ client account cursor. answer (deposit ∷ []);
  effects = λ client hash. answer (credit ∷ []);
  operations = λ client hash. answer (payment ∷ payment ∷ []);
  parse_int64 = λ amount. value (pos 25000000);
}

abbrev busy : Env
busy = record { State = Sim; chain = sim_chain; stellar = busy_stellar; host = sim_host }

abbrev busy_world : World busy
busy_world = record {
  outside = record { rounds = 2; done = false; file = none };
  sequence_number = pos 7;
  trace = [];
}

collect-IsCollected_example :
    IsCollected busy
      (codes "GBRIDGE")
      (payment ∷ payment ∷ [])
      (collect busy (codes "GBRIDGE") (payment ∷ payment ∷ []) [])
collect-IsCollected_example = collect-IsCollected busy (codes "GBRIDGE") (payment ∷ payment ∷ [])

process_transaction-Processes_example :
    Post (process_transaction config deposit) busy_world (Processes busy config deposit busy_world)
process_transaction-Processes_example = process_transaction-Processes busy config deposit busy_world

process_transaction-Counts_example : Counts 1 (process_transaction config deposit busy_world).0
unfolding get_transaction_effects get_operation_effect get_horizon_client text_eq ask lift ◌>>=◌
    is_skipped get_asset_code_and_issuer
process_transaction-Counts_example =
    process_transaction-Counts config deposit
      (λ w. (payment ∷ payment ∷ [], refl, (refl, (refl, tt)))) (credit ∷ []) busy_world refl refl

is_skipped_iff_example : (is_skipped config credit ≡ false) ↔ (
    Credits.IsCredit config credit
    × ((codes "TFT" ≡ Asset.tft_code) ⊎ (codes "GOTHER" ≡ Asset.tft_issuer config)))
is_skipped_iff_example = Credits.is_skipped_iff config credit

stream_bridge_stellar_transactions-InOrder_example :
    Post
      (stream_bridge_stellar_transactions {E = busy} config (λ w. w) 2)
      (record { world = busy_world; cursor = codes "0"; sent = []; pages = [] })
      (Order.Done config (λ w. w) (codes "0"))
stream_bridge_stellar_transactions-InOrder_example =
    Order.stream_bridge_stellar_transactions-InOrder config (λ w. w) (codes "0") 2 busy_world

subscribe_tfchain_bridge_events-Answers_example :
    Post
      (subscribe_tfchain_bridge_events {E = busy} (λ w. w) 3)
      (record { world = busy_world; sent = []; heads = [] })
      Heads.Done
subscribe_tfchain_bridge_events-Answers_example =
    Heads.subscribe_tfchain_bridge_events-Answers (λ w. w) 3 busy_world

abbrev block : EventRecords
block = record {
  refund_transaction_ready = record { refund_transaction_hash = stored_hash } ∷ [];
  refund_transaction_expired = [];
  burn_transaction_created = [];
  burn_transaction_ready =
      record { burn_transaction_id = 4 } ∷ record { burn_transaction_id = 5 } ∷ [];
  burn_transaction_expired = [];
}
