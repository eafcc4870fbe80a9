-- ===== src/Tests/Parser.antt =====
-- The theorem on the event parser, on a node that lacks the last of the three blocks.
use tfchain_tft_bridge.Prelude.{◌==◌, ◌≡◌, [], ◌∷◌, codes, false, if◌then◌else◌}
use tfchain_tft_bridge.Errors.{value, error, foreign}
use tfchain_tft_bridge.Env.Types.{EventRecords}
use tfchain_tft_bridge.Tools.EventParser.{Node, main}
use tfchain_tft_bridge.Tools.EventParser.Reports.{report, main-reports}

abbrev block : EventRecords
block = record {
  refund_transaction_ready = record { refund_transaction_hash = codes "0a1b" } ∷ [];
  refund_transaction_expired = [];
  burn_transaction_created = [];
  burn_transaction_ready =
      record { burn_transaction_id = 4 } ∷ record { burn_transaction_id = 5 } ∷ [];
  burn_transaction_expired = [];
}

abbrev node : Node
node = record {
  substrate = λ url. value tt;
  get_events_for_block = λ height. if height == 1677589 then error (foreign 1) else value block;
  is_failed_to_decode = λ e. false;
}

main-reports_example : main node [] ≡ (
  (report node.get_events_for_block 3 1677587).1,
  (report node.get_events_for_block 3 1677587).0,
)
main-reports_example = main-reports node
