-- ===== src/Tests/Rounds.antt =====
-- The theorem that no event is left out, on the small chain.
use tfchain_tft_bridge.Bridge.Start.Covered.{AllCovered, on_events-Covered}
use tfchain_tft_bridge.Bridge.Start.{on_events, each, after_handler}
use tfchain_tft_bridge.Substrate.Events.{Events, no_events}
use tfchain_tft_bridge.Prelude.{text_eq, low_int64, to_int64, to_uint64, ◌+ℤ◌, refl, [], ◌∷◌}
use tfchain_tft_bridge.Exec.{pure, raise, lift, try, wrapping, ◌>>=◌}
use tfchain_tft_bridge.World.{ask, perform, question}
use tfchain_tft_bridge.Go.Rat.{float_string}
use tfchain_tft_bridge.Go.Strconv.{format}
use tfchain_tft_bridge.Go.Strings.{split}
use tfchain_tft_bridge.Substrate.Client.{
  retry, wait, retry_loop, after_attempt, after_check, retry_set_withdraw_executed,
}
use tfchain_tft_bridge.Stellar.Network.{
  get_horizon_client, get_asset_code_and_issuer, get_network_pass_phrase,
}
use tfchain_tft_bridge.Stellar.Wallet.{
  create_payment_with_signatures_and_submit, generate_payment_operation, get_account_details,
  next_sequence, create_transaction, sign_and_submit, add_signatures, submit_transaction,
  after_submit, set_sequence_number, payment_params,
}
use tfchain_tft_bridge.Bridge.Withdraw.{handle_withdraw_ready, pay_withdraw}
use tfchain_tft_bridge.Tests.{bridge, fresh}

abbrev one_ready : Events
one_ready = record no_events { withdraw_ready_events = record { id = 4 } ∷ [] }

on_events-Covered_example :
    AllCovered 2 bridge one_ready fresh (on_events 2 bridge one_ready fresh).1
unfolding on_events each after_handler handle_withdraw_ready ◌>>=◌ perform question ask pay_withdraw
    create_payment_with_signatures_and_submit generate_payment_operation get_account_details
    get_horizon_client text_eq next_sequence create_transaction sign_and_submit add_signatures
    submit_transaction after_submit retry_set_withdraw_executed retry lift pure raise try wrapping
    float_string format split low_int64 to_int64 to_uint64 ◌+ℤ◌ get_asset_code_and_issuer
    get_network_pass_phrase payment_params set_sequence_number after_attempt after_check retry_loop
    wait
on_events-Covered_example = on_events-Covered 2 bridge one_ready fresh refl
