-- ===== src/Tests/Runs.antt =====
-- Runs of the handlers on the small chain: what they return and leave.
use tfchain_tft_bridge.Prelude.{
  text_eq, low_int64, to_int64, to_uint64, ◌+ℤ◌, ◌≡◌, refl, true, false, [], ◌∷◌, map,
}
use tfchain_tft_bridge.Exec.{ok, pure, raise, lift, try, wrapping, ◌>>=◌}
use tfchain_tft_bridge.Env.Types.{running}
use tfchain_tft_bridge.World.{Entry, ask, perform, question}
use tfchain_tft_bridge.Go.Rat.{float_string}
use tfchain_tft_bridge.Go.Strconv.{format}
use tfchain_tft_bridge.Go.Strings.{split}
use tfchain_tft_bridge.Substrate.Client.{
  retry, wait, retry_loop, after_attempt, after_check, retry_set_withdraw_executed,
}
use tfchain_tft_bridge.Stellar.Network.{
  get_horizon_client, get_asset_code_and_issuer, get_network_pass_phrase,
}
use tfchain_tft_bridge.Stellar.Wallet.{
  create_payment_with_signatures_and_submit, generate_payment_operation, get_account_details,
  next_sequence, create_transaction, sign_and_submit, add_signatures, submit_transaction,
  after_submit, set_sequence_number, payment_params,
}
use tfchain_tft_bridge.Bridge.Withdraw.{handle_withdraw_ready, pay_withdraw}
use tfchain_tft_bridge.Tests.{sim, bridge, fresh}

-- The withdrawal is paid, the first call to the chain fails, and after one wait a second succeeds.
paid_run :
    let run = handle_withdraw_ready 2 bridge running (record { id = 4 }) fresh in
    (run.0 ≡ ok tt)
    × (map (λ (e : Entry sim.Tx). e.1) run.1.trace ≡ true ∷ false ∷ false ∷ true ∷ false ∷ [])
unfolding handle_withdraw_ready ◌>>=◌ perform question ask pay_withdraw
    create_payment_with_signatures_and_submit generate_payment_operation get_account_details
    get_horizon_client text_eq next_sequence create_transaction sign_and_submit add_signatures
    submit_transaction after_submit retry_set_withdraw_executed retry lift pure raise try wrapping
    float_string format split low_int64 to_int64 to_uint64 ◌+ℤ◌ get_asset_code_and_issuer
    get_network_pass_phrase payment_params set_sequence_number after_attempt after_check retry_loop
    wait
paid_run = (refl, refl)
