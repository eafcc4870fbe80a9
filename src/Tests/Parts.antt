-- ===== src/Tests/Parts.antt =====
-- The theorems on the wallet, the retry loops, the file, the memos and the names, on the small chain.
use tfchain_tft_bridge.Prelude.{ℕ, ◌%◌, ◌^◌, pos, ◌≡◌, refl, some, [], ◌∷◌, ◌++◌, codes, arith}
use tfchain_tft_bridge.Exec.{ok}
use tfchain_tft_bridge.Exec.Rules.{Post}
use tfchain_tft_bridge.Exec.{◌>>=◌}
use tfchain_tft_bridge.Env.Types.{running, no_memo}
use tfchain_tft_bridge.World.{perform, set_burn_executed, is_burned}
use tfchain_tft_bridge.World.Calls
use tfchain_tft_bridge.Go.Strconv.{format}
use tfchain_tft_bridge.Go.Rat.{float_string, stroops, stroops-float_string}
use tfchain_tft_bridge.Persistency.{get_height, save, save_stellar_cursor}
use tfchain_tft_bridge.Persistency.Saved.{get_height-save_stellar_cursor}
use tfchain_tft_bridge.Substrate.Client.{retry, error_of_check}
use tfchain_tft_bridge.Substrate.Client.Trace.{Retried, perform-Logs, question-Asks}
use tfchain_tft_bridge.Substrate.Client.Retry.{retry-Retried}
use tfchain_tft_bridge.Stellar.Wallet.{
  create_payment_and_return_signature, create_payment_with_signatures_and_submit,
}
use tfchain_tft_bridge.Stellar.Wallet.Generation.{number_for}
use tfchain_tft_bridge.Stellar.Wallet.Submission.{Submits}
use tfchain_tft_bridge.Stellar.Wallet.Payments.{
  IsSignedPayment, create_payment_with_signatures_and_submit-Submits,
}
use tfchain_tft_bridge.Stellar.Wallet.Signing.{
  IsSignature, Signs, create_payment_and_return_signature-Signs,
}
use tfchain_tft_bridge.Bridge.Memo.{get_substrate_address_from_memo}
use tfchain_tft_bridge.Bridge.Memo.Address.{
  farm, account_text, get_substrate_address_from_memo-numbered,
}
use tfchain_tft_bridge.Bridge.Withdraw.MintId.{mint_id-injective}
use tfchain_tft_bridge.Tests.{sim, sim-IsReliable, bridge, fresh, two_signatures}

create_payment_with_signatures_and_submit-Submits_example :
    Post
      (create_payment_with_signatures_and_submit bridge.wallet
        (codes "GC")
        25
        two_signatures
        (pos 8))
      fresh
      (λ o t.
        Submits sim
          (IsSignedPayment bridge.wallet
            (codes "GC")
            25
            (number_for (pos 8) fresh.sequence_number)
            no_memo
            two_signatures)
          fresh.trace
          o
          t.trace)
create_payment_with_signatures_and_submit-Submits_example =
    create_payment_with_signatures_and_submit-Submits bridge.wallet (codes "GC") 25 two_signatures
      (pos 8) fresh

create_payment_and_return_signature-Signs_example :
    Post (create_payment_and_return_signature bridge.wallet (codes "GC") 25) fresh (
      Signs bridge.wallet
        (IsSignature bridge.wallet (codes "GC") 25 no_memo fresh.sequence_number)
        fresh)
create_payment_and_return_signature-Signs_example =
    create_payment_and_return_signature-Signs bridge.wallet (codes "GC") 25 fresh

retry-Retried_example :
    Retried
      (set_burn_executed 4)
      (is_burned 4)
      fresh.trace
      (retry 2 running
        (Calls.set_burn_transaction_executed sim 0 4)
        (Calls.is_burned_already sim 4)
        error_of_check
        fresh).0
      (retry 2 running
        (Calls.set_burn_transaction_executed sim 0 4)
        (Calls.is_burned_already sim 4)
        error_of_check
        fresh).1.trace
retry-Retried_example =
    retry-Retried (set_burn_executed 4) (is_burned 4) (Calls.set_burn_transaction_executed sim 0 4)
      (Calls.is_burned_already sim 4) (perform-Logs sim _ _) (question-Asks sim _ _) 2 running
      error_of_check fresh

get_height-save_stellar_cursor_example :
    (get_height bridge.block_persistency
      (save_stellar_cursor bridge.block_persistency (codes "77") fresh).1).0
    ≡ ok (record { last_height = 0; stellar_cursor = codes "77" })
unfolding get_height save_stellar_cursor save perform ◌>>=◌
get_height-save_stellar_cursor_example =
    get_height-save_stellar_cursor sim-IsReliable bridge.block_persistency (codes "77")
      (record { last_height = 0; stellar_cursor = [] }) fresh (omega arith, (omega arith, tt)) refl
      refl

get_substrate_address_from_memo-numbered_example :
    get_substrate_address_from_memo {E = sim} (codes "farm" ++ b'_' ∷ format 3)
    ≡ account_text farm (3 % 2 ^ 32)
get_substrate_address_from_memo-numbered_example =
    get_substrate_address_from_memo-numbered farm 3
      (omega arith, (omega arith, (omega arith, (omega arith, tt)))) (omega arith)

mint_id-injective_example : ◌≡◌ {A = ℕ} 4 4
mint_id-injective_example = mint_id-injective 4 4 (omega arith) (omega arith) refl

stroops-float_string_example : stroops (float_string (pos 25000000)) ≡ some 25000000
stroops-float_string_example = stroops-float_string 25000000 (omega arith)
