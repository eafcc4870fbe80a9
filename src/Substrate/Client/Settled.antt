-- ===== src/Substrate/Client/Settled.antt =====
-- The trace of each retry function of tfchain_bridge/pkg/substrate/client.go.
use tfchain_tft_bridge.Prelude.{ℕ, ℤ, Bool, true, false, Text, refl, ◌∷◌, if◌then◌else◌}
use tfchain_tft_bridge.Errors.{Error, Result, value, error, is_error, mint_transaction_not_found}
use tfchain_tft_bridge.Exec.{pure, raise, lift, try, ◌>>=◌}
use tfchain_tft_bridge.Env.{Env}
use tfchain_tft_bridge.Env.Types.{AccountId, Context}
use tfchain_tft_bridge.World.{
  World, Action, Request, unanswered, told_mint, question, is_minted, is_refunded, is_burned,
  propose_mint, propose_burn, set_burn_executed, create_refund, set_refund_executed,
}
use tfchain_tft_bridge.World.Calls
use tfchain_tft_bridge.Substrate.Client.{
  SubstrateClient, error_of_check, error_of_attempt, no_mint_found, check_minted,
  retry_set_withdraw_executed, retry_propose_withdraw_or_add_sig,
  retry_create_refund_transaction_or_add_sig, retry_set_refund_transaction_executed_tx,
  retry_propose_mint_or_vote,
}
use tfchain_tft_bridge.Substrate.Client.Trace.{Retried, Asks, perform-Logs, question-Asks}
use tfchain_tft_bridge.Substrate.Client.Retry.{retry-Retried}

module _ {E : Env} where
  not_found-Asks :
      (q : Request E.Tx) (e : Error) (s : E.State) (w : World E) (found : Bool)
      → let m : Action E Bool = if found then pure false else raise e in
        let after : World E = record w {
          outside = s;
          trace = (if found then (q, false) else (unanswered q, false)) ∷ w.trace;
        } in
        Asks E q (m after).0 w (m after).1
  unfolding pure raise
  not_found-Asks q e s w true = record { trace = refl; sequence_number = refl }
  not_found-Asks q e s w false = record { trace = refl; sequence_number = refl }

  -- Behind the error for a mint that is not found the answer is no; behind any other there is none.
  pub check_minted-Asks :
      (hash : Text) (w : World E)
      → Asks E (is_minted hash) (check_minted {E = E} hash w).0 w (check_minted {E = E} hash w).1
  unfolding check_minted question lift try ◌>>=◌
  check_minted-Asks hash w =
      go (E.is_minted_already hash w.outside).0 (E.is_minted_already hash w.outside).1
    where
      go :
          (r : Result Bool) (s : E.State)
          → let after : World E = record w {
            outside = s;
            trace = told_mint (is_minted hash) r ∷ w.trace;
          } in
            let m : Action E Bool = try (lift r) >>= no_mint_found {E = E} in
            Asks E (is_minted hash) (m after).0 w (m after).1
      go (value b) s = record { trace = refl; sequence_number = refl }
      go (error e) s = not_found-Asks (is_minted hash) e s w (is_error e mint_transaction_not_found)

module _ {E : Env} (fuel : ℕ) (s : SubstrateClient E) (ctx : Context) where
  pub retry_set_withdraw_executed-Retried :
      (id : ℕ) (w : World E)
      → Retried
          (set_burn_executed id)
          (is_burned id)
          w.trace
          (retry_set_withdraw_executed fuel s ctx id w).0
          (retry_set_withdraw_executed fuel s ctx id w).1.trace
  unfolding retry_set_withdraw_executed
  retry_set_withdraw_executed-Retried id w =
      retry-Retried (set_burn_executed id) (is_burned id) _ (Calls.is_burned_already E id)
        (perform-Logs E _ _) (question-Asks E _ (E.is_burned_already id)) fuel ctx error_of_check w

  pub retry_propose_withdraw_or_add_sig-Retried :
      (id : ℕ) (target : Text) (amount : ℤ) (signature address : Text) (sequence : ℕ) (w : World E)
      → let m =
          retry_propose_withdraw_or_add_sig fuel s ctx id target amount signature address
            sequence in
        Retried
          (propose_burn id target amount signature address sequence)
          (is_burned id)
          w.trace
          (m w).0
          (m w).1.trace
  unfolding retry_propose_withdraw_or_add_sig
  retry_propose_withdraw_or_add_sig-Retried id target amount signature address sequence w =
      retry-Retried (propose_burn id target amount signature address sequence) (is_burned id) _
        (Calls.is_burned_already E id) (perform-Logs E _ _)
        (question-Asks E _ (E.is_burned_already id)) fuel ctx error_of_check w

  pub retry_create_refund_transaction_or_add_sig-Retried :
      (hash target : Text) (amount : ℤ) (signature address : Text) (sequence : ℕ) (w : World E)
      → let m =
          retry_create_refund_transaction_or_add_sig fuel s ctx hash target amount signature address
            sequence in
        Retried
          (create_refund hash target amount signature address sequence)
          (is_refunded hash)
          w.trace
          (m w).0
          (m w).1.trace
  unfolding retry_create_refund_transaction_or_add_sig
  retry_create_refund_transaction_or_add_sig-Retried hash target amount signature address sequence
        w =
      retry-Retried (create_refund hash target amount signature address sequence) (is_refunded hash)
        _ (Calls.is_refunded_already E hash) (perform-Logs E _ _)
        (question-Asks E _ (E.is_refunded_already hash)) fuel ctx error_of_check w

  pub retry_set_refund_transaction_executed_tx-Retried :
      (hash : Text) (w : World E)
      → Retried
          (set_refund_executed hash)
          (is_refunded hash)
          w.trace
          (retry_set_refund_transaction_executed_tx fuel s ctx hash w).0
          (retry_set_refund_transaction_executed_tx fuel s ctx hash w).1.trace
  unfolding retry_set_refund_transaction_executed_tx
  retry_set_refund_transaction_executed_tx-Retried hash w =
      retry-Retried (set_refund_executed hash) (is_refunded hash) _
        (Calls.is_refunded_already E hash) (perform-Logs E _ _)
        (question-Asks E _ (E.is_refunded_already hash)) fuel ctx error_of_check w

  -- The trace of `RetryProposeMintOrVote`: proposals that failed and questions that were
  -- answered with no or not at all, and, exactly if it returns without an error, one last entry: a proposal
  -- that succeeded, or the answer that the transaction is minted.
  pub retry_propose_mint_or_vote-Retried :
      (id : Text) (target : AccountId) (amount : ℤ) (w : World E)
      → Retried
          (propose_mint id target amount)
          (is_minted id)
          w.trace
          (retry_propose_mint_or_vote fuel s ctx id target amount w).0
          (retry_propose_mint_or_vote fuel s ctx id target amount w).1.trace
  unfolding retry_propose_mint_or_vote
  retry_propose_mint_or_vote-Retried id target amount w =
      retry-Retried (propose_mint id target amount) (is_minted id) _ (check_minted id)
        (perform-Logs E _ _) (check_minted-Asks id) fuel ctx error_of_attempt w
