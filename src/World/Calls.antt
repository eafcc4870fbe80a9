-- ===== src/World/Calls.antt =====
-- The calls of the client library and of the Stellar SDK that leave an entry in the trace.
use tfchain_tft_bridge.Prelude.{ℕ, ℤ, Bool, Text}
use tfchain_tft_bridge.Errors.{succeeded}
use tfchain_tft_bridge.Env.{Env}
use tfchain_tft_bridge.Env.Types.{AccountId, HorizonClient}
use tfchain_tft_bridge.World.{
  Action, perform, question, told, told_mint, is_minted, is_refunded, is_burned, propose_mint,
  propose_burn, set_burn_executed, create_refund, set_refund_executed, submit,
}

module _ (E : Env) where
  abbrev pub is_minted_already : Text → Action E Bool
  is_minted_already hash = question E (told_mint (is_minted hash)) (E.is_minted_already hash)

  abbrev pub is_refunded_already : Text → Action E Bool
  is_refunded_already hash = question E (told (is_refunded hash)) (E.is_refunded_already hash)

  abbrev pub is_burned_already : ℕ → Action E Bool
  is_burned_already id = question E (told (is_burned id)) (E.is_burned_already id)

  abbrev pub submit_transaction : HorizonClient → E.Tx → Action E Text
  submit_transaction client tx = perform E (submit tx) succeeded (E.submit_transaction client tx)

  module _ (identity : E.Identity) where
    abbrev pub propose_or_vote_mint_transaction : Text → AccountId → ℤ → Action E Unit
    propose_or_vote_mint_transaction id target amount =
        perform E (propose_mint id target amount) succeeded
          (E.propose_or_vote_mint_transaction identity id target amount)

    abbrev pub propose_burn_transaction_or_add_sig : ℕ → Text → ℤ → Text → Text → ℕ → Action E Unit
    propose_burn_transaction_or_add_sig id target amount signature address sequence =
        perform E (propose_burn id target amount signature address sequence) succeeded (
          E.propose_burn_transaction_or_add_sig identity id target amount signature address
            sequence)

    abbrev pub set_burn_transaction_executed : ℕ → Action E Unit
    set_burn_transaction_executed id =
        perform E (set_burn_executed id) succeeded (E.set_burn_transaction_executed identity id)

    abbrev pub create_refund_transaction_or_add_sig :
        Text → Text → ℤ → Text → Text → ℕ → Action E Unit
    create_refund_transaction_or_add_sig hash target amount signature address sequence =
        perform E (create_refund hash target amount signature address sequence) succeeded (
          E.create_refund_transaction_or_add_sig identity hash target amount signature address
            sequence)

    abbrev pub set_refund_transaction_executed : Text → Action E Unit
    set_refund_transaction_executed hash =
        perform E (set_refund_executed hash) succeeded
          (E.set_refund_transaction_executed identity hash)
