-- ===== src/Stellar/Wallet/Effects.antt =====
-- What the functions of the wallet leave in the trace: nothing but the submission.
use tfchain_tft_bridge.Prelude.{ℕ, ℤ, refl, Bool, arith, Text, Option, none, some}
use tfchain_tft_bridge.Errors.{Error}
use tfchain_tft_bridge.Exec.{◌>>=◌}
use tfchain_tft_bridge.Config.{StellarConfig}
use tfchain_tft_bridge.Env.{Env}
use tfchain_tft_bridge.Env.Types.{Account, TransactionParams}
use tfchain_tft_bridge.World.Quiet.{IsQuiet, IsQuiet-pure, IsQuiet-raise, quiet_rules}
use tfchain_tft_bridge.Stellar.Wallet.{
  StellarWallet, get_account_details, set_sequence_number, next_sequence, error_or_done,
  load_sequence_number, reset_account_sequence, check_account, generate_payment_operation,
  create_transaction, signature_and_sequence, create_payment_and_return_signature,
  create_refund_and_return_signature,
}

module _ {E : Env} where
  get_account_details-IsQuiet :
      (config : StellarConfig) (address : Text)
      → IsQuiet (get_account_details {E = E} config address)
  unfolding get_account_details
  get_account_details-IsQuiet config address = search quiet_rules

  set_sequence_number-IsQuiet : (n : ℤ) → IsQuiet (set_sequence_number {E = E} n)
  unfolding set_sequence_number ◌>>=◌
  set_sequence_number-IsQuiet n = record { at = λ w. refl }

  next_sequence-IsQuiet : (n : ℤ) → IsQuiet (next_sequence {E = E} n)
  unfolding next_sequence ◌>>=◌
  next_sequence-IsQuiet n = record { at = λ w. refl }

  error_or_done-IsQuiet : (e : Option Error) → IsQuiet (error_or_done {E = E} e)
  unfolding error_or_done
  error_or_done-IsQuiet none = IsQuiet-pure tt
  error_or_done-IsQuiet (some e) = IsQuiet-raise e

  load_sequence_number-IsQuiet :
      (account : Account) → IsQuiet (load_sequence_number {E = E} account)
  unfolding load_sequence_number
  load_sequence_number-IsQuiet account =
      search (quiet_rules, set_sequence_number-IsQuiet, error_or_done-IsQuiet)

  pub reset_account_sequence-IsQuiet :
      (config : StellarConfig) → IsQuiet (reset_account_sequence {E = E} config)
  unfolding reset_account_sequence
  reset_account_sequence-IsQuiet config =
      search (quiet_rules, get_account_details-IsQuiet, load_sequence_number-IsQuiet)

ruleset wallet_rules =
    (quiet_rules, get_account_details-IsQuiet, next_sequence-IsQuiet, load_sequence_number-IsQuiet)

module _ {E : Env} (w : StellarWallet E) where
  pub check_account-IsQuiet : (account : Text) → IsQuiet (check_account w account)
  unfolding check_account
  check_account-IsQuiet account = search wallet_rules

  pub generate_payment_operation-IsQuiet :
      (amount : ℕ) (destination : Text) (n : ℤ)
      → IsQuiet (generate_payment_operation w amount destination n)
  unfolding generate_payment_operation
  generate_payment_operation-IsQuiet amount destination n = search wallet_rules

  pub create_transaction-IsQuiet :
      (params : TransactionParams) (sign : Bool) → IsQuiet (create_transaction w params sign)
  unfolding create_transaction
  create_transaction-IsQuiet params sign = search wallet_rules

  signature_and_sequence-IsQuiet : (tx : E.Tx) → IsQuiet (signature_and_sequence w tx)
  unfolding signature_and_sequence ◌>>=◌
  signature_and_sequence-IsQuiet tx = record { at = λ w'. ground arith }

  pub create_payment_and_return_signature-IsQuiet :
      (target : Text) (amount : ℕ) → IsQuiet (create_payment_and_return_signature w target amount)
  unfolding create_payment_and_return_signature
  create_payment_and_return_signature-IsQuiet target amount = search (
    wallet_rules, generate_payment_operation-IsQuiet, create_transaction-IsQuiet,
    signature_and_sequence-IsQuiet,
  )

  pub create_refund_and_return_signature-IsQuiet :
      (target : Text) (amount : ℕ) (hash : Text)
      → IsQuiet (create_refund_and_return_signature w target amount hash)
  unfolding create_refund_and_return_signature
  create_refund_and_return_signature-IsQuiet target amount hash =
      search
        (
          wallet_rules, generate_payment_operation-IsQuiet, create_transaction-IsQuiet,
          signature_and_sequence-IsQuiet,
        )
        depth 8
