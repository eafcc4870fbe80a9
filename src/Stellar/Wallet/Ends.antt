-- ===== src/Stellar/Wallet/Ends.antt =====
-- The functions of the wallet (tfchain_bridge/pkg/stellar/stellar.go) end, and do not put a deadline off.
use tfchain_tft_bridge.Prelude.{
  ℕ, ℤ, List, [], ◌∷◌, Text, Bytes, Bool, to_uint64, Option, none, some, arith,
}
use tfchain_tft_bridge.Errors.{Error, Result, value, error}
use tfchain_tft_bridge.Exec.{pure, abort}
use tfchain_tft_bridge.Env.{Env}
use tfchain_tft_bridge.Env.Types.{StellarSignature, Account, TransactionParams}
use tfchain_tft_bridge.Go.Base64.{base64_encode}
use tfchain_tft_bridge.Config.{StellarConfig}
use tfchain_tft_bridge.World.{Action}
use tfchain_tft_bridge.World.Timely.{
  Deadline, IsSteady, IsTimely, timely_rules, IsTimely-pure, IsTimely-raise, IsTimely-abort,
}
use tfchain_tft_bridge.Stellar.Wallet.{
  StellarWallet, get_account_details, set_sequence_number, next_sequence, error_or_done,
  load_sequence_number, reset_account_sequence, check_account, generate_payment_operation,
  create_transaction, signature_and_sequence, create_payment_and_return_signature,
  create_refund_and_return_signature, after_submit, submit_transaction, sign_and_submit,
  create_payment_with_signatures_and_submit, create_refund_payment_with_signatures_and_submit,
}

module _ {E : Env} (d : Deadline E) (steady : IsSteady d) (n : ℕ) where
  get_account_details-IsTimely :
      (config : StellarConfig) (address : Text)
      → IsTimely d n (get_account_details {E = E} config address)
  unfolding get_account_details
  get_account_details-IsTimely config address = search (timely_rules, steady.account_detail)

  set_sequence_number-IsTimely : (m : ℤ) → IsTimely d n (set_sequence_number {E = E} m)
  unfolding set_sequence_number pure
  set_sequence_number-IsTimely m = record { at = λ w h. (tt, omega arith) }

  next_sequence-IsTimely : (m : ℤ) → IsTimely d n (next_sequence {E = E} m)
  unfolding next_sequence set_sequence_number pure
  next_sequence-IsTimely m = record { at = λ w h. (tt, omega arith) }

  error_or_done-IsTimely : (e : Option Error) → IsTimely d n (error_or_done {E = E} e)
  unfolding error_or_done
  error_or_done-IsTimely none = IsTimely-pure d n tt
  error_or_done-IsTimely (some e) = IsTimely-raise d n e

  load_sequence_number-IsTimely : (a : Account) → IsTimely d n (load_sequence_number {E = E} a)
  unfolding load_sequence_number
  load_sequence_number-IsTimely a =
      search (timely_rules, set_sequence_number-IsTimely, error_or_done-IsTimely)

  reset_account_sequence-IsTimely :
      (config : StellarConfig) → IsTimely d n (reset_account_sequence {E = E} config)
  unfolding reset_account_sequence
  reset_account_sequence-IsTimely config =
      search (timely_rules, get_account_details-IsTimely, load_sequence_number-IsTimely)

  module _ (w : StellarWallet E) where
    pub check_account-IsTimely : (account : Text) → IsTimely d n (check_account w account)
    unfolding check_account
    check_account-IsTimely account = search (timely_rules, get_account_details-IsTimely)

    generate_payment_operation-IsTimely :
        (amount : ℕ) (target : Text) (m : ℤ)
        → IsTimely d n (generate_payment_operation w amount target m)
    unfolding generate_payment_operation
    generate_payment_operation-IsTimely amount target m =
        search (timely_rules, get_account_details-IsTimely, next_sequence-IsTimely) depth 12

    create_transaction-IsTimely :
        (params : TransactionParams) (sign : Bool) → IsTimely d n (create_transaction w params sign)
    unfolding create_transaction
    create_transaction-IsTimely params sign = search timely_rules

    signature_and_sequence-IsTimely : (tx : E.Tx) → IsTimely d n (signature_and_sequence w tx)
    unfolding signature_and_sequence
    signature_and_sequence-IsTimely tx = go (E.signatures tx)
      where
        go :
            (l : List Bytes)
            → IsTimely d n (elim l as (λ _. Action E (Text × ℕ)) [
              | [] ↦ abort
              | sig ∷ sigs ↦ pure (base64_encode sig, to_uint64 (E.sequence_number tx))
            ])
        go [] = IsTimely-abort d n
        go (sig ∷ sigs) = IsTimely-pure d n _

    pub create_payment_and_return_signature-IsTimely :
        (target : Text) (amount : ℕ)
        → IsTimely d n (create_payment_and_return_signature w target amount)
    unfolding create_payment_and_return_signature
    create_payment_and_return_signature-IsTimely target amount = search (
      timely_rules, generate_payment_operation-IsTimely, create_transaction-IsTimely,
      signature_and_sequence-IsTimely,
    )

    pub create_refund_and_return_signature-IsTimely :
        (target : Text) (amount : ℕ) (hash : Text)
        → IsTimely d n (create_refund_and_return_signature w target amount hash)
    unfolding create_refund_and_return_signature
    create_refund_and_return_signature-IsTimely target amount hash =
        search
          (
            timely_rules, generate_payment_operation-IsTimely, create_transaction-IsTimely,
            signature_and_sequence-IsTimely,
          )
          depth 12

    after_submit-IsTimely : (r : Result Text) → IsTimely d n (after_submit w r)
    unfolding after_submit
    after_submit-IsTimely (value hash) = IsTimely-pure d n tt
    after_submit-IsTimely (error e) = search (timely_rules, reset_account_sequence-IsTimely)

    submit_transaction-IsTimely : (tx : E.Tx) → IsTimely d n (submit_transaction w tx)
    unfolding submit_transaction
    submit_transaction-IsTimely tx =
        search (timely_rules, steady.submit_transaction, after_submit-IsTimely)

    sign_and_submit-IsTimely :
        (signatures : List StellarSignature) (tx : E.Tx)
        → IsTimely d n (sign_and_submit w signatures tx)
    unfolding sign_and_submit
    sign_and_submit-IsTimely signatures tx = search (timely_rules, submit_transaction-IsTimely)

    pub create_payment_with_signatures_and_submit-IsTimely :
        (target : Text) (amount : ℕ) (signatures : List StellarSignature) (m : ℤ)
        → IsTimely d n (create_payment_with_signatures_and_submit w target amount signatures m)
    unfolding create_payment_with_signatures_and_submit
    create_payment_with_signatures_and_submit-IsTimely target amount signatures m = search (
      timely_rules, generate_payment_operation-IsTimely, create_transaction-IsTimely,
      sign_and_submit-IsTimely,
    )

    pub create_refund_payment_with_signatures_and_submit-IsTimely :
        (target : Text) (amount : ℕ) (hash : Text) (signatures : List StellarSignature) (m : ℤ)
        → IsTimely d n
            (create_refund_payment_with_signatures_and_submit w target amount hash signatures m)
    unfolding create_refund_payment_with_signatures_and_submit
    create_refund_payment_with_signatures_and_submit-IsTimely target amount hash signatures m =
        search
          (
            timely_rules, generate_payment_operation-IsTimely, create_transaction-IsTimely,
            sign_and_submit-IsTimely,
          )
          depth 12
