-- ===== src/Pallet/Burn.antt =====
-- The burns of pallet-tft-bridge/src/lib.rs: from TFChain to Stellar, by signatures.
use tfchain_tft_bridge.Prelude.{
  ℕ, ◌+◌, ◌-◌, ◌%◌, ◌^◌, not, none, some, [], ◌∷◌, ◌++◌, Bytes, text_eq, length, ltb, leb,
  ◌==◌ as nat_beq, if◌then◌else◌,
}
use tfchain_tft_bridge.Pallet.Keyed.{Keyed, get, contains_key, insert, remove, nat_key}
use tfchain_tft_bridge.Pallet.Types.{
  Account, BurnTransaction, StellarSignature, default_burn, Runtime, burn_transaction_created,
  burn_transaction_proposed, burn_transaction_signature_added, burn_transaction_ready,
  burn_transaction_processed, burn_transaction_not_exists, burn_signature_exists,
  enough_burn_signatures_present, burn_transaction_already_executed, not_enough_balance_to_swap,
  amount_is_less_than_withdraw_fee, wrong_parameters_provided, invalid_stellar_public_key,
  of_currency,
}
use tfchain_tft_bridge.Pallet.Dispatch.{
  Dispatch, Dispatched, pure, gets, modify, ensure, deposit_event, ◌>>=◌, ◌>>◌,
}
use tfchain_tft_bridge.Pallet.Validators.{quorum, check_if_validator_exists}
use tfchain_tft_bridge.Pallet.Signatures.{has_key, has_signature}
use tfchain_tft_bridge.Pallet.Mint.{deposit_fee_to}

-- The entry of a key, or the default.
unfoldable pub get_burn : ℕ → Keyed ℕ BurnTransaction → BurnTransaction
get_burn tx_id m = elim (get tx_id m) [ none ↦ default_burn | some tx ↦ tx ]

module _ {R : Runtime} where
  unfoldable pub withdraw : Account → ℕ → Dispatch R Unit
  withdraw source amount s = elim (R.withdraw source amount s.balances) [
    | none ↦ Dispatched.failed of_currency
    | some balances ↦ Dispatched.done tt (record s { balances = R.on_unbalanced amount balances })
  ]

  -- The new transaction is stored without signatures. The guard for the fee keeps the difference from
  -- going below zero.
  unfoldable pub burn_tft : Account → Bytes → ℕ → Dispatch R Unit
  unfolding withdraw
  burn_tft source target_stellar_address amount = do
    ensure (R.is_public_key target_stellar_address) invalid_stellar_public_key
    withdraw_fee ← gets (λ s. s.withdraw_fee)
    ensure (ltb withdraw_fee amount) amount_is_less_than_withdraw_fee
    usable_balance ← gets (λ s. R.usable_balance s.balances source)
    ensure (leb amount usable_balance) not_enough_balance_to_swap
    withdraw source amount
    fee_account ← gets (λ s. s.fee_account)
    deposit_fee_to fee_account withdraw_fee
    old_id ← gets (λ s. s.burn_transaction_id)
    modify (λ s. record s { burn_transaction_id = (old_id + 1) % 2 ^ 64 })
    deposit_event (
        burn_transaction_created ((old_id + 1) % 2 ^ 64) source target_stellar_address
          (amount - withdraw_fee))
    now ← gets (λ s. s.block_number)
    modify (λ s. record s {
      burn_transactions =
          insert ((old_id + 1) % 2 ^ 64)
            (record {
              block = now;
              amount = amount - withdraw_fee;
              target = target_stellar_address;
              signatures = [];
              sequence_number = 0;
            })
            s.burn_transactions;
    })

  unfoldable pub burn_ready : ℕ → BurnTransaction → Dispatch R Unit
  burn_ready tx_id signed = do
    deposit_event (burn_transaction_ready tx_id)
    modify (λ s. record s { burn_transactions = insert tx_id signed s.burn_transactions })

  unfoldable pub add_burn_signature : ℕ → BurnTransaction → StellarSignature → ℕ → Dispatch R Unit
  unfolding burn_ready
  add_burn_signature tx_id tx stellar_signature sequence_number =
      let signed : BurnTransaction = record tx {
        sequence_number = sequence_number;
        signatures = tx.signatures ++ stellar_signature ∷ [];
      } in
      do
        modify (λ s. record s { burn_transactions = insert tx_id signed s.burn_transactions })
        deposit_event (burn_transaction_signature_added tx_id stellar_signature)
        validators ← gets (λ s. s.validators)
        if leb (quorum validators) (length signed.signatures)
            then burn_ready tx_id signed
            else pure tt

  unfoldable pub add_stellar_sig_burn_transaction : ℕ → Bytes → Bytes → ℕ → Dispatch R Unit
  unfolding add_burn_signature has_key has_signature get_burn
  add_stellar_sig_burn_transaction tx_id signature stellar_pub_key sequence_number = do
    tx ← gets (λ s. get_burn tx_id s.burn_transactions)
    validators ← gets (λ s. s.validators)
    ensure (not (nat_beq (length tx.signatures) (quorum validators))) enough_burn_signatures_present
    ensure (not (has_key stellar_pub_key tx.signatures)) burn_signature_exists
    ensure (not (has_signature signature tx.signatures)) burn_signature_exists
    add_burn_signature tx_id tx
        (record { signature = signature; stellar_pub_key = stellar_pub_key }) sequence_number

  -- The part behind the second test for the key, which is never reached.
  unfoldable pub propose_burn :
      ℕ → BurnTransaction → Bytes → ℕ → Bytes → Bytes → ℕ → Dispatch R Unit
  unfolding add_stellar_sig_burn_transaction
  propose_burn tx_id burn_tx target amount signature stellar_pub_key sequence_number = do
    now ← gets (λ s. s.block_number)
    modify (λ s. record s {
      burn_transactions =
          insert tx_id (record burn_tx { block = now; sequence_number = sequence_number })
            s.burn_transactions;
    })
    add_stellar_sig_burn_transaction tx_id signature stellar_pub_key sequence_number
    deposit_event (burn_transaction_proposed tx_id target amount)

  unfoldable pub propose_stellar_burn_transaction_or_add_sig :
      Account → ℕ → Bytes → ℕ → Bytes → Bytes → ℕ → Dispatch R Unit
  unfolding propose_burn
  propose_stellar_burn_transaction_or_add_sig validator tx_id target amount signature
        stellar_pub_key sequence_number =
      do
        check_if_validator_exists validator
        executed ← gets (λ s. contains_key tx_id s.executed_burn_transactions)
        ensure (not executed) burn_transaction_already_executed
        burn_tx ← gets (λ s. get_burn tx_id s.burn_transactions)
        present ← gets (λ s. contains_key tx_id s.burn_transactions)
        ensure present burn_transaction_not_exists
        ensure (nat_beq burn_tx.amount amount) wrong_parameters_provided
        ensure (text_eq burn_tx.target target) wrong_parameters_provided
        still_present ← gets (λ s. contains_key tx_id s.burn_transactions)
        if still_present
            then add_stellar_sig_burn_transaction tx_id signature stellar_pub_key sequence_number
            else propose_burn tx_id burn_tx target amount signature stellar_pub_key sequence_number

  unfoldable pub set_stellar_burn_transaction_executed : Account → ℕ → Dispatch R Unit
  set_stellar_burn_transaction_executed validator tx_id = do
    check_if_validator_exists validator
    executed ← gets (λ s. contains_key tx_id s.executed_burn_transactions)
    ensure (not executed) burn_transaction_already_executed
    present ← gets (λ s. contains_key tx_id s.burn_transactions)
    ensure present burn_transaction_not_exists
    tx ← gets (λ s. get_burn tx_id s.burn_transactions)
    modify (λ s. record s {
      burn_transactions = remove tx_id s.burn_transactions;
      executed_burn_transactions = insert tx_id tx s.executed_burn_transactions;
    })
    deposit_event (burn_transaction_processed tx)
