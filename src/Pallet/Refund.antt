-- ===== src/Pallet/Refund.antt =====
-- The refunds of pallet-tft-bridge/src/lib.rs: back to the sender on Stellar, by signatures.
use tfchain_tft_bridge.Prelude.{
  ℕ, not, none, some, [], ◌∷◌, ◌++◌, Bytes, length, leb, ◌==◌ as nat_beq, if◌then◌else◌,
}
use tfchain_tft_bridge.Pallet.Keyed.{Keyed, get, contains_key, insert, remove, text_key}
use tfchain_tft_bridge.Pallet.Types.{
  Account, RefundTransaction, StellarSignature, default_refund, Runtime, refund_transaction_created,
  refund_transaction_signature_added, refund_transaction_ready, refund_transaction_processed,
  refund_transaction_not_exists, refund_signature_exists, enough_refund_signatures_present,
  refund_transaction_already_executed,
}
use tfchain_tft_bridge.Pallet.Dispatch.{
  Dispatch, pure, gets, modify, ensure, deposit_event, ◌>>=◌, ◌>>◌,
}
use tfchain_tft_bridge.Pallet.Validators.{quorum, check_if_validator_exists}
use tfchain_tft_bridge.Pallet.Signatures.{has_key, has_signature}

-- The entry of a key, or the default.
unfoldable pub get_refund : Bytes → Keyed Bytes RefundTransaction → RefundTransaction
get_refund tx_hash m = elim (get tx_hash m) [ none ↦ default_refund | some tx ↦ tx ]

module _ {R : Runtime} where
  -- What the last `if` of adding a signature does.
  unfoldable pub refund_ready : Bytes → RefundTransaction → Dispatch R Unit
  refund_ready tx_hash signed = do
    deposit_event (refund_transaction_ready tx_hash)
    modify (λ s. record s { refund_transactions = insert tx_hash signed s.refund_transactions })

  unfoldable pub add_refund_signature :
      Bytes → RefundTransaction → StellarSignature → ℕ → Dispatch R Unit
  unfolding refund_ready
  add_refund_signature tx_hash tx stellar_signature sequence_number =
      let signed : RefundTransaction = record tx {
        sequence_number = sequence_number;
        signatures = tx.signatures ++ stellar_signature ∷ [];
      } in
      do
        modify (λ s. record s { refund_transactions = insert tx_hash signed s.refund_transactions })
        deposit_event (refund_transaction_signature_added tx_hash stellar_signature)
        validators ← gets (λ s. s.validators)
        if leb (quorum validators) (length signed.signatures)
            then refund_ready tx_hash signed
            else pure tt

  unfoldable pub add_stellar_sig_refund_transaction : Bytes → Bytes → Bytes → ℕ → Dispatch R Unit
  unfolding add_refund_signature get_refund has_key has_signature
  add_stellar_sig_refund_transaction tx_hash signature stellar_pub_key sequence_number = do
    tx ← gets (λ s. get_refund tx_hash s.refund_transactions)
    validators ← gets (λ s. s.validators)
    ensure (not (nat_beq (length tx.signatures) (quorum validators)))
        enough_refund_signatures_present
    ensure (not (has_key stellar_pub_key tx.signatures)) refund_signature_exists
    ensure (not (has_signature signature tx.signatures)) refund_signature_exists
    add_refund_signature tx_hash tx
        (record { signature = signature; stellar_pub_key = stellar_pub_key }) sequence_number

  -- The first proposal.
  unfoldable pub create_refund : Bytes → Bytes → ℕ → Bytes → Bytes → ℕ → Dispatch R Unit
  unfolding add_stellar_sig_refund_transaction
  create_refund tx_hash target amount signature stellar_pub_key sequence_number = do
    now ← gets (λ s. s.block_number)
    modify (λ s. record s {
      refund_transactions =
          insert tx_hash
            (record {
              block = now;
              amount = amount;
              target = target;
              tx_hash = tx_hash;
              signatures = [];
              sequence_number = sequence_number;
            })
            s.refund_transactions;
    })
    add_stellar_sig_refund_transaction tx_hash signature stellar_pub_key sequence_number
    deposit_event (refund_transaction_created tx_hash target amount)

  -- Unlike for a burn and for a mint, the executed transactions are not looked at.
  unfoldable pub create_stellar_refund_transaction_or_add_sig :
      Account → Bytes → Bytes → ℕ → Bytes → Bytes → ℕ → Dispatch R Unit
  unfolding create_refund
  create_stellar_refund_transaction_or_add_sig validator tx_hash target amount signature key
        number =
      do
        check_if_validator_exists validator
        present ← gets (λ s. contains_key tx_hash s.refund_transactions)
        if present
            then add_stellar_sig_refund_transaction tx_hash signature key number
            else create_refund tx_hash target amount signature key number

  unfoldable pub set_stellar_refund_transaction_executed : Account → Bytes → Dispatch R Unit
  set_stellar_refund_transaction_executed validator tx_id = do
    check_if_validator_exists validator
    executed ← gets (λ s. contains_key tx_id s.executed_refund_transactions)
    ensure (not executed) refund_transaction_already_executed
    present ← gets (λ s. contains_key tx_id s.refund_transactions)
    ensure present refund_transaction_not_exists
    tx ← gets (λ s. get_refund tx_id s.refund_transactions)
    modify (λ s. record s {
      refund_transactions = remove tx_id s.refund_transactions;
      executed_refund_transactions = insert tx_id tx s.executed_refund_transactions;
    })
    deposit_event (refund_transaction_processed tx)
