-- ===== src/Pallet/RefundEffects.antt =====
-- pallet-tft-bridge/src/lib.rs: what a call does to the refunds.
use tfchain_tft_bridge.Prelude.{
  ℕ, ◌≡◌, refl, ◌⊎◌, inl, inr, true, false, none, some, [], ◌∷◌, ◌++◌, Bytes, arith, length,
  ◌==◌ as nat_beq,
}
use tfchain_tft_bridge.Pallet.Keyed.{
  Keyed, get, contains_key, insert, remove, contains_key-none, insert-insert, get-insert_self,
  text_key,
}
use tfchain_tft_bridge.Pallet.Types.{
  Account, RefundTransaction, StellarSignature, Runtime, Storage, Origin, root, unsigned,
}
use tfchain_tft_bridge.Pallet.Dispatch.{after}
use tfchain_tft_bridge.Pallet.Validators.{
  check_if_validator_exists, add_validator_account, remove_validator_account, quorum,
}
use tfchain_tft_bridge.Pallet.Signatures.{has_key}
use tfchain_tft_bridge.Pallet.Mint.{deposit_fee_to, propose_or_vote_stellar_mint_transaction}
use tfchain_tft_bridge.Pallet.Burn.{
  burn_tft, withdraw, propose_stellar_burn_transaction_or_add_sig,
  set_stellar_burn_transaction_executed,
}
use tfchain_tft_bridge.Pallet.Refund.{
  create_stellar_refund_transaction_or_add_sig, set_stellar_refund_transaction_executed, get_refund,
}
use tfchain_tft_bridge.Pallet.Calls.{
  Call, add_bridge_validator, remove_bridge_validator, set_fee_account, set_withdraw_fee,
  set_deposit_fee, swap_to_stellar, propose_or_vote_mint_transaction,
  propose_burn_transaction_or_add_sig, set_burn_transaction_executed,
  create_refund_transaction_or_add_sig, set_refund_transaction_executed, dispatch,
}

abbrev pub signed_refund : RefundTransaction → StellarSignature → ℕ → RefundTransaction
signed_refund tx sig number = record tx {
  sequence_number = number;
  signatures = tx.signatures ++ sig ∷ [];
}

refund_contained :
    (k : Bytes) (m : Keyed Bytes RefundTransaction)
    → contains_key k m ≡ true
    → get k m ≡ some (get_refund k m)
unfolding contains_key get_refund
refund_contained k m h = ground arith

pub get_refund-insert :
    (k : Bytes) (tx : RefundTransaction) (m : Keyed Bytes RefundTransaction)
    → get_refund k (insert k tx m) ≡ tx
unfolding get_refund
get_refund-insert k tx m = ground (arith, get-insert_self k tx m)

module _ {R : Runtime} where
  -- The refunds of two storages are the same.
  abbrev pub SameRefunds : Storage R → Storage R → Type 0
  SameRefunds s t =
      (t.refund_transactions ≡ s.refund_transactions)
      × (t.executed_refund_transactions ≡ s.executed_refund_transactions)

  -- The refund transaction that a proposal creates, with the proposal's own signature.
  abbrev pub created_refund :
      Storage R → Bytes → Bytes → ℕ → StellarSignature → ℕ → RefundTransaction
  created_refund s hash target amount sig number = record {
    block = s.block_number;
    amount = amount;
    target = target;
    tx_hash = hash;
    signatures = sig ∷ [];
    sequence_number = number;
  }

  -- What a call may do to the refunds.
  pub data RefundEffect (s t : Storage R) : Type 0 where
    nothing : SameRefunds s t → RefundEffect s t
    created :
        (hash target : Bytes) (amount : ℕ) (sig : StellarSignature) (number : ℕ)
        → get hash s.refund_transactions ≡ none
        → t.refund_transactions
          ≡ insert hash (created_refund s hash target amount sig number) s.refund_transactions
        → t.executed_refund_transactions ≡ s.executed_refund_transactions
        → RefundEffect s t
    signed :
        (hash : Bytes) (tx : RefundTransaction) (sig : StellarSignature) (number : ℕ)
        → get hash s.refund_transactions ≡ some tx
        → has_key sig.stellar_pub_key tx.signatures ≡ false
        → nat_beq (length tx.signatures) (quorum s.validators) ≡ false
        → t.refund_transactions ≡ insert hash (signed_refund tx sig number) s.refund_transactions
        → t.executed_refund_transactions ≡ s.executed_refund_transactions
        → RefundEffect s t
    executed :
        (hash : Bytes) (tx : RefundTransaction)
        → get hash s.refund_transactions ≡ some tx
        → get hash s.executed_refund_transactions ≡ none
        → t.refund_transactions ≡ remove hash s.refund_transactions
        → t.executed_refund_transactions ≡ insert hash tx s.executed_refund_transactions
        → RefundEffect s t

  create_refund-effect :
      (validator : Account) (hash target : Bytes) (amount : ℕ) (signature key : Bytes) (number : ℕ)
      (s : Storage R)
      → let t = after s (
          create_stellar_refund_transaction_or_add_sig validator hash target amount signature key
            number s) in
        let tx = get_refund hash s.refund_transactions in
        let sig : StellarSignature = record { signature = signature; stellar_pub_key = key } in
        let new = created_refund s hash target amount sig number in
        SameRefunds s t
        ⊎ (((get hash s.refund_transactions ≡ none)
              × (t.refund_transactions ≡ insert hash new s.refund_transactions)
              × (t.executed_refund_transactions ≡ s.executed_refund_transactions))
            ⊎ ((get hash s.refund_transactions ≡ some tx)
                × (has_key key tx.signatures ≡ false)
                × (nat_beq (length tx.signatures) (quorum s.validators) ≡ false)
                × (t.refund_transactions
                    ≡ insert hash (signed_refund tx sig number) s.refund_transactions)
                × (t.executed_refund_transactions ≡ s.executed_refund_transactions)))
  unfolding create_stellar_refund_transaction_or_add_sig check_if_validator_exists
  create_refund-effect validator hash target amount signature key number s =
      let tx = get_refund hash s.refund_transactions in
      let sig : StellarSignature = record { signature = signature; stellar_pub_key = key } in
      let new = created_refund s hash target amount sig number in
      let first = record new { signatures = [] } in
      ground (
        arith,
        refund_contained hash s.refund_transactions,
        contains_key-none hash s.refund_transactions,
        get_refund-insert hash first s.refund_transactions,
        insert-insert hash new first s.refund_transactions,
        insert-insert hash new new s.refund_transactions,
        insert-insert hash (signed_refund tx sig number) (signed_refund tx sig number)
            s.refund_transactions,
      )

  set_refund-effect :
      (validator : Account) (hash : Bytes) (s : Storage R)
      → let t = after s (set_stellar_refund_transaction_executed validator hash s) in
        let tx = get_refund hash s.refund_transactions in
        SameRefunds s t
        ⊎ ((get hash s.refund_transactions ≡ some tx)
            × (get hash s.executed_refund_transactions ≡ none)
            × (t.refund_transactions ≡ remove hash s.refund_transactions)
            × (t.executed_refund_transactions ≡ insert hash tx s.executed_refund_transactions))
  unfolding set_stellar_refund_transaction_executed check_if_validator_exists
  set_refund-effect validator hash s = ground (
    arith,
    refund_contained hash s.refund_transactions,
    contains_key-none hash s.executed_refund_transactions,
  )

  -- Every call has one of the four effects.
  pub dispatch-RefundEffect :
      (origin : Origin) (c : Call) (s : Storage R) → RefundEffect s (after s (dispatch origin c s))
  unfolding dispatch add_validator_account remove_validator_account check_if_validator_exists
      propose_or_vote_stellar_mint_transaction burn_tft withdraw deposit_fee_to
      propose_stellar_burn_transaction_or_add_sig set_stellar_burn_transaction_executed
  dispatch-RefundEffect origin (add_bridge_validator target) s = nothing (ground arith)
  dispatch-RefundEffect origin (remove_bridge_validator target) s = nothing (ground arith)
  dispatch-RefundEffect origin (set_fee_account target) s = nothing (ground arith)
  dispatch-RefundEffect origin (set_withdraw_fee amount) s = nothing (ground arith)
  dispatch-RefundEffect origin (set_deposit_fee amount) s = nothing (ground arith)
  dispatch-RefundEffect origin (swap_to_stellar target amount) s = nothing (ground arith)
  dispatch-RefundEffect origin (propose_or_vote_mint_transaction transaction target amount) s =
      nothing (ground arith)
  dispatch-RefundEffect origin (propose_burn_transaction_or_add_sig i t a g k n) s =
      nothing (ground arith)
  dispatch-RefundEffect origin (set_burn_transaction_executed i) s = nothing (ground arith)
  dispatch-RefundEffect root (create_refund_transaction_or_add_sig h t a g k n) s =
      nothing (refl, refl)
  dispatch-RefundEffect unsigned (create_refund_transaction_or_add_sig h t a g k n) s =
      nothing (refl, refl)
  dispatch-RefundEffect (Origin.signed v) (create_refund_transaction_or_add_sig h t a g k n) s =
      elim (create_refund-effect v h t a g k n s) [
        | inl e ↦ nothing e
        | inr (inl (new, refunds, rest)) ↦ created h t a _ n new refunds rest
        | inr (inr (here, fresh, few, refunds, rest)) ↦ signed h _ _ n here fresh few refunds rest
      ]
  dispatch-RefundEffect root (set_refund_transaction_executed h) s = nothing (refl, refl)
  dispatch-RefundEffect unsigned (set_refund_transaction_executed h) s = nothing (refl, refl)
  dispatch-RefundEffect (Origin.signed v) (set_refund_transaction_executed h) s =
      elim (set_refund-effect v h s) [
        | inl e ↦ nothing e
        | inr (here, new, refunds, rest) ↦ executed h _ here new refunds rest
      ]
