-- ===== src/Pallet/BurnEffects.antt =====
-- pallet-tft-bridge/src/lib.rs: what a call does to the burns.
use tfchain_tft_bridge.Prelude.{
  ℕ, ◌+◌, ◌-◌, ◌%◌, ◌^◌, ◌<◌, ◌≡◌, refl, ◌⊎◌, inl, inr, true, false, none, some, [], ◌∷◌, ◌++◌,
  Bytes, arith, length, ◌==◌ as nat_beq,
}
use tfchain_tft_bridge.Pallet.Keyed.{
  Keyed, get, contains_key, insert, remove, contains_key-none, insert-insert, nat_key, text_key,
}
use tfchain_tft_bridge.Pallet.Types.{
  Account, BurnTransaction, StellarSignature, Runtime, Storage, Origin, root, unsigned,
}
use tfchain_tft_bridge.Pallet.Dispatch.{after}
use tfchain_tft_bridge.Pallet.Validators.{
  check_if_validator_exists, add_validator_account, remove_validator_account, quorum,
}
use tfchain_tft_bridge.Pallet.Signatures.{has_key}
use tfchain_tft_bridge.Pallet.Mint.{deposit_fee_to, propose_or_vote_stellar_mint_transaction}
use tfchain_tft_bridge.Pallet.Burn.{
  burn_tft, withdraw, propose_stellar_burn_transaction_or_add_sig,
  set_stellar_burn_transaction_executed, get_burn,
}
use tfchain_tft_bridge.Pallet.Refund.{
  create_stellar_refund_transaction_or_add_sig, set_stellar_refund_transaction_executed,
}
use tfchain_tft_bridge.Pallet.Calls.{
  Call, add_bridge_validator, remove_bridge_validator, set_fee_account, set_withdraw_fee,
  set_deposit_fee, swap_to_stellar, propose_or_vote_mint_transaction,
  propose_burn_transaction_or_add_sig, set_burn_transaction_executed,
  create_refund_transaction_or_add_sig, set_refund_transaction_executed, dispatch,
}

abbrev pub signed_burn : BurnTransaction → StellarSignature → ℕ → BurnTransaction
signed_burn tx sig number = record tx {
  sequence_number = number;
  signatures = tx.signatures ++ sig ∷ [];
}

contained :
    (k : ℕ) (m : Keyed ℕ BurnTransaction) → contains_key k m ≡ true → get k m ≡ some (get_burn k m)
unfolding contains_key get_burn
contained k m h = ground arith

module _ {R : Runtime} where
  -- The burns of two storages are the same.
  abbrev pub SameBurns : Storage R → Storage R → Type 0
  SameBurns s t =
      (t.burn_transactions ≡ s.burn_transactions)
      × (t.executed_burn_transactions ≡ s.executed_burn_transactions)
      × (t.burn_transaction_id ≡ s.burn_transaction_id)

  -- The burn transaction that a swap creates.
  abbrev pub created_burn : Storage R → Bytes → ℕ → BurnTransaction
  created_burn s target amount = record {
    block = s.block_number;
    amount = amount - s.withdraw_fee;
    target = target;
    signatures = [];
    sequence_number = 0;
  }

  -- What a call may do to the burns.
  pub data BurnEffect (s t : Storage R) : Type 0 where
    nothing : SameBurns s t → BurnEffect s t
    created :
        (target : Bytes) (amount : ℕ)
        → s.withdraw_fee < amount
        → t.burn_transaction_id ≡ (s.burn_transaction_id + 1) % 2 ^ 64
        → t.burn_transactions
          ≡ insert
              ((s.burn_transaction_id + 1) % 2 ^ 64)
              (created_burn s target amount)
              s.burn_transactions
        → t.executed_burn_transactions ≡ s.executed_burn_transactions
        → BurnEffect s t
    signed :
        (id : ℕ) (tx : BurnTransaction) (sig : StellarSignature) (number : ℕ)
        → get id s.burn_transactions ≡ some tx
        → get id s.executed_burn_transactions ≡ none
        → has_key sig.stellar_pub_key tx.signatures ≡ false
        → nat_beq (length tx.signatures) (quorum s.validators) ≡ false
        → t.burn_transaction_id ≡ s.burn_transaction_id
        → t.burn_transactions ≡ insert id (signed_burn tx sig number) s.burn_transactions
        → t.executed_burn_transactions ≡ s.executed_burn_transactions
        → BurnEffect s t
    executed :
        (id : ℕ) (tx : BurnTransaction)
        → get id s.burn_transactions ≡ some tx
        → get id s.executed_burn_transactions ≡ none
        → t.burn_transaction_id ≡ s.burn_transaction_id
        → t.burn_transactions ≡ remove id s.burn_transactions
        → t.executed_burn_transactions ≡ insert id tx s.executed_burn_transactions
        → BurnEffect s t

  burn_tft-effect :
      (source : Account) (target : Bytes) (amount : ℕ) (s : Storage R)
      → let t = after s (burn_tft source target amount s) in
        SameBurns s t
        ⊎ (s.withdraw_fee < amount
            × (t.burn_transaction_id ≡ (s.burn_transaction_id + 1) % 2 ^ 64)
            × (t.burn_transactions
                ≡ insert
                    ((s.burn_transaction_id + 1) % 2 ^ 64)
                    (created_burn s target amount)
                    s.burn_transactions)
            × (t.executed_burn_transactions ≡ s.executed_burn_transactions))
  unfolding burn_tft withdraw deposit_fee_to
  burn_tft-effect source target amount s = ground arith

  pub propose_burn-effect :
      (validator : Account) (id : ℕ) (target : Bytes) (amount : ℕ) (signature key : Bytes)
      (number : ℕ) (s : Storage R)
      → let t = after s (
          propose_stellar_burn_transaction_or_add_sig validator id target amount signature key
            number s) in
        let tx = get_burn id s.burn_transactions in
        let sig : StellarSignature = record { signature = signature; stellar_pub_key = key } in
        SameBurns s t
        ⊎ ((get id s.burn_transactions ≡ some tx)
            × (get id s.executed_burn_transactions ≡ none)
            × (has_key key tx.signatures ≡ false)
            × (nat_beq (length tx.signatures) (quorum s.validators) ≡ false)
            × (t.burn_transaction_id ≡ s.burn_transaction_id)
            × (t.burn_transactions ≡ insert id (signed_burn tx sig number) s.burn_transactions)
            × (t.executed_burn_transactions ≡ s.executed_burn_transactions))
  unfolding propose_stellar_burn_transaction_or_add_sig check_if_validator_exists
  propose_burn-effect validator id target amount signature key number s =
      let tx = get_burn id s.burn_transactions in
      let sig : StellarSignature = record { signature = signature; stellar_pub_key = key } in
      ground (
        arith,
        insert-insert id (signed_burn tx sig number) (signed_burn tx sig number)
            s.burn_transactions,
        contained id s.burn_transactions,
        contains_key-none id s.executed_burn_transactions,
      )

  pub set_burn-effect :
      (validator : Account) (id : ℕ) (s : Storage R)
      → let t = after s (set_stellar_burn_transaction_executed validator id s) in
        let tx = get_burn id s.burn_transactions in
        SameBurns s t
        ⊎ ((get id s.burn_transactions ≡ some tx)
            × (get id s.executed_burn_transactions ≡ none)
            × (t.burn_transaction_id ≡ s.burn_transaction_id)
            × (t.burn_transactions ≡ remove id s.burn_transactions)
            × (t.executed_burn_transactions ≡ insert id tx s.executed_burn_transactions))
  unfolding set_stellar_burn_transaction_executed check_if_validator_exists
  set_burn-effect validator id s =
      ground
        (arith, contained id s.burn_transactions, contains_key-none id s.executed_burn_transactions)

  -- Every call has one of the four effects.
  pub dispatch-BurnEffect :
      (origin : Origin) (c : Call) (s : Storage R) → BurnEffect s (after s (dispatch origin c s))
  unfolding dispatch add_validator_account remove_validator_account check_if_validator_exists
      propose_or_vote_stellar_mint_transaction create_stellar_refund_transaction_or_add_sig
      set_stellar_refund_transaction_executed
  dispatch-BurnEffect origin (add_bridge_validator target) s = nothing (ground arith)
  dispatch-BurnEffect origin (remove_bridge_validator target) s = nothing (ground arith)
  dispatch-BurnEffect origin (set_fee_account target) s = nothing (ground arith)
  dispatch-BurnEffect origin (set_withdraw_fee amount) s = nothing (ground arith)
  dispatch-BurnEffect origin (set_deposit_fee amount) s = nothing (ground arith)
  dispatch-BurnEffect root (swap_to_stellar target amount) s = nothing (refl, refl, refl)
  dispatch-BurnEffect unsigned (swap_to_stellar target amount) s = nothing (refl, refl, refl)
  dispatch-BurnEffect (Origin.signed source) (swap_to_stellar target amount) s =
      elim (burn_tft-effect source target amount s) [
        | inl e ↦ nothing e
        | inr (lt, id, burns, rest) ↦ created target amount lt id burns rest
      ]
  dispatch-BurnEffect origin (propose_or_vote_mint_transaction transaction target amount) s =
      nothing (ground arith)
  dispatch-BurnEffect root (propose_burn_transaction_or_add_sig i t a g k n) s =
      nothing (refl, refl, refl)
  dispatch-BurnEffect unsigned (propose_burn_transaction_or_add_sig i t a g k n) s =
      nothing (refl, refl, refl)
  dispatch-BurnEffect (Origin.signed v) (propose_burn_transaction_or_add_sig i t a g k n) s =
      elim (propose_burn-effect v i t a g k n s) [
        | inl e ↦ nothing e
        | inr (here, new, fresh, few, id, burns, rest) ↦
            signed i _ _ n here new fresh few id burns rest
      ]
  dispatch-BurnEffect root (set_burn_transaction_executed i) s = nothing (refl, refl, refl)
  dispatch-BurnEffect unsigned (set_burn_transaction_executed i) s = nothing (refl, refl, refl)
  dispatch-BurnEffect (Origin.signed v) (set_burn_transaction_executed i) s =
      elim (set_burn-effect v i s) [
        | inl e ↦ nothing e
        | inr (here, new, id, burns, rest) ↦ executed i _ here new id burns rest
      ]
  dispatch-BurnEffect origin (create_refund_transaction_or_add_sig h t a g k n) s =
      nothing (ground arith)
  dispatch-BurnEffect origin (set_refund_transaction_executed h) s = nothing (ground arith)
