-- ===== src/Pallet/MintEffects.antt =====
-- pallet-tft-bridge/src/lib.rs: what a call does to the mints.
use tfchain_tft_bridge.Prelude.{
  ℕ, ◌+◌, ◌-◌, ◌%◌, ◌^◌, ◌<◌, ◌≤◌, ◌≡◌, refl, ◌⊎◌, inl, inr, none, some, Bytes, arith,
}
use tfchain_tft_bridge.Pallet.Keyed.{
  get, contains_key, insert, remove, insert-insert, remove-insert, get-insert_self, text_key,
}
use tfchain_tft_bridge.Pallet.Types.{
  Account, MintTransaction, Runtime, Storage, Origin, root, unsigned, signed,
}
use tfchain_tft_bridge.Pallet.Dispatch.{after}
use tfchain_tft_bridge.Pallet.Validators.{
  check_if_validator_exists, add_validator_account, remove_validator_account, quorum,
}
use tfchain_tft_bridge.Pallet.Mint.{deposit_fee_to, propose_or_vote_stellar_mint_transaction}
use tfchain_tft_bridge.Pallet.Burn.{
  burn_tft, withdraw, propose_stellar_burn_transaction_or_add_sig,
  set_stellar_burn_transaction_executed,
}
use tfchain_tft_bridge.Pallet.Refund.{
  create_stellar_refund_transaction_or_add_sig, set_stellar_refund_transaction_executed,
}
use tfchain_tft_bridge.Pallet.Calls.{
  Call, add_bridge_validator, remove_bridge_validator, set_fee_account, set_withdraw_fee,
  set_deposit_fee, swap_to_stellar, propose_or_vote_mint_transaction,
  propose_burn_transaction_or_add_sig, set_burn_transaction_executed,
  create_refund_transaction_or_add_sig, set_refund_transaction_executed, dispatch,
}

module _ {R : Runtime} where
  abbrev pub SameMints : Storage R → Storage R → Type 0
  SameMints s t =
      (t.mint_transactions ≡ s.mint_transactions)
      × (t.executed_mint_transactions ≡ s.executed_mint_transactions)

  -- What is stored for a deposit once the proposal is counted as a vote.
  unfoldable pub voted_mint : Storage R → Bytes → Account → ℕ → MintTransaction
  voted_mint s hash target amount = elim (get hash s.mint_transactions) [
    | none ↦ record { amount = amount; target = target; block = s.block_number; votes = 1 }
    | some tx ↦ record tx { votes = (tx.votes + 1) % 2 ^ 32 }
  ]

  -- The balances after a mint.
  unfoldable pub minted_balances : Storage R → MintTransaction → R.Balances
  minted_balances s tx =
      let paid = R.deposit_creating tx.target (tx.amount - s.deposit_fee) s.balances in
      elim s.fee_account [
        | none ↦ paid
        | some account ↦ R.deposit_creating account s.deposit_fee paid
      ]

  -- What a call may do to the mints.
  pub data MintEffect (s t : Storage R) : Type 0 where
    nothing : SameMints s t → MintEffect s t
    voted :
        (hash : Bytes) (tx : MintTransaction)
        → get hash s.executed_mint_transactions ≡ none
        → t.mint_transactions ≡ insert hash tx s.mint_transactions
        → t.executed_mint_transactions ≡ s.executed_mint_transactions
        → MintEffect s t
    minted :
        (hash : Bytes) (tx : MintTransaction)
        → get hash s.executed_mint_transactions ≡ none
        → t.mint_transactions ≡ remove hash s.mint_transactions
        → t.executed_mint_transactions ≡ insert hash tx s.executed_mint_transactions
        → MintEffect s t

  pub propose_mint-effect :
      (validator : Account) (hash : Bytes) (target : Account) (amount : ℕ) (s : Storage R)
      → let t = after s (propose_or_vote_stellar_mint_transaction validator hash target amount s) in
        let tx = voted_mint s hash target amount in
        (SameMints s t × (t.balances ≡ s.balances))
        ⊎ (((get hash s.executed_mint_transactions ≡ none)
              × tx.votes < quorum s.validators
              × (t.mint_transactions ≡ insert hash tx s.mint_transactions)
              × (t.executed_mint_transactions ≡ s.executed_mint_transactions)
              × (t.balances ≡ s.balances))
            ⊎ ((get hash s.executed_mint_transactions ≡ none)
                × quorum s.validators ≤ tx.votes
                × s.deposit_fee < tx.amount
                × (t.mint_transactions ≡ remove hash s.mint_transactions)
                × (t.executed_mint_transactions
                    ≡ insert hash
                        (record tx { block = s.block_number })
                        s.executed_mint_transactions)
                × (t.balances ≡ minted_balances s tx)))
  unfolding propose_or_vote_stellar_mint_transaction check_if_validator_exists deposit_fee_to
      voted_mint minted_balances contains_key
  propose_mint-effect validator hash target amount s =
      let new : MintTransaction = record {
        amount = amount;
        target = target;
        block = s.block_number;
        votes = 0;
      } in
      let tx = voted_mint s hash target amount in
      ground (
        arith,
        get-insert_self hash new s.mint_transactions,
        insert-insert hash tx new s.mint_transactions,
        remove-insert hash tx s.mint_transactions,
        remove-insert hash new s.mint_transactions,
        remove-insert hash tx (insert hash new s.mint_transactions),
      )

  -- Every call has one of the three effects.
  pub dispatch-MintEffect :
      (origin : Origin) (c : Call) (s : Storage R) → MintEffect s (after s (dispatch origin c s))
  unfolding dispatch add_validator_account remove_validator_account check_if_validator_exists
      burn_tft withdraw deposit_fee_to propose_stellar_burn_transaction_or_add_sig
      set_stellar_burn_transaction_executed create_stellar_refund_transaction_or_add_sig
      set_stellar_refund_transaction_executed
  dispatch-MintEffect origin (add_bridge_validator target) s = nothing (ground arith)
  dispatch-MintEffect origin (remove_bridge_validator target) s = nothing (ground arith)
  dispatch-MintEffect origin (set_fee_account target) s = nothing (ground arith)
  dispatch-MintEffect origin (set_withdraw_fee amount) s = nothing (ground arith)
  dispatch-MintEffect origin (set_deposit_fee amount) s = nothing (ground arith)
  dispatch-MintEffect origin (swap_to_stellar target amount) s = nothing (ground arith)
  dispatch-MintEffect root (propose_or_vote_mint_transaction h t a) s = nothing (refl, refl)
  dispatch-MintEffect unsigned (propose_or_vote_mint_transaction h t a) s = nothing (refl, refl)
  dispatch-MintEffect (signed v) (propose_or_vote_mint_transaction h t a) s =
      elim (propose_mint-effect v h t a s) [
        | inl (mints, same) ↦ nothing mints
        | inr (inl (new, few, mints, rest, same)) ↦ voted h _ new mints rest
        | inr (inr (new, many, over, mints, rest, paid)) ↦ minted h _ new mints rest
      ]
  dispatch-MintEffect origin (propose_burn_transaction_or_add_sig i t a g k n) s =
      nothing (ground arith)
  dispatch-MintEffect origin (set_burn_transaction_executed i) s = nothing (ground arith)
  dispatch-MintEffect origin (create_refund_transaction_or_add_sig h t a g k n) s =
      nothing (ground arith)
  dispatch-MintEffect origin (set_refund_transaction_executed h) s = nothing (ground arith)
