-- ===== src/Pallet/Refused.antt =====
-- pallet-tft-bridge/src/lib.rs: what was executed is refused ever after.
use tfchain_tft_bridge.Prelude.{ℕ, ◌≡◌, some, Bytes, arith}
use tfchain_tft_bridge.Pallet.Keyed.{get, contains_key-some, nat_key, text_key}
use tfchain_tft_bridge.Pallet.Types.{
  Account, MintTransaction, BurnTransaction, RefundTransaction, Runtime, Storage, DispatchError,
  validator_not_exists, mint_transaction_already_executed, burn_transaction_already_executed,
  refund_transaction_already_executed,
}
use tfchain_tft_bridge.Pallet.Dispatch.{failed}
use tfchain_tft_bridge.Pallet.Validators.{found, missing, binary_search, check_if_validator_exists}
use tfchain_tft_bridge.Pallet.Mint.{propose_or_vote_stellar_mint_transaction}
use tfchain_tft_bridge.Pallet.Burn.{
  propose_stellar_burn_transaction_or_add_sig, set_stellar_burn_transaction_executed,
}
use tfchain_tft_bridge.Pallet.Refund.{set_stellar_refund_transaction_executed}
use tfchain_tft_bridge.Pallet.Blocks.{Reaches}
use tfchain_tft_bridge.Pallet.Lasting.{reached-Later}

module _ {R : Runtime} where
  -- The error of a call on what is executed: that of the check of the validator comes first.
  unfoldable pub refusal : Account → Storage R → DispatchError → DispatchError
  refusal validator s e = elim (binary_search validator s.validators) [
    | found i ↦ e
    | missing i ↦ validator_not_exists
  ]

  -- No deposit is minted twice: once a mint is executed, every later proposal for its hash, from anyone,
  -- for any target and amount, in any storage that the chain reaches, fails and so changes nothing: with
  -- `MintTransactionAlreadyExecuted` for a validator, else as a call of a non-validator.
  pub executed_mint-refused :
      {s t : Storage R}
      → Reaches s t
      → (hash : Bytes) (tx : MintTransaction) → get hash s.executed_mint_transactions ≡ some tx
      → (validator target : Account) (amount : ℕ)
      → propose_or_vote_stellar_mint_transaction validator hash target amount t
        ≡ failed (refusal validator t mint_transaction_already_executed)
  unfolding propose_or_vote_stellar_mint_transaction check_if_validator_exists refusal
  executed_mint-refused {s} {t} r hash tx h validator target amount = ground (
    arith,
    contains_key-some hash tx t.executed_mint_transactions ((reached-Later r).mint hash tx h),
  )

  -- No withdrawal is settled twice: once a burn is executed, every later signature for it and every later
  -- call that would execute it, from anyone, in any storage that the chain reaches, fails and so changes
  -- nothing: with `BurnTransactionAlreadyExecuted` for a validator, else as a call of a non-validator.
  pub executed_burn-refused :
      {s t : Storage R}
      → Reaches s t
      → (id : ℕ) (tx : BurnTransaction) → get id s.executed_burn_transactions ≡ some tx
      → (validator : Account) (target : Bytes) (amount : ℕ) (signature key : Bytes) (number : ℕ)
      → (propose_stellar_burn_transaction_or_add_sig validator id target amount signature key number
            t
          ≡ failed (refusal validator t burn_transaction_already_executed))
        × (set_stellar_burn_transaction_executed validator id t
            ≡ failed (refusal validator t burn_transaction_already_executed))
  unfolding propose_stellar_burn_transaction_or_add_sig set_stellar_burn_transaction_executed
      check_if_validator_exists refusal
  executed_burn-refused {s} {t} r id tx h validator target amount signature key number =
      ground (
        arith,
        contains_key-some id tx t.executed_burn_transactions ((reached-Later r).burn id tx h),
      )

  pub executed_refund-refused :
      {s t : Storage R}
      → Reaches s t
      → (hash : Bytes) (tx : RefundTransaction) → get hash s.executed_refund_transactions ≡ some tx
      → (validator : Account)
      → set_stellar_refund_transaction_executed validator hash t
        ≡ failed (refusal validator t refund_transaction_already_executed)
  unfolding set_stellar_refund_transaction_executed check_if_validator_exists refusal
  executed_refund-refused {s} {t} r hash tx h validator = ground (
    arith,
    contains_key-some hash tx t.executed_refund_transactions ((reached-Later r).refund hash tx h),
  )
