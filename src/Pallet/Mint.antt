-- ===== src/Pallet/Mint.antt =====
-- The mints of pallet-tft-bridge/src/lib.rs: from Stellar to TFChain, by votes.
use tfchain_tft_bridge.Prelude.{
  ℕ, ◌+◌, ◌-◌, ◌%◌, ◌^◌, not, Option, none, some, Bytes, ltb, leb, if◌then◌else◌,
}
use tfchain_tft_bridge.Pallet.Keyed.{get, contains_key, insert, remove, text_key}
use tfchain_tft_bridge.Pallet.Types.{
  Account, MintTransaction, Runtime, mint_transaction_proposed, mint_transaction_voted,
  mint_completed, mint_transaction_already_executed, amount_is_less_than_deposit_fee,
}
use tfchain_tft_bridge.Pallet.Dispatch.{
  Dispatch, pure, gets, modify, ensure, deposit_event, ◌>>=◌, ◌>>◌,
}
use tfchain_tft_bridge.Pallet.Validators.{quorum, check_if_validator_exists}

module _ {R : Runtime} where
  unfoldable pub deposit : Account → ℕ → Dispatch R Unit
  deposit account amount =
      modify (λ s. record s { balances = R.deposit_creating account amount s.balances })

  -- The fee is created too, but nowhere if there is no account for it.
  unfoldable pub deposit_fee_to : Option Account → ℕ → Dispatch R Unit
  unfolding deposit
  deposit_fee_to none fee = pure tt
  deposit_fee_to (some fee_account) fee = deposit fee_account fee

  unfoldable pub mint_tft : Bytes → MintTransaction → Dispatch R Unit
  unfolding deposit deposit_fee_to
  mint_tft tx_id tx = do
    deposit_fee ← gets (λ s. s.deposit_fee)
    ensure (ltb deposit_fee tx.amount) amount_is_less_than_deposit_fee
    deposit tx.target (tx.amount - deposit_fee)
    fee_account ← gets (λ s. s.fee_account)
    deposit_fee_to fee_account deposit_fee
    now ← gets (λ s. s.block_number)
    modify (λ s. record s {
      mint_transactions = remove tx_id s.mint_transactions;
      executed_mint_transactions =
          insert tx_id (record tx { block = now }) s.executed_mint_transactions;
    })
    deposit_event (mint_completed (record tx { block = now }))

  -- The vote is counted in a u32. A vote for a transaction that is not there is no error.
  unfoldable pub vote_for : Bytes → Option MintTransaction → Dispatch R Unit
  unfolding mint_tft
  vote_for tx_id none = pure tt
  vote_for tx_id (some tx) =
      let voted : MintTransaction = record tx { votes = (tx.votes + 1) % 2 ^ 32 } in
      do
        deposit_event (mint_transaction_voted tx_id)
        modify (λ s. record s { mint_transactions = insert tx_id voted s.mint_transactions })
        validators ← gets (λ s. s.validators)
        if leb (quorum validators) voted.votes then mint_tft tx_id voted else pure tt

  unfoldable pub vote_stellar_mint_transaction : Bytes → Dispatch R Unit
  unfolding vote_for
  vote_stellar_mint_transaction tx_id = do
    mint_transaction ← gets (λ s. get tx_id s.mint_transactions)
    vote_for tx_id mint_transaction

  -- The first proposal.
  unfoldable pub propose_mint : Bytes → Account → ℕ → Dispatch R Unit
  unfolding vote_stellar_mint_transaction
  propose_mint tx_id target amount = do
    now ← gets (λ s. s.block_number)
    modify (λ s. record s {
      mint_transactions =
          insert tx_id (record { amount = amount; target = target; block = now; votes = 0 })
            s.mint_transactions;
    })
    deposit_event (mint_transaction_proposed tx_id target amount)
    vote_stellar_mint_transaction tx_id

  -- A later proposal is a vote: its target and amount, and who sent it, are not looked at.
  unfoldable pub propose_or_vote_stellar_mint_transaction :
      Account → Bytes → Account → ℕ → Dispatch R Unit
  unfolding propose_mint
  propose_or_vote_stellar_mint_transaction validator tx_id target amount = do
    check_if_validator_exists validator
    executed ← gets (λ s. contains_key tx_id s.executed_mint_transactions)
    ensure (not executed) mint_transaction_already_executed
    proposed ← gets (λ s. contains_key tx_id s.mint_transactions)
    if proposed then vote_stellar_mint_transaction tx_id else propose_mint tx_id target amount
