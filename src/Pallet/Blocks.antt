-- ===== src/Pallet/Blocks.antt =====
-- The genesis and the end of a block of pallet-tft-bridge/src/lib.rs, and the steps of the chain.
use tfchain_tft_bridge.Prelude.{
  ℕ, ◌+◌, ◌-◌, ◌%◌, ◌^◌, Bool, Option, none, some, List, [], ◌∷◌, Bytes, leb, if◌then◌else◌,
}
use tfchain_tft_bridge.Pallet.Keyed.{Keyed, insert, nat_key, text_key}
use tfchain_tft_bridge.Pallet.Types.{
  Account, BurnTransaction, RefundTransaction, Runtime, Storage, Origin, burn_transaction_expired,
  refund_transaction_expired,
}
use tfchain_tft_bridge.Pallet.Dispatch.{after}
use tfchain_tft_bridge.Pallet.Calls.{Call, dispatch}

pub record GenesisConfig : Type 0 where
  pub validator_accounts : Option (List Account)
  pub fee_account : Option Account
  pub withdraw_fee : ℕ
  pub deposit_fee : ℕ

-- `current_block_u64 - tx_block_u64 >= RetryInterval`, in u64.
unfoldable pub is_expired : ℕ → ℕ → ℕ → Bool
is_expired retry_interval block tx_block = leb retry_interval ((2 ^ 64 + block - tx_block) % 2 ^ 64)

module _ {R : Runtime} where
  -- What is not put has its default: the accounts of the config are stored as they come.
  unfoldable pub build : GenesisConfig → R.Balances → Storage R
  build self balances = record {
    validators = elim self.validator_accounts [ none ↦ [] | some accounts ↦ accounts ];
    fee_account = self.fee_account;
    mint_transactions = [];
    executed_mint_transactions = [];
    burn_transactions = [];
    executed_burn_transactions = [];
    refund_transactions = [];
    executed_refund_transactions = [];
    burn_transaction_id = 0;
    withdraw_fee = self.withdraw_fee;
    deposit_fee = self.deposit_fee;
    block_number = 0;
    balances = balances;
    events = [];
  }

  -- The body of the first loop, and the loop.
  unfoldable pub expire_burn : ℕ → ℕ → BurnTransaction → Storage R → Storage R
  unfolding is_expired
  expire_burn block tx_id tx s =
      if is_expired R.retry_interval block tx.block
      then record s {
        burn_transactions =
            insert tx_id (record tx { signatures = []; sequence_number = 0; block = block })
              s.burn_transactions;
        events = burn_transaction_expired tx_id tx.target tx.amount ∷ s.events;
      }
      else s

  unfoldable pub expire_burns : ℕ → Keyed ℕ BurnTransaction → Storage R → Storage R
  unfolding expire_burn
  expire_burns block [] s = s
  expire_burns block ((tx_id, tx) ∷ txs) s = expire_burns block txs (expire_burn block tx_id tx s)

  -- The body of the second loop, and the loop.
  unfoldable pub expire_refund : ℕ → Bytes → RefundTransaction → Storage R → Storage R
  unfolding is_expired
  expire_refund block tx_id tx s =
      if is_expired R.retry_interval block tx.block
      then record s {
        refund_transactions =
            insert tx_id (record tx { signatures = []; sequence_number = 0; block = block })
              s.refund_transactions;
        events = refund_transaction_expired tx_id tx.target tx.amount ∷ s.events;
      }
      else s

  unfoldable pub expire_refunds : ℕ → Keyed Bytes RefundTransaction → Storage R → Storage R
  unfolding expire_refund
  expire_refunds block [] s = s
  expire_refunds block ((tx_id, tx) ∷ txs) s =
      expire_refunds block txs (expire_refund block tx_id tx s)

  unfoldable pub on_finalize : ℕ → Storage R → Storage R
  unfolding expire_burns expire_refunds
  on_finalize block s =
      let burned : Storage R = expire_burns block s.burn_transactions s in
      expire_refunds block burned.refund_transactions burned

  -- What the chain does with the storage: a call of anyone, the end of a block, and what other pallets
  -- do to the balances. A failing call leaves the storage as it was.
  pub data Step (s : Storage R) : Storage R → Type 0 where
    call : (origin : Origin) (c : Call) → Step s (after s (dispatch origin c s))
    end_block : Step s (record (on_finalize s.block_number s) { block_number = s.block_number + 1 })
    other_pallets : (balances : R.Balances) → Step s (record s { balances = balances })

  pub data Reaches (s : Storage R) : Storage R → Type 0 where
    stop : Reaches s s
    go : {t u : Storage R} → Reaches s t → Step t u → Reaches s u
