-- ===== src/Pallet/Lasting.antt =====
-- pallet-tft-bridge/src/lib.rs: what is executed stays executed.
use tfchain_tft_bridge.Prelude.{ℕ, ◌≡◌, some, [], ◌∷◌, Bytes, arith}
use tfchain_tft_bridge.Pallet.Keyed.{Keyed, get, get-insert_new, nat_key, text_key}
use tfchain_tft_bridge.Pallet.Types.{
  MintTransaction, BurnTransaction, RefundTransaction, Runtime, Storage, Origin,
}
use tfchain_tft_bridge.Pallet.Dispatch.{after}
use tfchain_tft_bridge.Pallet.Validators.{
  check_if_validator_exists, add_validator_account, remove_validator_account,
}
use tfchain_tft_bridge.Pallet.Mint.{propose_or_vote_stellar_mint_transaction}
use tfchain_tft_bridge.Pallet.Burn.{
  burn_tft, propose_stellar_burn_transaction_or_add_sig, set_stellar_burn_transaction_executed,
}
use tfchain_tft_bridge.Pallet.Refund.{
  create_stellar_refund_transaction_or_add_sig, set_stellar_refund_transaction_executed,
}
use tfchain_tft_bridge.Pallet.Calls.{Call, dispatch}
use tfchain_tft_bridge.Pallet.Blocks.{
  on_finalize, expire_burns, expire_burn, expire_refunds, expire_refund, Step, call, end_block,
  other_pallets, Reaches, stop, go,
}

module _ {R : Runtime} where
  -- What is executed in the first storage is so in the second.
  pub record Later (s t : Storage R) : Type 0 where
    pub mint :
        (k : Bytes) (tx : MintTransaction)
        → get k s.executed_mint_transactions ≡ some tx
        → get k t.executed_mint_transactions ≡ some tx
    pub burn :
        (k : ℕ) (tx : BurnTransaction)
        → get k s.executed_burn_transactions ≡ some tx
        → get k t.executed_burn_transactions ≡ some tx
    pub refund :
        (k : Bytes) (tx : RefundTransaction)
        → get k s.executed_refund_transactions ≡ some tx
        → get k t.executed_refund_transactions ≡ some tx

  Later-self : (s : Storage R) → Later s s
  Later-self s = record { mint = λ k tx h. h; burn = λ k tx h. h; refund = λ k tx h. h }

  Later-trans : {s t u : Storage R} → Later s t → Later t u → Later s u
  Later-trans a b = record {
    mint = λ k tx h. b.mint k tx (a.mint k tx h);
    burn = λ k tx h. b.burn k tx (a.burn k tx h);
    refund = λ k tx h. b.refund k tx (a.refund k tx h);
  }

  dispatch-Later :
      (origin : Origin) (c : Call) (s : Storage R) → Later s (after s (dispatch origin c s))
  unfolding dispatch add_validator_account remove_validator_account check_if_validator_exists
      burn_tft propose_or_vote_stellar_mint_transaction propose_stellar_burn_transaction_or_add_sig
      set_stellar_burn_transaction_executed create_stellar_refund_transaction_or_add_sig
      set_stellar_refund_transaction_executed
  dispatch-Later origin c s = record {
    mint = λ k old h. grind (arith, get-insert_new);
    burn = λ k old h. grind (arith, get-insert_new);
    refund = λ k old h. grind (arith, get-insert_new);
  }

  expire_burns-Later :
      (block : ℕ) (txs : Keyed ℕ BurnTransaction) (s : Storage R)
      → Later s (expire_burns block txs s)
  unfolding expire_burns expire_burn
  expire_burns-Later block [] s = Later-self s
  expire_burns-Later block ((tx_id, tx) ∷ txs) s =
      Later-trans
        (record {
          mint = λ k old h. ground arith;
          burn = λ k old h. ground arith;
          refund = λ k old h. ground arith;
        })
        (expire_burns-Later block txs (expire_burn block tx_id tx s))

  expire_refunds-Later :
      (block : ℕ) (txs : Keyed Bytes RefundTransaction) (s : Storage R)
      → Later s (expire_refunds block txs s)
  unfolding expire_refunds expire_refund
  expire_refunds-Later block [] s = Later-self s
  expire_refunds-Later block ((tx_id, tx) ∷ txs) s =
      Later-trans
        (record {
          mint = λ k old h. ground arith;
          burn = λ k old h. ground arith;
          refund = λ k old h. ground arith;
        })
        (expire_refunds-Later block txs (expire_refund block tx_id tx s))

  on_finalize-Later : (block : ℕ) (s : Storage R) → Later s (on_finalize block s)
  unfolding on_finalize
  on_finalize-Later block s = Later-trans (expire_burns-Later block s.burn_transactions s) (
      expire_refunds-Later block ((expire_burns block s.burn_transactions s).refund_transactions)
        (expire_burns block s.burn_transactions s))

  Step-Later : {s t : Storage R} → Step s t → Later s t
  Step-Later {s} (call origin c) = dispatch-Later origin c s
  Step-Later {s} end_block =
      let l = on_finalize-Later s.block_number s in
      record { mint = l.mint; burn = l.burn; refund = l.refund }
  Step-Later {s} (other_pallets balances) = record {
    mint = λ k tx h. h;
    burn = λ k tx h. h;
    refund = λ k tx h. h;
  }

  -- What is executed stays executed with the same entry: in every storage that the chain reaches by
  -- calls of anyone, ends of blocks and changes of balances by other pallets, each mint, burn and refund
  -- that was executed in the first storage is executed with the value it had there.
  pub reached-Later : {s t : Storage R} → Reaches s t → Later s t
  reached-Later {s} stop = Later-self s
  reached-Later (go r step) = Later-trans (reached-Later r) (Step-Later step)
