-- ===== src/Pallet/Invariant.antt =====
-- pallet-tft-bridge/src/lib.rs: the invariant of the storage.
use native.Mathlib.Nat.{mod-eq_of_lt}
use tfchain_tft_bridge.Prelude.{
  ℕ, suc, ◌+◌, ◌^◌, ◌<◌, ◌≤◌, ◌≡◌, refl, ap, ◌⊎◌, inl, none, Bytes, arith, text_eq_iff,
}
use tfchain_tft_bridge.Pallet.Keyed.{get, get-insert, get-remove, nat_key, text_key}
use tfchain_tft_bridge.Pallet.Types.{Runtime, Storage, Origin}
use tfchain_tft_bridge.Pallet.Dispatch.{after}
use tfchain_tft_bridge.Pallet.Validators.{
  check_if_validator_exists, add_validator_account, remove_validator_account,
}
use tfchain_tft_bridge.Pallet.Mint.{deposit_fee_to, propose_or_vote_stellar_mint_transaction}
use tfchain_tft_bridge.Pallet.Burn.{
  burn_tft, withdraw, propose_stellar_burn_transaction_or_add_sig,
  set_stellar_burn_transaction_executed,
}
use tfchain_tft_bridge.Pallet.Refund.{
  create_stellar_refund_transaction_or_add_sig, set_stellar_refund_transaction_executed,
}
use tfchain_tft_bridge.Pallet.Calls.{Call, add_bridge_validator, remove_bridge_validator, dispatch}
use tfchain_tft_bridge.Pallet.Blocks.{
  GenesisConfig, build, Step, call, end_block, other_pallets, Reaches, stop, go,
}
use tfchain_tft_bridge.Pallet.Sorted.{Sorted}
use tfchain_tft_bridge.Pallet.ValidatorSet.{add-Sorted, remove-Sorted}
use tfchain_tft_bridge.Pallet.Expiry.{on_finalize-frame}
use tfchain_tft_bridge.Pallet.BurnEffects.{BurnEffect, dispatch-BurnEffect}
use tfchain_tft_bridge.Pallet.RefundEffects.{dispatch-RefundEffect}
use tfchain_tft_bridge.Pallet.MintEffects.{MintEffect, nothing, voted, minted, dispatch-MintEffect}
use tfchain_tft_bridge.Pallet.BurnInvariant.{GoodBurns, BurnEffect-GoodBurns, end_block-GoodBurns}
use tfchain_tft_bridge.Pallet.RefundInvariant.{
  GoodRefunds, RefundEffect-GoodRefunds, end_block-GoodRefunds,
}

module _ {R : Runtime} where
  -- A mint is pending or executed, not both.
  abbrev pub GoodMints : Storage R → Type 0
  GoodMints s =
      (k : Bytes) → (get k s.mint_transactions ≡ none) ⊎ (get k s.executed_mint_transactions ≡ none)

  pub record WellFormed (s : Storage R) : Type 0 where
    pub validators : Sorted s.validators
    pub mints : GoodMints s
    pub burns : GoodBurns s
    pub refunds : GoodRefunds s

  MintEffect-GoodMints : {s t : Storage R} → MintEffect s t → GoodMints s → GoodMints t
  MintEffect-GoodMints (nothing (mints, rest)) g k = rw (mints, rest) (g k)
  MintEffect-GoodMints {s} (voted hash tx new mints rest) g k =
      ground (arith, mints, rest, g k, get-insert k hash tx s.mint_transactions, text_eq_iff k hash)
  MintEffect-GoodMints {s} (minted hash tx new mints rest) g k = ground (
    arith,
    mints,
    rest,
    g k,
    get-remove k hash s.mint_transactions,
    get-insert k hash tx s.executed_mint_transactions,
  )

  dispatch-block_number :
      (origin : Origin) (c : Call) (s : Storage R)
      → (after s (dispatch origin c s)).block_number ≡ s.block_number
  unfolding dispatch add_validator_account remove_validator_account check_if_validator_exists
      burn_tft withdraw deposit_fee_to propose_or_vote_stellar_mint_transaction
      propose_stellar_burn_transaction_or_add_sig set_stellar_burn_transaction_executed
      create_stellar_refund_transaction_or_add_sig set_stellar_refund_transaction_executed
  dispatch-block_number origin c s = ground arith

  dispatch-Sorted :
      (origin : Origin) (c : Call) (s : Storage R)
      → Sorted s.validators
      → Sorted (after s (dispatch origin c s)).validators
  unfolding dispatch check_if_validator_exists burn_tft withdraw deposit_fee_to
      propose_or_vote_stellar_mint_transaction propose_stellar_burn_transaction_or_add_sig
      set_stellar_burn_transaction_executed create_stellar_refund_transaction_or_add_sig
      set_stellar_refund_transaction_executed
  dispatch-Sorted origin (add_bridge_validator target) s h =
      ground (arith, h, add-Sorted target s h)
  dispatch-Sorted origin (remove_bridge_validator target) s h =
      ground (arith, h, remove-Sorted target s h)
  dispatch-Sorted origin c s h = ground (arith, h)

  BurnEffect-id :
      {s t : Storage R}
      → BurnEffect s t
      → s.burn_transaction_id + 1 < 2 ^ 64
      → t.burn_transaction_id ≤ s.burn_transaction_id + 1
  BurnEffect-id (BurnEffect.nothing (burns, rest, id)) room = omega (arith, id)
  BurnEffect-id (BurnEffect.created target amount over id burns rest) room =
      let e = mod-eq_of_lt room in omega (arith, id, e)
  BurnEffect-id (BurnEffect.signed i tx sig number here new fresh few id burns rest) room =
      omega (arith, id)
  BurnEffect-id (BurnEffect.executed i tx here new id burns rest) room = omega (arith, id)

  Step-id :
      {s t : Storage R}
      → Step s t
      → s.burn_transaction_id + 1 < 2 ^ 64
      → t.burn_transaction_id ≤ s.burn_transaction_id + 1
  Step-id {s} (call origin c) room = BurnEffect-id (dispatch-BurnEffect origin c s) room
  Step-id {s} end_block room =
      let e = ap (λ (u : Storage R). u.burn_transaction_id) (on_finalize-frame s.block_number s) in
      omega (arith, e)
  Step-id (other_pallets balances) room = omega arith

  Step-WellFormed :
      {s t : Storage R}
      → Step s t
      → s.burn_transaction_id + 1 < 2 ^ 64
      → WellFormed s
      → WellFormed t
  Step-WellFormed {s} (call origin c) room w =
      let now = dispatch-block_number origin c s in
      record {
        validators = dispatch-Sorted origin c s w.validators;
        mints = MintEffect-GoodMints (dispatch-MintEffect origin c s) w.mints;
        burns = BurnEffect-GoodBurns (dispatch-BurnEffect origin c s) now room w.burns;
        refunds = RefundEffect-GoodRefunds (dispatch-RefundEffect origin c s) now w.refunds;
      }
  Step-WellFormed {s} end_block room w =
      let f = on_finalize-frame s.block_number s in
      record {
        validators = rw (ap (λ (u : Storage R). u.validators) f) w.validators;
        mints =
            rw
              (
                ap (λ (u : Storage R). u.mint_transactions) f,
                ap (λ (u : Storage R). u.executed_mint_transactions) f,
              )
              w.mints;
        burns = end_block-GoodBurns s w.refunds.distinct w.burns;
        refunds = end_block-GoodRefunds s w.burns.distinct w.refunds;
      }
  Step-WellFormed (other_pallets balances) room w =
      let b = w.burns in
      let r = w.refunds in
      record {
        validators = w.validators;
        mints = w.mints;
        burns = record {
          distinct = b.distinct;
          distinct_executed = b.distinct_executed;
          apart = b.apart;
          counted = b.counted;
          burns = b.burns;
        };
        refunds = record { distinct = r.distinct; refunds = r.refunds };
      }

  abbrev pub steps : {s t : Storage R} → Reaches s t → ℕ
  steps stop = 0
  steps (go r step) = suc (steps r)

  pub reached-id :
      {s t : Storage R} (r : Reaches s t)
      → s.burn_transaction_id + steps r < 2 ^ 64
      → t.burn_transaction_id ≤ s.burn_transaction_id + steps r
  reached-id stop room = omega arith
  reached-id (go r step) room =
      let before = reached-id r (omega arith) in
      let one = Step-id step (omega (arith, before)) in omega (arith, before, one)

  pub reached-WellFormed :
      {s t : Storage R} (r : Reaches s t)
      → s.burn_transaction_id + steps r < 2 ^ 64
      → WellFormed s
      → WellFormed t
  reached-WellFormed stop room w = w
  reached-WellFormed (go r step) room w =
      Step-WellFormed step (let before = reached-id r (omega arith) in omega arith)
        (reached-WellFormed r (omega arith) w)

  pub build-WellFormed :
      (self : GenesisConfig) (balances : R.Balances)
      → Sorted (build {R = R} self balances).validators
      → WellFormed (build {R = R} self balances)
  unfolding build get
  build-WellFormed self balances sorted = record {
    validators = sorted;
    mints = λ k. inl refl;
    burns = record {
      distinct = tt;
      distinct_executed = tt;
      apart = λ k. inl refl;
      counted = λ k lt. (refl, refl);
      burns = λ k tx h. cc;
    };
    refunds = record { distinct = tt; refunds = λ k tx h. cc };
  }

  -- Every storage that the chain reaches from a genesis whose validators are sorted, in fewer than 2^64
  -- steps, is well-formed: the validators are sorted without repetition, no mint and no burn is both
  -- pending and executed, no id is in use that the counter of burns has not reached, no key stands twice
  -- among the pending burns, the executed burns and the pending refunds, each pending burn pays out more
  -- than nothing, each pending refund bears the hash that it is stored under, both are dated by the
  -- current block or an earlier one, and no Stellar key signed one of them twice.
  pub reachable-WellFormed :
      (self : GenesisConfig) (balances : R.Balances) {t : Storage R}
      → Sorted (build {R = R} self balances).validators
      → (r : Reaches (build {R = R} self balances) t) → steps r < 2 ^ 64
      → WellFormed t
  unfolding build
  reachable-WellFormed self balances sorted r room =
      reached-WellFormed r (omega (arith, room)) (build-WellFormed self balances sorted)
