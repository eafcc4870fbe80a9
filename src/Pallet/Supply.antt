-- ===== src/Pallet/Supply.antt =====
-- pallet-tft-bridge/src/lib.rs: the TFT that the bridge creates and burns.
use native.Mathlib.Nat.{mod-eq_of_lt}
use tfchain_tft_bridge.Prelude.{
  ℕ, ◌+◌, ◌-◌, ◌^◌, ◌<◌, ◌≤◌, ◌≡◌, refl, ◌⊎◌, inl, inr, Option, none, some, Bytes, arith,
}
use tfchain_tft_bridge.Pallet.Keyed.{nat_key, text_key}
use tfchain_tft_bridge.Pallet.Types.{
  Account, MintTransaction, BurnTransaction, StellarSignature, Runtime, Storage, Origin, signed,
}
use tfchain_tft_bridge.Pallet.Dispatch.{after}
use tfchain_tft_bridge.Pallet.Validators.{
  check_if_validator_exists, add_validator_account, remove_validator_account,
}
use tfchain_tft_bridge.Pallet.Mint.{deposit_fee_to, propose_or_vote_stellar_mint_transaction}
use tfchain_tft_bridge.Pallet.Burn.{
  burn_tft, withdraw, propose_stellar_burn_transaction_or_add_sig, get_burn,
  set_stellar_burn_transaction_executed,
}
use tfchain_tft_bridge.Pallet.Refund.{
  create_stellar_refund_transaction_or_add_sig, set_stellar_refund_transaction_executed,
}
use tfchain_tft_bridge.Pallet.Calls.{
  Call, swap_to_stellar, propose_or_vote_mint_transaction, propose_burn_transaction_or_add_sig,
  set_burn_transaction_executed, dispatch,
}
use tfchain_tft_bridge.Pallet.Totals.{total, total-insert_new, total-insert_again, total-remove}
use tfchain_tft_bridge.Pallet.BurnEffects.{
  SameBurns, created_burn, signed_burn, propose_burn-effect, set_burn-effect,
}
use tfchain_tft_bridge.Pallet.MintEffects.{voted_mint, minted_balances, propose_mint-effect}
use tfchain_tft_bridge.Pallet.BurnInvariant.{GoodBurns}

-- The currency by its total issuance: a deposit raises it by its amount at most, and what is withdrawn
-- and handed to `Burn` lowers it by that amount at least.
pub record CurrencyLaws (R : Runtime) : Type 0 where
  pub issuance : R.Balances → ℕ
  pub deposited :
      (account : Account) (amount : ℕ) (b : R.Balances)
      → issuance (R.deposit_creating account amount b) ≤ issuance b + amount
  pub burned :
      (account : Account) (amount : ℕ) (b c : R.Balances)
      → R.withdraw account amount b ≡ some c
      → issuance (R.on_unbalanced amount c) + amount ≤ issuance b

Option-cases : {A : Type 0} (o : Option A) → (o ≡ none) ⊎ ((a : A) × (o ≡ some a))
Option-cases none = inl refl
Option-cases (some a) = inr (a, refl)

module _ {R : Runtime} where
  -- What the burns pay out on Stellar, pending and executed.
  abbrev pub paid_out : Storage R → ℕ
  paid_out s =
      total (λ (tx : BurnTransaction). tx.amount) s.burn_transactions
      + total (λ (tx : BurnTransaction). tx.amount) s.executed_burn_transactions

  -- What the executed mints took in on Stellar.
  abbrev pub taken_in : Storage R → ℕ
  taken_in s = total (λ (tx : MintTransaction). tx.amount) s.executed_mint_transactions

module _ {R : Runtime} (L : CurrencyLaws R) where
  abbrev pub NoMore : Storage R → Storage R → Type 0
  NoMore s t =
      (L.issuance t.balances + paid_out t) + taken_in s
      ≤ (L.issuance s.balances + paid_out s) + taken_in t

  minted-issuance :
      (s : Storage R) (tx : MintTransaction)
      → s.deposit_fee < tx.amount
      → L.issuance (minted_balances s tx) ≤ L.issuance s.balances + tx.amount
  unfolding minted_balances
  minted-issuance s tx over =
      let paid = R.deposit_creating tx.target (tx.amount - s.deposit_fee) s.balances in
      let first = L.deposited tx.target (tx.amount - s.deposit_fee) s.balances in
      elim (Option-cases s.fee_account) [
        | inl e ↦ ground (arith, e, first)
        | inr (account, e) ↦
            let second = L.deposited account s.deposit_fee paid in ground (arith, e, first, second)
      ]

  propose_mint-SameBurns :
      (validator : Account) (hash : Bytes) (target : Account) (amount : ℕ) (s : Storage R)
      → SameBurns s
          (after s (propose_or_vote_stellar_mint_transaction validator hash target amount s))
  unfolding propose_or_vote_stellar_mint_transaction check_if_validator_exists deposit_fee_to
  propose_mint-SameBurns validator hash target amount s = ground arith

  mint-NoMore :
      (validator : Account) (hash : Bytes) (target : Account) (amount : ℕ) (s : Storage R)
      → NoMore s (after s (propose_or_vote_stellar_mint_transaction validator hash target amount s))
  mint-NoMore validator hash target amount s =
      let (burns, rest, id) = propose_mint-SameBurns validator hash target amount s in
      let tx = voted_mint s hash target amount in
      elim (propose_mint-effect validator hash target amount s) [
        | inl ((mints, minted), same) ↦ rw (burns, rest, minted, same) (omega arith)
        | inr (inl (new, few, mints, minted, same)) ↦ rw (burns, rest, minted, same) (omega arith)
        | inr (inr (new, many, over, mints, minted, paid)) ↦
            let more =
              total-insert_new (λ (tx : MintTransaction). tx.amount) hash
                (record tx { block = s.block_number }) s.executed_mint_transactions new in
            let money = minted-issuance s tx over in
            rw (burns, rest, minted, paid, more) (omega (arith, money))
      ]

  swap-NoMore :
      (source : Account) (target : Bytes) (amount : ℕ) (s : Storage R)
      → GoodBurns s
      → s.burn_transaction_id + 1 < 2 ^ 64
      → NoMore s (after s (burn_tft source target amount s))
  unfolding burn_tft withdraw deposit_fee_to
  swap-NoMore source target amount s g room =
      let e = mod-eq_of_lt room in
      let (new, new_executed) = g.counted (s.burn_transaction_id + 1) (omega arith) in
      let more =
        total-insert_new (λ (tx : BurnTransaction). tx.amount) (s.burn_transaction_id + 1)
          (created_burn s target amount) s.burn_transactions new in
      elim (Option-cases (R.withdraw source amount s.balances)) [
        | inl none_left ↦ ground (arith, none_left)
        | inr (c, left) ↦
            let first = L.burned source amount s.balances c left in
            elim (Option-cases s.fee_account) [
              | inl none_there ↦ ground (arith, e, more, left, first, none_there)
              | inr (account, there) ↦
                  let second = L.deposited account s.withdraw_fee (R.on_unbalanced amount c) in
                  ground (arith, e, more, left, first, there, second)
            ]
      ]

  -- The balances and the executed mints of two storages are the same.
  abbrev SameMoney : Storage R → Storage R → Type 0
  SameMoney s t =
      (t.balances ≡ s.balances) × (t.executed_mint_transactions ≡ s.executed_mint_transactions)

  propose_burn-SameMoney :
      (validator : Account) (id : ℕ) (target : Bytes) (amount : ℕ) (signature key : Bytes)
      (number : ℕ) (s : Storage R)
      → SameMoney s (
          after s (
            propose_stellar_burn_transaction_or_add_sig validator id target amount signature key
              number s))
  unfolding propose_stellar_burn_transaction_or_add_sig check_if_validator_exists
  propose_burn-SameMoney validator id target amount signature key number s = ground arith

  set_burn-SameMoney :
      (validator : Account) (id : ℕ) (s : Storage R)
      → SameMoney s (after s (set_stellar_burn_transaction_executed validator id s))
  unfolding set_stellar_burn_transaction_executed check_if_validator_exists
  set_burn-SameMoney validator id s = ground arith

  propose_burn-NoMore :
      (validator : Account) (id : ℕ) (target : Bytes) (amount : ℕ) (signature key : Bytes)
      (number : ℕ) (s : Storage R)
      → NoMore s (
          after s (
            propose_stellar_burn_transaction_or_add_sig validator id target amount signature key
              number s))
  propose_burn-NoMore validator id target amount signature key number s =
      let (money, minted) =
        propose_burn-SameMoney validator id target amount signature key number s in
      let tx = get_burn id s.burn_transactions in
      let sig : StellarSignature = record { signature = signature; stellar_pub_key = key } in
      elim (propose_burn-effect validator id target amount signature key number s) [
        | inl (burns, rest, same) ↦ rw (money, minted, burns, rest) (omega arith)
        | inr (here, new, fresh, few, same, burns, rest) ↦
            let more =
              total-insert_again (λ (tx : BurnTransaction). tx.amount) id
                (signed_burn tx sig number) tx s.burn_transactions here in
            rw (money, minted, burns, rest) (omega (arith, more))
      ]

  set_burn-NoMore :
      (validator : Account) (id : ℕ) (s : Storage R)
      → GoodBurns s
      → NoMore s (after s (set_stellar_burn_transaction_executed validator id s))
  set_burn-NoMore validator id s g =
      let (money, minted) = set_burn-SameMoney validator id s in
      let tx = get_burn id s.burn_transactions in
      elim (set_burn-effect validator id s) [
        | inl (burns, rest, same) ↦ rw (money, minted, burns, rest) (omega arith)
        | inr (here, new, same, burns, rest) ↦
            let less =
              total-remove (λ (tx : BurnTransaction). tx.amount) id tx s.burn_transactions
                g.distinct here in
            let more =
              total-insert_new (λ (tx : BurnTransaction). tx.amount) id tx
                s.executed_burn_transactions new in
            rw (money, minted, burns, rest) (omega (arith, less, more))
      ]

  -- No call creates TFT that was not taken in: the total issuance, with all that the burns pay out on
  -- Stellar, pending and executed, rises by a call of anyone by no more than what the executed mints took
  -- in on Stellar rises. So a mint gives target and fee account together no more than the deposit, and a
  -- swap takes from its sender at least what the burn pays out and the fee account receives. The counter
  -- of burns must be below 2^64 - 1, and the currency must keep its laws.
  pub dispatch-NoMore :
      (origin : Origin) (c : Call) (s : Storage R)
      → GoodBurns s
      → s.burn_transaction_id + 1 < 2 ^ 64
      → (L.issuance (after s (dispatch origin c s)).balances
            + paid_out (after s (dispatch origin c s)))
          + taken_in s
        ≤ (L.issuance s.balances + paid_out s) + taken_in (after s (dispatch origin c s))
  unfolding dispatch add_validator_account remove_validator_account check_if_validator_exists
      create_stellar_refund_transaction_or_add_sig set_stellar_refund_transaction_executed
  dispatch-NoMore (signed source) (swap_to_stellar target amount) s g room =
      swap-NoMore source target amount s g room
  dispatch-NoMore (signed v) (propose_or_vote_mint_transaction h t a) s g room =
      mint-NoMore v h t a s
  dispatch-NoMore (signed v) (propose_burn_transaction_or_add_sig i t a sig k n) s g room =
      propose_burn-NoMore v i t a sig k n s
  dispatch-NoMore (signed v) (set_burn_transaction_executed i) s g room = set_burn-NoMore v i s g
  dispatch-NoMore origin c s g room = ground arith
