-- ===== src/Pallet/ValidatorSet.antt =====
-- pallet-tft-bridge/src/lib.rs: the sorted vector of validators is a finite set of accounts.
use tfchain_tft_bridge.Prelude.{
  ℕ, ◌≡◌, refl, ◌⊎◌, inl, inr, Bool, true, false, not, ◌&&◌, ◌||◌, Option, none, some, ◌==◌, arith,
  if◌then◌else◌,
}
use tfchain_tft_bridge.Pallet.Types.{Account, Runtime, Storage}
use tfchain_tft_bridge.Pallet.Dispatch.{Dispatched, done, failed, after}
use tfchain_tft_bridge.Pallet.Validators.{
  Searched, found, missing, binary_search, add_validator_account, remove_validator_account,
  check_if_validator_exists,
}
use tfchain_tft_bridge.Pallet.Sorted.{
  has, Sorted, search-found, search-missing, has-insert_at, has-remove_at, insert_at-Sorted,
  remove_at-Sorted,
}

-- A finite set by its members, and its operations: adding and removing fail if there is nothing to do.
abbrev pub Members : Type 0
Members = Account → Bool

unfoldable pub set_add : Account → Members → Option Members
set_add a x = if x a then none else some (λ b. b == a || x b)

unfoldable pub set_remove : Account → Members → Option Members
set_remove a x = if x a then some (λ b. not (b == a) && x b) else none

unfoldable pub set_check : Account → Members → Option Members
set_check a x = if x a then some x else none

module _ {R : Runtime} where
  -- The set that a storage stands for, and the one that a call leaves, if it does not fail.
  abbrev pub members : Storage R → Members
  members s a = has a s.validators

  abbrev pub view : Dispatched (Storage R) Unit → Option Members
  view (done u t) = some (members t)
  view (failed e) = none

  has-found :
      (target : Account) (s : Storage R)
      → Sorted s.validators
      → ((i : ℕ) × (binary_search target s.validators ≡ found i) × (has target s.validators ≡ true))
        ⊎ ((i : ℕ) × (binary_search target s.validators ≡ missing i)
            × (has target s.validators ≡ false))
  has-found target s sorted = go (binary_search target s.validators) refl
    where
      go :
          (r : Searched)
          → binary_search target s.validators ≡ r
          → ((i : ℕ) × (binary_search target s.validators ≡ found i)
              × (has target s.validators ≡ true))
            ⊎ ((i : ℕ) × (binary_search target s.validators ≡ missing i)
                × (has target s.validators ≡ false))
      go (found i) e = inl (i, e, search-found target s.validators i e)
      go (missing i) e = inr (i, e, search-missing target s.validators i sorted e)

  add-set :
      (target : Account) (s : Storage R)
      → Sorted s.validators
      → view (add_validator_account target s) ≡ set_add target (members s)
  unfolding add_validator_account set_add
  add-set target s sorted = elim (has-found target s sorted) [
    | inl (i, e, h) ↦ ground (arith, e, h)
    | inr (i, e, h) ↦ rw (e, h) (λ k. some (λ b. has-insert_at target b s.validators i k))
  ]

  remove-set :
      (target : Account) (s : Storage R)
      → Sorted s.validators
      → view (remove_validator_account target s) ≡ set_remove target (members s)
  unfolding remove_validator_account set_remove
  remove-set target s sorted = elim (has-found target s sorted) [
    | inl (i, e, h) ↦ rw (e, h) (λ k. some (λ b. has-remove_at target b s.validators i sorted e k))
    | inr (i, e, h) ↦ ground (arith, e, h)
  ]

  check-set :
      (target : Account) (s : Storage R)
      → Sorted s.validators
      → view (check_if_validator_exists target s) ≡ set_check target (members s)
  unfolding check_if_validator_exists set_check
  check-set target s sorted = elim (has-found target s sorted) [
    | inl (i, e, h) ↦ ground (arith, e, h)
    | inr (i, e, h) ↦ ground (arith, e, h)
  ]

  pub add-Sorted :
      (target : Account) (s : Storage R)
      → Sorted s.validators
      → Sorted (after s (add_validator_account target s)).validators
  unfolding add_validator_account
  add-Sorted target s sorted = elim (has-found target s sorted) [
    | inl (i, e, h) ↦ rw e sorted
    | inr (i, e, h) ↦ rw e (insert_at-Sorted target s.validators i sorted e)
  ]

  pub remove-Sorted :
      (target : Account) (s : Storage R)
      → Sorted s.validators
      → Sorted (after s (remove_validator_account target s)).validators
  unfolding remove_validator_account
  remove-Sorted target s sorted = elim (has-found target s sorted) [
    | inl (i, e, h) ↦ rw e (remove_at-Sorted s.validators i sorted)
    | inr (i, e, h) ↦ rw e sorted
  ]

  -- On a sorted vector the three operations on validators are those of a finite set of accounts: adding
  -- fails exactly for a member and else gives the set with the account, removing fails exactly for a
  -- non-member and else gives the set without it, the check of a sender fails exactly for a non-member
  -- and leaves the set. Adding and removing leave the vector sorted.
  pub validators-refine :
      (target : Account) (s : Storage R)
      → Sorted s.validators
      → (view (add_validator_account target s) ≡ set_add target (members s))
        × (view (remove_validator_account target s) ≡ set_remove target (members s))
        × (view (check_if_validator_exists target s) ≡ set_check target (members s))
        × Sorted (after s (add_validator_account target s)).validators
        × Sorted (after s (remove_validator_account target s)).validators
  validators-refine target s sorted = (
    add-set target s sorted,
    remove-set target s sorted,
    check-set target s sorted,
    add-Sorted target s sorted,
    remove-Sorted target s sorted,
  )
