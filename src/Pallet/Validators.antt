-- ===== src/Pallet/Validators.antt =====
-- The validators of pallet-tft-bridge/src/lib.rs: a sorted vector of accounts.
use tfchain_tft_bridge.Prelude.{
  ℕ, zero, suc, List, [], ◌∷◌, ltb, ◌==◌, length, ◌+◌, ◌/◌, if◌then◌else◌,
}
use tfchain_tft_bridge.Pallet.Types.{Account, Runtime, validator_exists, validator_not_exists}
use tfchain_tft_bridge.Pallet.Dispatch.{Dispatch, pure, fail, gets, modify, ◌>>=◌}

-- `Result<usize, usize>` of `binary_search`: where the element is, or where it belongs.
pub data Searched : Type 0 where
  found missing : ℕ → Searched

abbrev pub next : Searched → Searched
next (found i) = found (suc i)
next (missing i) = missing (suc i)

-- What `binary_search` says of a sorted vector.
unfoldable pub binary_search : Account → List Account → Searched
binary_search a [] = missing 0
binary_search a (v ∷ vs) =
    let rest = next (binary_search a vs) in
    if a == v then found 0 else if ltb a v then missing 0 else rest

-- `Vec::insert`
unfoldable pub insert_at : ℕ → Account → List Account → List Account
insert_at zero a vs = a ∷ vs
insert_at (suc i) a [] = a ∷ []
insert_at (suc i) a (v ∷ vs) = v ∷ insert_at i a vs

-- `Vec::remove`
unfoldable pub remove_at : ℕ → List Account → List Account
remove_at i [] = []
remove_at zero (v ∷ vs) = vs
remove_at (suc i) (v ∷ vs) = v ∷ remove_at i vs

-- More than half: the signatures or votes that make a transaction ready.
abbrev pub quorum : List Account → ℕ
quorum validators = length validators / 2 + 1

module _ {R : Runtime} where
  unfoldable pub add_at : Account → Searched → Dispatch R Unit
  add_at target (found i) = fail validator_exists
  add_at target (missing i) =
      modify (λ s. record s { validators = insert_at i target s.validators })

  unfoldable pub add_validator_account : Account → Dispatch R Unit
  unfolding add_at binary_search insert_at
  add_validator_account target = do
    searched ← gets (λ s. binary_search target s.validators)
    add_at target searched

  unfoldable pub remove_found : Searched → Dispatch R Unit
  remove_found (found i) = modify (λ s. record s { validators = remove_at i s.validators })
  remove_found (missing i) = fail validator_not_exists

  unfoldable pub remove_validator_account : Account → Dispatch R Unit
  unfolding remove_found binary_search remove_at
  remove_validator_account target = do
    searched ← gets (λ s. binary_search target s.validators)
    remove_found searched

  unfoldable pub check_found : Searched → Dispatch R Unit
  check_found (found i) = pure tt
  check_found (missing i) = fail validator_not_exists

  unfoldable pub check_if_validator_exists : Account → Dispatch R Unit
  unfolding check_found binary_search
  check_if_validator_exists validator = do
    searched ← gets (λ s. binary_search validator s.validators)
    check_found searched
