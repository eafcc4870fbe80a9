-- ===== src/Pallet/Votes.antt =====
-- pallet-tft-bridge/src/lib.rs: the votes for a mint are counted by proposals, not by validators.
use native.Mathlib.Nat.{mod-eq_of_lt}
use tfchain_tft_bridge.Prelude.{
  ℕ, ◌+◌, ◌-◌, Option, ◌^◌, ◌<◌, ◌≤◌, ◌≡◌, sym, subst, none, some, List, [], ◌∷◌, Bytes, arith,
  length,
}
use tfchain_tft_bridge.Pallet.Keyed.{get, contains_key, insert-insert, get-insert_self, text_key}
use tfchain_tft_bridge.Pallet.Types.{Account, MintTransaction, Runtime, Storage}
use tfchain_tft_bridge.Pallet.Dispatch.{after}
use tfchain_tft_bridge.Pallet.Validators.{found, binary_search, quorum, check_if_validator_exists}
use tfchain_tft_bridge.Pallet.Mint.{deposit_fee_to, propose_or_vote_stellar_mint_transaction}
use tfchain_tft_bridge.Pallet.MintEffects.{voted_mint}

-- A proposal for a deposit: who sends it, the target and the amount.
abbrev pub Proposal : Type 0
Proposal = Account × Account × ℕ

-- Every proposal comes from a validator.
abbrev pub FromValidators : List Account → List Proposal → Type 0
FromValidators vs [] = Unit
FromValidators vs ((validator, target, amount) ∷ ps) =
    ((i : ℕ) × (binary_search validator vs ≡ found i)) × FromValidators vs ps

-- The balances once a deposit is paid: the amount less the fee for the target, and the fee for the fee
-- account, if there is one.
abbrev pub credited : (R : Runtime) → Option Account → ℕ → Account → ℕ → R.Balances → R.Balances
credited R none fee target amount balances = R.deposit_creating target (amount - fee) balances
credited R (some account) fee target amount balances =
    R.deposit_creating account fee (R.deposit_creating target (amount - fee) balances)

module _ {R : Runtime} where
  -- The storage after the proposals for one hash, one call each.
  unfoldable pub propose_all : Bytes → List Proposal → Storage R → Storage R
  propose_all hash [] s = s
  propose_all hash ((validator, target, amount) ∷ ps) s =
      propose_all hash ps
        (after s (propose_or_vote_stellar_mint_transaction validator hash target amount s))

  vote-counted :
      (validator target : Account) (hash : Bytes) (amount i : ℕ) (s : Storage R)
      → binary_search validator s.validators ≡ found i
      → get hash s.executed_mint_transactions ≡ none
      → (voted_mint s hash target amount).votes < quorum s.validators
      → let t = after s (propose_or_vote_stellar_mint_transaction validator hash target amount s) in
        (get hash t.mint_transactions ≡ some (voted_mint s hash target amount))
        × (get hash t.executed_mint_transactions ≡ none)
        × (t.validators ≡ s.validators)
        × (t.deposit_fee ≡ s.deposit_fee)
        × (t.block_number ≡ s.block_number)
        × (t.balances ≡ s.balances)
        × (t.fee_account ≡ s.fee_account)
  unfolding propose_or_vote_stellar_mint_transaction check_if_validator_exists voted_mint
      contains_key
  vote-counted validator target hash amount i s accepted new few =
      let new_tx : MintTransaction = record {
        amount = amount;
        target = target;
        block = s.block_number;
        votes = 0;
      } in
      let tx = voted_mint s hash target amount in
      ground (
        arith,
        accepted,
        new,
        get-insert_self hash new_tx s.mint_transactions,
        get-insert_self hash tx s.mint_transactions,
        insert-insert hash tx new_tx s.mint_transactions,
      )

  vote-minted :
      (validator target : Account) (hash : Bytes) (amount i : ℕ) (s : Storage R)
      → binary_search validator s.validators ≡ found i
      → get hash s.executed_mint_transactions ≡ none
      → quorum s.validators ≤ (voted_mint s hash target amount).votes
      → s.deposit_fee < (voted_mint s hash target amount).amount
      → let t = after s (propose_or_vote_stellar_mint_transaction validator hash target amount s) in
        let tx = voted_mint s hash target amount in
        (get hash t.executed_mint_transactions ≡ some (record tx { block = s.block_number }))
        × (t.balances ≡ credited R s.fee_account s.deposit_fee tx.target tx.amount s.balances)
  unfolding propose_or_vote_stellar_mint_transaction check_if_validator_exists voted_mint
      contains_key deposit_fee_to
  vote-minted validator target hash amount i s accepted new many over =
      let new_tx : MintTransaction = record {
        amount = amount;
        target = target;
        block = s.block_number;
        votes = 0;
      } in
      let tx = voted_mint s hash target amount in
      ground (
        arith,
        accepted,
        new,
        get-insert_self hash new_tx s.mint_transactions,
        get-insert_self hash (record tx { block = s.block_number }) s.executed_mint_transactions,
      )

  voted_mint-some :
      (s : Storage R) (hash : Bytes) (target : Account) (amount : ℕ) (tx : MintTransaction)
      → get hash s.mint_transactions ≡ some tx
      → tx.votes + 1 < 2 ^ 32
      → voted_mint s hash target amount ≡ record tx { votes = tx.votes + 1 }
  unfolding voted_mint
  voted_mint-some s hash target amount tx h room = let e = mod-eq_of_lt room in ground (arith, h, e)

  votes-minted_from :
      (ps : List Proposal) (s : Storage R) (hash : Bytes) (tx : MintTransaction)
      → get hash s.mint_transactions ≡ some tx
      → get hash s.executed_mint_transactions ≡ none
      → FromValidators s.validators ps
      → tx.votes + length ps ≡ quorum s.validators
      → 0 < length ps
      → s.deposit_fee < tx.amount
      → quorum s.validators < 2 ^ 32
      → (get hash (propose_all hash ps s).executed_mint_transactions
          ≡ some (record tx { votes = quorum s.validators; block = s.block_number }))
        × ((propose_all hash ps s).balances
            ≡ credited R s.fee_account s.deposit_fee tx.target tx.amount s.balances)
  unfolding propose_all
  votes-minted_from [] s hash tx here new from all some_left over room = ground arith
  votes-minted_from ((validator, target, amount) ∷ []) s hash tx here new ((i, accepted), from) all
        left over room =
      let voted = voted_mint-some s hash target amount tx here (omega (arith, all, room)) in
      let e =
        vote-minted validator target hash amount i s accepted new (rw voted (omega (arith, all)))
          (rw voted over) in
      ground (arith, e, voted, all)
  votes-minted_from ((validator, target, amount) ∷ q ∷ ps) s hash tx here new ((i, accepted), from)
        all left over room =
      let voted = voted_mint-some s hash target amount tx here (omega (arith, all)) in
      let t = after s (propose_or_vote_stellar_mint_transaction validator hash target amount s) in
      let (pending, none_yet, vs, fee, now, money, fee_to) =
        vote-counted validator target hash amount i s accepted new
          (rw voted (omega (arith, all))) in
      let e =
        votes-minted_from (q ∷ ps) t hash (voted_mint s hash target amount) pending none_yet
          (subst (λ (l : List Account). FromValidators l (q ∷ ps)) (sym vs) from)
          (rw (vs, voted) (omega (arith, all))) (omega arith) (rw (fee, voted) over) (rw vs room) in
      ground (arith, e, voted, vs, fee, now, money, fee_to)

  voted_mint-none :
      (s : Storage R) (hash : Bytes) (target : Account) (amount : ℕ)
      → get hash s.mint_transactions ≡ none
      → voted_mint s hash target amount
        ≡ record { amount = amount; target = target; block = s.block_number; votes = 1 }
  unfolding voted_mint
  voted_mint-none s hash target amount h = ground (arith, h)

  -- A new deposit is minted by as many proposals as the quorum asks for, whoever of the validators sends
  -- them, also if it is one validator alone: the votes are counted, not the voters. The target of the
  -- first proposal is credited with its amount less the deposit fee, then the fee account, if there is
  -- one, with the fee, whatever the later proposals say; and no other change is made to the balances.
  pub votes-minted :
      (s : Storage R) (hash : Bytes) (validator target : Account) (amount : ℕ) (ps : List Proposal)
      → get hash s.mint_transactions ≡ none
      → get hash s.executed_mint_transactions ≡ none
      → FromValidators s.validators ((validator, target, amount) ∷ ps)
      → 1 + length ps ≡ quorum s.validators
      → s.deposit_fee < amount
      → quorum s.validators < 2 ^ 32
      → let t = propose_all hash ((validator, target, amount) ∷ ps) s in
        (get hash t.executed_mint_transactions
          ≡ some (record {
            amount = amount;
            target = target;
            block = s.block_number;
            votes = quorum s.validators;
          }))
        × (t.balances ≡ credited R s.fee_account s.deposit_fee target amount s.balances)
  unfolding propose_all
  votes-minted s hash validator target amount [] free new ((i, accepted), from) all over room =
      let voted = voted_mint-none s hash target amount free in
      let e =
        vote-minted validator target hash amount i s accepted new (rw voted (omega (arith, all)))
          (rw voted over) in
      ground (arith, e, voted, all)
  votes-minted s hash validator target amount (p ∷ ps) free new ((i, accepted), from) all over
        room =
      let voted = voted_mint-none s hash target amount free in
      let t = after s (propose_or_vote_stellar_mint_transaction validator hash target amount s) in
      let (pending, none_yet, vs, fee, now, money, fee_to) =
        vote-counted validator target hash amount i s accepted new
          (rw voted (omega (arith, all))) in
      let e =
        votes-minted_from (p ∷ ps) t hash (voted_mint s hash target amount) pending none_yet
          (subst (λ (l : List Account). FromValidators l (p ∷ ps)) (sym vs) from)
          (rw (vs, voted) (omega (arith, all))) (omega arith) (rw (fee, voted) over) (rw vs room) in
      ground (arith, e, voted, vs, fee, now, money, fee_to)
