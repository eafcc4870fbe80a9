-- ===== src/Tests/Pallet.antt =====
-- The theorems on the pallet, on a small runtime with three validators.
use tfchain_tft_bridge.Prelude.{
  ℕ, ◌+◌, ◌-◌, ◌^◌, ◌<◌, ◌≤◌, ◌≡◌, refl, true, false, none, some, [], ◌∷◌, Bytes, codes, leb,
  if◌then◌else◌, arith, text_eq,
}
use mathlib.Core.Option as Option
use tfchain_tft_bridge.Pallet.Keyed.{get, contains_key, nat_key, text_key}
use tfchain_tft_bridge.Pallet.Types.{
  MintTransaction, BurnTransaction, RefundTransaction, root, unsigned, signed, Runtime, Storage,
  mint_transaction_already_executed, burn_transaction_already_executed,
  refund_transaction_already_executed,
}
use tfchain_tft_bridge.Pallet.Dispatch.{done, failed, after}
use tfchain_tft_bridge.Pallet.Validators.{
  Searched, binary_search, quorum, check_if_validator_exists, add_validator_account,
  remove_validator_account,
}
use tfchain_tft_bridge.Pallet.Mint.{propose_or_vote_stellar_mint_transaction}
use tfchain_tft_bridge.Pallet.Burn.{
  propose_stellar_burn_transaction_or_add_sig, set_stellar_burn_transaction_executed,
}
use tfchain_tft_bridge.Pallet.Refund.{
  create_stellar_refund_transaction_or_add_sig, set_stellar_refund_transaction_executed,
}
use tfchain_tft_bridge.Pallet.Calls.{Call, swap_to_stellar, dispatch}
use tfchain_tft_bridge.Pallet.Blocks.{
  GenesisConfig, build, on_finalize, Reaches, stop, go, call, end_block,
}
use tfchain_tft_bridge.Pallet.Expiry.{renewed_burn, renewed_refund, on_finalize-refreshes}
use tfchain_tft_bridge.Pallet.Sorted.{Sorted}
use tfchain_tft_bridge.Pallet.ValidatorSet.{
  view, members, set_add, set_remove, set_check, validators-refine,
}
use tfchain_tft_bridge.Pallet.Invariant.{WellFormed, reachable-WellFormed}
use tfchain_tft_bridge.Pallet.Supply.{CurrencyLaws, paid_out, taken_in}
use tfchain_tft_bridge.Pallet.Backed.{supply-backed}
use tfchain_tft_bridge.Pallet.RefundEffects.{created_refund}
use tfchain_tft_bridge.Pallet.Refused.{refusal, executed_mint-refused, executed_burn-refused}
use tfchain_tft_bridge.Pallet.Stuck.{executed_refund-recreated}
use tfchain_tft_bridge.Pallet.Votes.{credited, propose_all, votes-minted}

-- The balances are their sum.
abbrev pub small : Runtime
small = record {
  Balances = ℕ;
  usable_balance = λ b account. b;
  withdraw = λ account amount b. if leb amount b then some b else none;
  deposit_creating = λ account amount b. b + amount;
  on_unbalanced = λ amount b. b - amount;
  is_restricted = λ origin. elim origin [ root ↦ true | unsigned ↦ false | signed a ↦ false ];
  retry_interval = 20;
  is_public_key = λ key. true;
}

small-burned : (amount b c : ℕ) → small.withdraw 0 amount b ≡ some c → (c - amount) + amount ≤ b
small-burned amount b c h = ground arith

small_laws : CurrencyLaws small
small_laws = record {
  issuance = λ b. b;
  deposited = λ account amount b. omega arith;
  burned = λ account amount b c h. small-burned amount b c h;
}

abbrev pub genesis_config : GenesisConfig
genesis_config = record {
  validator_accounts = some (1 ∷ 2 ∷ 3 ∷ []);
  fee_account = some 9;
  withdraw_fee = 10;
  deposit_fee = 10;
}

abbrev pub genesis : Storage small
genesis = build genesis_config 1000

abbrev swap : Call
swap = swap_to_stellar (codes "GC") 100

abbrev swapped : Storage small
swapped = after genesis (dispatch (signed 7) swap genesis)

genesis-Sorted : Sorted genesis.validators
unfolding build
genesis-Sorted = omega arith

reachable-WellFormed_example :
    WellFormed {R = small} (record (on_finalize swapped.block_number swapped) {
      block_number = swapped.block_number + 1;
    })
reachable-WellFormed_example =
    reachable-WellFormed genesis_config 1000 genesis-Sorted
      (go (go stop (call (signed 7) swap)) end_block) (omega arith)

-- A swap, and then the end of its block.
abbrev one_block :
    Reaches {R = small} genesis (record (on_finalize swapped.block_number swapped) {
      block_number = swapped.block_number + 1;
    })
one_block = go (go stop (call (signed 7) swap)) end_block

supply-backed_example :
    small_laws.issuance (on_finalize swapped.block_number swapped).balances
      + paid_out {R = small} (record (on_finalize swapped.block_number swapped) {
        block_number = swapped.block_number + 1;
      })
    ≤ small_laws.issuance 1000
      + taken_in {R = small} (record (on_finalize swapped.block_number swapped) {
        block_number = swapped.block_number + 1;
      })
supply-backed_example =
    supply-backed small_laws genesis_config 1000 genesis-Sorted one_block tt (omega arith)

validators-refine_example :
    (view (add_validator_account 5 genesis) ≡ set_add 5 (members genesis))
    × (view (remove_validator_account 5 genesis) ≡ set_remove 5 (members genesis))
    × (view (check_if_validator_exists 5 genesis) ≡ set_check 5 (members genesis))
    × Sorted (after genesis (add_validator_account 5 genesis)).validators
    × Sorted (after genesis (remove_validator_account 5 genesis)).validators
validators-refine_example = validators-refine 5 genesis genesis-Sorted

abbrev hash : Bytes
hash = codes "0a1b"

abbrev old_mint : MintTransaction
old_mint = record { amount = 500; target = 7; block = 0; votes = 2 }

abbrev minted_once : Storage small
minted_once = record genesis { executed_mint_transactions = (hash, old_mint) ∷ [] }

minted_once-executed : get hash minted_once.executed_mint_transactions ≡ some old_mint
unfolding get text_eq
minted_once-executed = refl

executed_mint-refused_example :
    propose_or_vote_stellar_mint_transaction 2 hash 8 900 minted_once
    ≡ failed (refusal 2 minted_once mint_transaction_already_executed)
executed_mint-refused_example =
    executed_mint-refused stop hash old_mint minted_once-executed 2 8 900

abbrev old_burn : BurnTransaction
old_burn = record {
  block = 0;
  amount = 90;
  target = codes "GC";
  signatures = [];
  sequence_number = 0;
}

abbrev burned_once : Storage small
burned_once = record genesis { executed_burn_transactions = (1, old_burn) ∷ [] }

burned_once-executed : get 1 burned_once.executed_burn_transactions ≡ some old_burn
unfolding get
burned_once-executed = refl

executed_burn-refused_example :
    (propose_stellar_burn_transaction_or_add_sig 2 1
        (codes "GC")
        90
        (codes "sig")
        (codes "GA")
        8
        burned_once
      ≡ failed (refusal 2 burned_once burn_transaction_already_executed))
    × (set_stellar_burn_transaction_executed 2 1 burned_once
        ≡ failed (refusal 2 burned_once burn_transaction_already_executed))
executed_burn-refused_example =
    executed_burn-refused stop 1 old_burn burned_once-executed 2 (codes "GC") 90 (codes "sig")
      (codes "GA") 8

nothing_pending : get hash genesis.mint_transactions ≡ none
unfolding build get
nothing_pending = refl

nothing_executed : get hash genesis.executed_mint_transactions ≡ none
unfolding build get
nothing_executed = refl

second_found : binary_search 2 genesis.validators ≡ Searched.found 1
unfolding build binary_search
second_found = refl

quorum_two : 1 + 1 ≡ quorum genesis.validators
unfolding build
quorum_two = refl

fee_below : genesis.deposit_fee < 500
unfolding build
fee_below = omega arith

few_validators : quorum genesis.validators < 2 ^ 32
unfolding build
few_validators = omega arith

-- The second of three validators proposes twice.
votes-minted_example :
    let t = propose_all hash ((2, 7, 500) ∷ (2, 8, 900) ∷ []) genesis in
    (get hash t.executed_mint_transactions
      ≡ some (record {
        amount = 500;
        target = 7;
        block = genesis.block_number;
        votes = quorum genesis.validators;
      }))
    × (t.balances ≡ credited small genesis.fee_account genesis.deposit_fee 7 500 genesis.balances)
votes-minted_example =
    votes-minted genesis hash 2 7 500 ((2, 8, 900) ∷ []) nothing_pending nothing_executed
      ((1, second_found), ((1, second_found), tt)) quorum_two fee_below few_validators

abbrev old_refund : RefundTransaction
old_refund = record {
  block = 0;
  amount = 40;
  target = codes "GC";
  tx_hash = hash;
  signatures = [];
  sequence_number = 8;
}

abbrev refunded_once : Storage small
refunded_once = record genesis { executed_refund_transactions = (hash, old_refund) ∷ [] }

refunded_once-executed : get hash refunded_once.executed_refund_transactions ≡ some old_refund
unfolding get text_eq
refunded_once-executed = refl

refunded_once-free : contains_key hash refunded_once.refund_transactions ≡ false
unfolding build contains_key
refunded_once-free = refl

second_accepted : check_if_validator_exists 2 refunded_once ≡ done tt refunded_once
unfolding build check_if_validator_exists
second_accepted = refl

abbrev recreated : Storage small
recreated = after refunded_once (
    create_stellar_refund_transaction_or_add_sig 2 hash (codes "GC") 40 (codes "sig") (codes "GA") 9
      refunded_once)

executed_refund-recreated_example :
    let run =
      create_stellar_refund_transaction_or_add_sig 2 hash
        (codes "GC")
        40
        (codes "sig")
        (codes "GA")
        9
        refunded_once in
    (run ≡ done tt (after refunded_once run))
    × (get hash (after refunded_once run).refund_transactions
        ≡ some (
            created_refund refunded_once hash
              (codes "GC")
              40
              (record { signature = codes "sig"; stellar_pub_key = codes "GA" })
              9))
    × (contains_key hash recreated.refund_transactions ≡ true)
    × (set_stellar_refund_transaction_executed 2 hash recreated
        ≡ failed (refusal 2 recreated refund_transaction_already_executed))
executed_refund-recreated_example =
    executed_refund-recreated refunded_once hash old_refund refunded_once-executed
      refunded_once-free 2 second_accepted (codes "GC") 40 (codes "sig") (codes "GA") 9 stop 2

abbrev one_pending : Storage small
one_pending = record genesis {
  burn_transactions = (1, old_burn) ∷ [];
  refund_transactions = (hash, old_refund) ∷ [];
}

no_burn : get {K = ℕ} {V = BurnTransaction} 1 [] ≡ none
unfolding get
no_burn = refl

no_refund : get {K = Bytes} {V = RefundTransaction} hash [] ≡ none
unfolding get
no_refund = refl

burn_past :
    (id : ℕ) (tx : BurnTransaction) → get id one_pending.burn_transactions ≡ some tx → tx.block ≤ 30
unfolding get
burn_past id tx h = ground (arith, h)

refund_past :
    (k : Bytes) (tx : RefundTransaction)
    → get k one_pending.refund_transactions ≡ some tx
    → tx.block ≤ 30
unfolding get
refund_past k tx h = ground (arith, h)

on_finalize-refreshes_example :
    ((id : ℕ)
      → get id (on_finalize 30 one_pending).burn_transactions
        ≡ Option.map (renewed_burn 20 30) (get id one_pending.burn_transactions))
    × ((k : Bytes)
        → get k (on_finalize 30 one_pending).refund_transactions
          ≡ Option.map (renewed_refund 20 30) (get k one_pending.refund_transactions))
on_finalize-refreshes_example =
    on_finalize-refreshes 30 one_pending (no_burn, tt) (no_refund, tt) burn_past refund_past
      (omega arith)
