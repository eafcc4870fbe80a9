-- ===== src/Pallet/Client.antt =====
-- The pallet behind the client library that the daemon calls.
use tfchain_tft_bridge.Prelude.{ℕ, ◌≡◌, refl, Bool, true, false, Option, none, some, arith}
use tfchain_tft_bridge.Errors.{value}
use tfchain_tft_bridge.Exec.{ok, is_ok}
use tfchain_tft_bridge.Env.{Env}
use tfchain_tft_bridge.Env.Types.{Context}
use tfchain_tft_bridge.World.{World}
use tfchain_tft_bridge.Substrate.Events.{WithdrawReadyEvent}
use tfchain_tft_bridge.Bridge.State.{Bridge}
use tfchain_tft_bridge.Bridge.Withdraw.{handle_withdraw_ready}
use tfchain_tft_bridge.Bridge.Withdraw.Once.{KeepsBurns, OnlyAsked, handle_withdraw_ready-once}
use tfchain_tft_bridge.Pallet.Keyed.{
  Keyed, get, contains_key, contains_key-some, get-insert_self, nat_key,
}
use tfchain_tft_bridge.Pallet.Types.{Account, BurnTransaction, Runtime, Storage, signed}
use tfchain_tft_bridge.Pallet.Dispatch.{done, after}
use tfchain_tft_bridge.Pallet.Validators.{check_if_validator_exists}
use tfchain_tft_bridge.Pallet.Burn.{set_stellar_burn_transaction_executed, get_burn}
use tfchain_tft_bridge.Pallet.Calls.{set_burn_transaction_executed, dispatch}
use tfchain_tft_bridge.Pallet.Blocks.{Reaches}
use tfchain_tft_bridge.Pallet.Lasting.{reached-Later}

-- What the client library does on the chain: a submitted call succeeds if the chain has run it without
-- an error, between whatever else happens on the chain, and a question is answered from the storage.
pub record ServedBy (E : Env) (R : Runtime) : Type 0 where
  pub storage : E.State → Storage R
  pub account : E.Identity → Account
  pub before : E.Identity → ℕ → E.State → Storage R
  pub included :
      (identity : E.Identity) (id : ℕ) (s : E.State)
      → (E.set_burn_transaction_executed identity id s).0 ≡ value tt
      → let u = before identity id s in
        let run = dispatch (signed (account identity)) (set_burn_transaction_executed id) u in
        (run ≡ done tt (after u run))
        × Reaches (after u run) (storage (E.set_burn_transaction_executed identity id s).1)
  pub told :
      (id : ℕ) (s : E.State) (b : Bool)
      → (E.is_burned_already id s).0 ≡ value b
      → Reaches (storage s) (storage (E.is_burned_already id s).1)
        × (contains_key id (storage (E.is_burned_already id s).1).executed_burn_transactions ≡ b)

set_burn-executed :
    {R : Runtime} (validator : Account) (id : ℕ) (u : Storage R)
    → let run = dispatch (signed validator) (set_burn_transaction_executed id) u in
      run ≡ done tt (after u run)
      → get id (after u run).executed_burn_transactions ≡ some (get_burn id u.burn_transactions)
unfolding dispatch set_stellar_burn_transaction_executed check_if_validator_exists
set_burn-executed validator id u h =
    ground
      (arith, h, get-insert_self id (get_burn id u.burn_transactions) u.executed_burn_transactions)

contained_some :
    (id : ℕ) (m : Keyed ℕ BurnTransaction)
    → contains_key id m ≡ true
    → (tx : BurnTransaction) × (get id m ≡ some tx)
unfolding contains_key
contained_some id m h = go (get id m) refl
  where
    go : (o : Option BurnTransaction) → get id m ≡ o → (tx : BurnTransaction) × (get id m ≡ some tx)
    go none e = ground (arith, e, h)
    go (some tx) e = (tx, e)

module _ {E : Env} {R : Runtime} (C : ServedBy E R) where
  abbrev pub ExecutedOn : ℕ → E.State → Type 0
  ExecutedOn id s =
      (tx : BurnTransaction) × (get id (C.storage s).executed_burn_transactions ≡ some tx)

  -- The pallet keeps what is executed.
  served-KeepsBurns : KeepsBurns E
  served-KeepsBurns = record {
    Executed = ExecutedOn;
    Later = λ s t. Reaches (C.storage s) (C.storage t);
    set_executed = λ identity id s h.
        let (run, rest) = C.included identity id s h in
        (
          get_burn id (C.before identity id s).burn_transactions,
          (reached-Later rest).burn id _ (set_burn-executed (C.account identity) id _ run),
        );
    answered = λ id s h. contained_some id _ (C.told id s true h).1;
    not_denied = λ id s (tx, e) h.
        let (r, no_key) = C.told id s false h in
        let yes_key =
          contains_key-some id tx
            (C.storage (E.is_burned_already id s).1).executed_burn_transactions
            ((reached-Later r).burn id tx e) in
        cc;
    lasts = λ id (tx, e) r. (tx, (reached-Later r).burn id tx e);
  }

  -- No withdrawal is paid twice, by the daemon and the pallet together: if the handler of a ready
  -- withdrawal has returned without an error, then in every state in which the storage of the pallet is
  -- one that the chain reaches from there, with any sequence number and trace, the handler of a ready
  -- withdrawal with the same id, of this daemon or of one with another configuration, fails and leaves
  -- nothing but the question whether it is burned, with the answer yes or with none: it submits no
  -- payment. A call that succeeds must have
  -- been run by the chain without an error, and the question must be answered from the storage.
  pub withdrawal-paid_once :
      (fuel : ℕ) (b : Bridge E) (ctx : Context) (event again : WithdrawReadyEvent) (w v : World E)
      → again.id ≡ event.id
      → (handle_withdraw_ready fuel b ctx event w).0 ≡ ok tt
      → Reaches
          (C.storage (handle_withdraw_ready fuel b ctx event w).1.outside)
          (C.storage v.outside)
      → (fuel' : ℕ) (b' : Bridge E) (ctx' : Context)
      → (is_ok (handle_withdraw_ready fuel' b' ctx' again v).0 ≡ false)
        × OnlyAsked again.id v.trace (handle_withdraw_ready fuel' b' ctx' again v).1.trace
  unfolding served-KeepsBurns
  withdrawal-paid_once fuel b ctx event again w v same returned later =
      handle_withdraw_ready-once served-KeepsBurns fuel b ctx event again w v same returned later
