-- ===== src/Substrate/Client.antt =====
-- tfchain_bridge/pkg/substrate/client.go: calls that are repeated until they are done.
pub mod Trace
pub mod Retry
pub mod Settled
pub mod Ends
pub mod Background
pub mod Patience
pub mod Established
use tfchain_tft_bridge.Prelude.{ℕ, zero, suc, ℤ, Bool, true, false, Text, codes, if◌then◌else◌}
use tfchain_tft_bridge.Errors.{
  Error, message, mint_transaction_not_found, is_error, Result, value, error,
}
use tfchain_tft_bridge.Exec.{Outcome, ok, unfinished, pure, raise, lift, try, ◌>>=◌, ◌>>◌}
use tfchain_tft_bridge.Env.{Env}
use tfchain_tft_bridge.Env.Types.{AccountId, Context, background, running}
use tfchain_tft_bridge.World.{World, Action, ask}
use tfchain_tft_bridge.World.Calls

-- The error of the question is returned, but by the loop for mints, which returns the error of
-- the attempt.
abbrev pub error_of_check : Error → Error → Error
error_of_check e c = c

abbrev pub error_of_attempt : Error → Error → Error
error_of_attempt e c = e

module _ {E : Env} where
  -- `select` between `ctx.Done()` and `time.After`: true if the context is done. The background
  -- context never is.
  unfoldable pub wait : Context → Action E Bool
  wait background w = let (_, s) = E.wait w.outside in (ok false, record w { outside = s })
  wait running w = let (done, s) = E.wait w.outside in (ok done, record w { outside = s })

  -- `for err != nil`: the error of the last attempt decides whether the loop goes on.
  unfoldable pub after_attempt : (Error → Action E Unit) → Result Unit → Action E Unit
  after_attempt again (value _) = pure tt
  after_attempt again (error e) = again e

  -- The answer whether it has been done already. If there is none the loop gives up.
  unfoldable pub after_check :
      (Error → Action E Unit) → Action E Unit → (Error → Error) → Result Bool → Action E Unit
  unfolding after_attempt
  after_check again attempt give_up (error e) = raise (give_up e)
  after_check again attempt give_up (value true) = pure tt
  after_check again attempt give_up (value false) = do r ← try attempt; after_attempt again r

  -- The loop behind a failed attempt; `e` is its error.
  unfoldable pub retry_loop :
      ℕ → Context → Action E Unit → Action E Bool → (Error → Error → Error) → Error → Action E Unit
  unfolding after_check
  retry_loop zero ctx attempt check give_up e = λ w. (unfinished, w)
  retry_loop (suc fuel) ctx attempt check give_up e = do
    done ← wait ctx
    if done then raise e else do
      answer ← try check
      after_check (retry_loop fuel ctx attempt check give_up) attempt (give_up e) answer

  unfoldable pub retry :
      ℕ → Context → Action E Unit → Action E Bool → (Error → Error → Error) → Action E Unit
  unfolding retry_loop
  retry fuel ctx attempt check give_up = do
    r ← try attempt
    after_attempt (retry_loop fuel ctx attempt check give_up) r

  -- A transaction that the chain does not know is not minted.
  unfoldable pub no_mint_found : Result Bool → Action E Bool
  no_mint_found (value b) = pure b
  no_mint_found (error e) = if is_error e mint_transaction_not_found then pure false else raise e

  unfoldable pub check_minted : Text → Action E Bool
  unfolding no_mint_found
  check_minted hash = do r ← try (Calls.is_minted_already E hash); no_mint_found r

-- `SubstrateClient`: the identity that signs; the connection is part of what lies outside.
pub record SubstrateClient (E : Env) : Type 0 where
  pub identity : E.Identity

module _ {E : Env} (fuel : ℕ) (s : SubstrateClient E) (ctx : Context) where
  unfoldable pub retry_set_withdraw_executed : ℕ → Action E Unit
  retry_set_withdraw_executed tx_id =
      retry fuel ctx (Calls.set_burn_transaction_executed E s.identity tx_id)
        (Calls.is_burned_already E tx_id) error_of_check

  unfoldable pub retry_propose_withdraw_or_add_sig : ℕ → Text → ℤ → Text → Text → ℕ → Action E Unit
  retry_propose_withdraw_or_add_sig tx_id target amount signature address sequence_number =
      retry fuel ctx
        (Calls.propose_burn_transaction_or_add_sig E s.identity tx_id target amount signature
          address sequence_number)
        (Calls.is_burned_already E tx_id) error_of_check

  unfoldable pub retry_create_refund_transaction_or_add_sig :
      Text → Text → ℤ → Text → Text → ℕ → Action E Unit
  retry_create_refund_transaction_or_add_sig hash target amount signature address sequence_number =
      retry fuel ctx
        (Calls.create_refund_transaction_or_add_sig E s.identity hash target amount signature
          address sequence_number)
        (Calls.is_refunded_already E hash) error_of_check

  unfoldable pub retry_set_refund_transaction_executed_tx : Text → Action E Unit
  retry_set_refund_transaction_executed_tx hash =
      retry fuel ctx (Calls.set_refund_transaction_executed E s.identity hash)
        (Calls.is_refunded_already E hash) error_of_check

  unfoldable pub retry_propose_mint_or_vote : Text → AccountId → ℤ → Action E Unit
  retry_propose_mint_or_vote tx_id target amount =
      retry fuel ctx (Calls.propose_or_vote_mint_transaction E s.identity tx_id target amount)
        (check_minted tx_id) error_of_attempt

-- `NewSubstrateClient`: only a validator may start.
abbrev require_validator : {E : Env} → E.Identity → Bool → Action E (SubstrateClient E)
require_validator identity true = pure (record { identity = identity })
require_validator identity false =
    raise (message (codes "account provided is not a validator for the bridge runtime"))

unfoldable pub new_substrate_client : {E : Env} → Text → Text → Action E (SubstrateClient E)
new_substrate_client {E} url seed = do
  ask (E.connect url)
  identity ← lift (E.new_identity seed)
  validator ← ask (E.is_validator identity)
  require_validator identity validator
