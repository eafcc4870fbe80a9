-- ===== src/Substrate/Client/Ends.antt =====
-- The retry loops of tfchain_bridge/pkg/substrate/client.go end once their context does: fuel for the
-- rounds of waiting that are left is enough.
use tfchain_tft_bridge.Prelude.{
  ℕ, zero, suc, ℤ, ◌≤◌, ◌<◌, Bool, true, false, ◌≡◌, ◌⊎◌, inl, inr, arith, if◌then◌else◌, Text,
}
use tfchain_tft_bridge.Errors.{Error, Result, value, error}
use tfchain_tft_bridge.Exec.{raise, try, ◌>>=◌}
use tfchain_tft_bridge.Env.{Env}
use tfchain_tft_bridge.Env.Types.{AccountId, running}
use tfchain_tft_bridge.World.{World, Action}
use tfchain_tft_bridge.World.Calls
use tfchain_tft_bridge.World.Timely.{
  Deadline, Ended, IsSteady, IsTimely, IsTimely-pure, IsTimely-raise, IsTimely-try, IsTimely-bind,
  IsTimely-perform, IsTimely-question, IsTimely-if,
}
use tfchain_tft_bridge.Substrate.Client.{
  wait, after_attempt, after_check, retry_loop, retry, no_mint_found, check_minted, SubstrateClient,
  retry_set_withdraw_executed, retry_propose_withdraw_or_add_sig,
  retry_create_refund_transaction_or_add_sig, retry_set_refund_transaction_executed_tx,
  retry_propose_mint_or_vote,
}

module _ {E : Env} (d : Deadline E) where
  module _ (attempt : Action E Unit) (check : Action E Bool)
      (attempt_ends : (n : ℕ) → IsTimely d n attempt)
      (check_ends : (n : ℕ) → IsTimely d n check) where
    abbrev Step : ℕ → (Error → Action E Unit) → Type 0
    Step n again = (e : Error) → IsTimely d n (again e)

    after_attempt-IsTimely :
        (n : ℕ) (again : Error → Action E Unit) (r : Result Unit)
        → Step n again
        → IsTimely d n (after_attempt again r)
    unfolding after_attempt
    after_attempt-IsTimely n again (value _) step = IsTimely-pure d n tt
    after_attempt-IsTimely n again (error e) step = step e

    after_check-IsTimely :
        (n : ℕ) (again : Error → Action E Unit) (give_up : Error → Error) (r : Result Bool)
        → Step n again
        → IsTimely d n (after_check again attempt give_up r)
    unfolding after_check
    after_check-IsTimely n again give_up (error e) step = IsTimely-raise d n _
    after_check-IsTimely n again give_up (value true) step = IsTimely-pure d n tt
    after_check-IsTimely n again give_up (value false) step =
        IsTimely-bind d n _ _ (IsTimely-try d n attempt (attempt_ends n))
          (λ r. after_attempt-IsTimely n again r step)

    retry_loop-IsTimely :
        (n : ℕ) (give_up : Error → Error → Error)
        → Step n (retry_loop n running attempt check give_up)
    unfolding retry_loop wait ◌>>=◌ raise
    retry_loop-IsTimely zero give_up e = record { at = λ w h. absurd (omega arith) }
    retry_loop-IsTimely (suc n) give_up e = record {
      at = λ w h.
          go (retry_loop-IsTimely n give_up) w h (E.wait w.outside).0 (E.wait w.outside).1
            (d.wait_ends w.outside);
    }
      where
        rest :
            Step n (retry_loop n running attempt check give_up)
            → IsTimely d n (
                try check
                >>= after_check (retry_loop n running attempt check give_up) attempt (give_up e))
        rest ih =
            IsTimely-bind d n _ _ (IsTimely-try d n check (check_ends n))
              (λ r. after_check-IsTimely n _ (give_up e) r ih)

        go :
            Step n (retry_loop n running attempt check give_up)
            → (w : World E) → d.left w.outside < suc n
            → (done : Bool) (s : E.State)
            → ((done ≡ true) × (d.left s ≤ d.left w.outside)) ⊎ (d.left s < d.left w.outside)
            → let m : Action E Unit = if done then raise e else do
              answer ← try check
              after_check (retry_loop n running attempt check give_up) attempt (give_up e) answer
              in Ended (m (record w { outside = s })).0
                × (d.left (m (record w { outside = s })).1.outside ≤ d.left w.outside)
        go ih w h true s (inl p) = (tt, p.1)
        go ih w h true s (inr l) = (tt, omega arith)
        go ih w h false s (inl p) = cc
        go ih w h false s (inr l) =
            let t = (rest ih).at (record w { outside = s }) (omega arith) in
            (t.0, omega (arith, t.1))

    -- With fuel for the rounds that are left, the loop ends.
    pub retry-IsTimely :
        (fuel : ℕ) (give_up : Error → Error → Error)
        → IsTimely d fuel (retry fuel running attempt check give_up)
    unfolding retry
    retry-IsTimely fuel give_up =
        IsTimely-bind d fuel _ _ (IsTimely-try d fuel attempt (attempt_ends fuel))
          (λ r. after_attempt-IsTimely fuel _ r (retry_loop-IsTimely fuel give_up))

module _ {E : Env} (d : Deadline E) (steady : IsSteady d) where
  set_burn_transaction_executed-IsTimely :
      (n : ℕ) (identity : E.Identity) (id : ℕ)
      → IsTimely d n (Calls.set_burn_transaction_executed E identity id)
  set_burn_transaction_executed-IsTimely n identity id =
      IsTimely-perform d n _ _ _ (steady.set_burn_transaction_executed identity id)

  pub is_burned_already-IsTimely : (n : ℕ) (id : ℕ) → IsTimely d n (Calls.is_burned_already E id)
  is_burned_already-IsTimely n id = IsTimely-question d n _ _ (steady.is_burned_already id)

  pub is_refunded_already-IsTimely :
      (n : ℕ) (hash : Text) → IsTimely d n (Calls.is_refunded_already E hash)
  is_refunded_already-IsTimely n hash = IsTimely-question d n _ _ (steady.is_refunded_already hash)

  no_mint_found-IsTimely : (n : ℕ) (r : Result Bool) → IsTimely d n (no_mint_found {E = E} r)
  unfolding no_mint_found
  no_mint_found-IsTimely n (value b) = IsTimely-pure d n b
  no_mint_found-IsTimely n (error e) =
      IsTimely-if d n _ _ _ (IsTimely-pure d n false) (IsTimely-raise d n e)

  pub check_minted-IsTimely : (n : ℕ) (hash : Text) → IsTimely d n (check_minted {E = E} hash)
  unfolding check_minted
  check_minted-IsTimely n hash =
      IsTimely-bind d n _ _
        (IsTimely-try d n _ (IsTimely-question d n _ _ (steady.is_minted_already hash)))
        (no_mint_found-IsTimely n)

  module _ (fuel : ℕ) (s : SubstrateClient E) where
    pub retry_set_withdraw_executed-IsTimely :
        (id : ℕ) → IsTimely d fuel (retry_set_withdraw_executed fuel s running id)
    unfolding retry_set_withdraw_executed
    retry_set_withdraw_executed-IsTimely id =
        retry-IsTimely d _ _ (λ n. set_burn_transaction_executed-IsTimely n s.identity id)
          (λ n. is_burned_already-IsTimely n id) fuel _

    pub retry_propose_withdraw_or_add_sig-IsTimely :
        (id : ℕ) (target : Text) (amount : ℤ) (signature address : Text) (sequence : ℕ)
        → IsTimely d fuel (
            retry_propose_withdraw_or_add_sig fuel s running id target amount signature address
              sequence)
    unfolding retry_propose_withdraw_or_add_sig
    retry_propose_withdraw_or_add_sig-IsTimely id target amount signature address sequence =
        retry-IsTimely d _ _
          (λ n. IsTimely-perform d n _ _ _ (
            steady.propose_burn_transaction_or_add_sig s.identity id target amount signature address
              sequence))
          (λ n. is_burned_already-IsTimely n id) fuel _

    pub retry_create_refund_transaction_or_add_sig-IsTimely :
        (hash target : Text) (amount : ℤ) (signature address : Text) (sequence : ℕ)
        → IsTimely d fuel (
            retry_create_refund_transaction_or_add_sig fuel s running hash target amount signature
              address sequence)
    unfolding retry_create_refund_transaction_or_add_sig
    retry_create_refund_transaction_or_add_sig-IsTimely hash target amount signature address
          sequence =
        retry-IsTimely d _ _
          (λ n. IsTimely-perform d n _ _ _ (
            steady.create_refund_transaction_or_add_sig s.identity hash target amount signature
              address sequence))
          (λ n. is_refunded_already-IsTimely n hash) fuel _

    pub retry_set_refund_transaction_executed_tx-IsTimely :
        (hash : Text)
        → IsTimely d fuel (retry_set_refund_transaction_executed_tx fuel s running hash)
    unfolding retry_set_refund_transaction_executed_tx
    retry_set_refund_transaction_executed_tx-IsTimely hash =
        retry-IsTimely d _ _
          (λ n. IsTimely-perform d n _ _ _ (steady.set_refund_transaction_executed s.identity hash))
          (λ n. is_refunded_already-IsTimely n hash) fuel _

    pub retry_propose_mint_or_vote-IsTimely :
        (id : Text) (target : AccountId) (amount : ℤ)
        → IsTimely d fuel (retry_propose_mint_or_vote fuel s running id target amount)
    unfolding retry_propose_mint_or_vote
    retry_propose_mint_or_vote-IsTimely id target amount =
        retry-IsTimely d _ _
          (λ n.
            IsTimely-perform d n _ _ _
              (steady.propose_or_vote_mint_transaction s.identity id target amount))
          (λ n. check_minted-IsTimely n id) fuel _
