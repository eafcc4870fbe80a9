-- ===== src/Tests/Retries.antt =====
-- The theorems on retried calls without a deadline, on the small chain.
use tfchain_tft_bridge.Prelude.{
  ℕ, zero, suc, pos, ◌≡◌, ◌<◌, ◌≤◌, ◌⊎◌, inl, inr, refl, Bool, Option, Bytes, codes, arith,
}
use tfchain_tft_bridge.Exec.{ok, lift}
use tfchain_tft_bridge.Exec.Rules.{Returned}
use tfchain_tft_bridge.Env.Types.{background}
use tfchain_tft_bridge.World.{World, Action, perform, question}
use tfchain_tft_bridge.World.Calls
use tfchain_tft_bridge.Substrate.Client.{retry, error_of_check}
use tfchain_tft_bridge.Substrate.Client.Patience.{Patience, Settles, retry-Settles}
use tfchain_tft_bridge.Prelude.{none, false, []}
use tfchain_tft_bridge.Exec.{unfinished}
use tfchain_tft_bridge.Errors.{error, foreign}
use tfchain_tft_bridge.Env.{Env}
use tfchain_tft_bridge.Substrate.Client.Background.{retry-unfinished}
use tfchain_tft_bridge.Tests.{
  sim_chain, sim_stellar, answer, Sim, sim, sim_host, fresh, stored_hash,
}

abbrev propose : Action sim Unit
propose =
    Calls.create_refund_transaction_or_add_sig sim 0 stored_hash (codes "GC") (pos 5) (codes "sig")
      (codes "GA") 8

abbrev asked : Action sim Bool
asked = Calls.is_refunded_already sim stored_hash

waits_at :
    (n : ℕ) (done : Bool) (file : Option Bytes)
    → let s : Sim = record { rounds = n; done = done; file = file } in
      ((sim_host.wait s).1.rounds < n) ⊎ ((sim_host.wait s).1.rounds ≡ 0)
waits_at zero done file = inr refl
waits_at (suc n) done file = inl (omega arith)

propose_at :
    (n : ℕ) (w : World sim)
    → w.outside.rounds ≡ n
    → Returned (propose w).0 × ((propose w).1.outside.rounds ≤ n) × (n ≡ 0 → (propose w).0 ≡ ok tt)
unfolding perform question lift
propose_at zero w e = rw e (tt, omega arith, λ z. refl)
propose_at (suc n) w e = rw e (tt, omega arith, λ z. absurd (omega arith))

sim_patience : Patience propose asked
unfolding perform question lift
sim_patience = record {
  left = λ s. s.rounds;
  waits = λ s. waits_at s.rounds s.done s.file;
  attempt_returns = λ w. (propose_at w.outside.rounds w refl).0;
  attempt_left = λ w. (propose_at w.outside.rounds w refl).1;
  check_returns = λ w. tt;
  check_left = λ w. omega arith;
  accepts = λ w z. (propose_at w.outside.rounds w refl).2 z;
}

retry-Settles_example :
    Settles propose asked error_of_check (retry 2 background propose asked error_of_check fresh).0
unfolding sim_patience
retry-Settles_example =
    retry-Settles propose asked sim_patience error_of_check 2 fresh (omega arith)

-- A chain that refuses every refund.
abbrev refusing : Env
refusing = record {
  State = Sim;
  chain = record sim_chain {
    create_refund_transaction_or_add_sig =
        λ identity hash target amount signature address sequence s. (error (foreign 1), s);
    is_refunded_already = λ hash. answer false;
  };
  stellar = sim_stellar;
  host = sim_host;
}

abbrev refused : World refusing
refused = record {
  outside = record { rounds = 1; done = false; file = none };
  sequence_number = pos 7;
  trace = [];
}

retry-unfinished_example :
    (retry 50 background
      (Calls.create_refund_transaction_or_add_sig refusing 0 stored_hash
        (codes "GC")
        (pos 5)
        (codes "sig")
        (codes "GA")
        8)
      (Calls.is_refunded_already refusing stored_hash)
      error_of_check
      refused).0
    ≡ unfinished
unfolding perform question lift
retry-unfinished_example =
    retry-unfinished
      (Calls.create_refund_transaction_or_add_sig refusing 0 stored_hash (codes "GC") (pos 5)
        (codes "sig") (codes "GA") 8)
      (Calls.is_refunded_already refusing stored_hash) (λ w. (foreign 1, refl)) (λ w. refl) 50
      error_of_check refused
