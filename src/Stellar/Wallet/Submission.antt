-- ===== src/Stellar/Wallet/Submission.antt =====
-- The two functions of tfchain_bridge/pkg/stellar/stellar.go that submit a payment to Stellar.
use tfchain_tft_bridge.Prelude.{
  ◌≤◌, ◌≡◌, refl, ◌∙◌, false, List, [], ◌∷◌, Text, codes, take, length, arith, ltb,
}
use tfchain_tft_bridge.Errors.{Error, Result, value, error, wrap}
use tfchain_tft_bridge.Exec.{
  Outcome, ok, err, crash, unfinished, is_ok, continue, caught, try, raise, ◌>>=◌,
}
use tfchain_tft_bridge.Exec.Rules.{Post, bind_lift_post, if_post}
use tfchain_tft_bridge.Env.{Env}
use tfchain_tft_bridge.Env.Types.{StellarSignature, HorizonClient}
use tfchain_tft_bridge.World.{World, Trace, submit}
use tfchain_tft_bridge.World.Calls
use tfchain_tft_bridge.World.Quiet.{IsQuiet, quiet_rules}
use tfchain_tft_bridge.Substrate.Client.Trace.{Logs, perform-Logs}
use tfchain_tft_bridge.Stellar.Wallet.{
  StellarWallet, reset_account_sequence, add_signatures, after_submit, submit_transaction,
  sign_and_submit,
}
use tfchain_tft_bridge.Stellar.Wallet.Generation.{network_phrase, network_phrase_lem}
use tfchain_tft_bridge.Stellar.Wallet.Effects.{reset_account_sequence-IsQuiet}

-- Either nothing was submitted and the call has failed, or one transaction with the property was,
-- and the call succeeded exactly if the submission did.
pub data Submits (E : Env) (P : E.Tx → Type 0) (old : Trace E.Tx) (o : Outcome Unit)
    (t : Trace E.Tx) : Type 0 where
  nothing : is_ok o ≡ false → t ≡ old → Submits E P old o t
  submitted : (tx : E.Tx) → P tx → t ≡ (submit tx, is_ok o) ∷ old → Submits E P old o t

pub Submits-map :
    {E : Env} {P P' : E.Tx → Type 0} {old : Trace E.Tx} {o : Outcome Unit} {t : Trace E.Tx}
    → ((tx : E.Tx) → P tx → P' tx)
    → Submits E P old o t
    → Submits E P' old o t
Submits-map f (nothing e h) = nothing e h
Submits-map f (submitted tx p h) = submitted tx (f tx p) h

-- `signed` is `tx` with each of the signatures added to it in turn, under its own address.
pub data Carries (E : Env) (passphrase : Text) : List StellarSignature → E.Tx → E.Tx → Type 0 where
  unchanged : {tx : E.Tx} → Carries E passphrase [] tx tx
  with_signature :
      {sig : StellarSignature} {sigs : List StellarSignature} {tx more signed : E.Tx}
      → E.add_signature_base64 passphrase sig.stellar_address sig.signature tx ≡ value more
      → Carries E passphrase sigs more signed
      → Carries E passphrase (sig ∷ sigs) tx signed

add_signatures-Carries :
    {E : Env} (passphrase : Text) (sigs : List StellarSignature) (tx signed : E.Tx)
    → add_signatures E passphrase sigs tx ≡ value signed
    → Carries E passphrase sigs tx signed
unfolding add_signatures
add_signatures-Carries {E} passphrase [] tx signed h =
    let e : tx ≡ signed = cc in rw (← e) unchanged
add_signatures-Carries {E} passphrase (sig ∷ sigs) tx signed h =
    go (E.add_signature_base64 passphrase sig.stellar_address sig.signature tx) refl h
      (λ more. add_signatures-Carries passphrase sigs more signed)
  where
    go :
        (r : Result E.Tx)
        → E.add_signature_base64 passphrase sig.stellar_address sig.signature tx ≡ r
        → elim r [ error e ↦ error e | value more ↦ add_signatures E passphrase sigs more ]
          ≡ value signed
        → ((more : E.Tx)
            → add_signatures E passphrase sigs more ≡ value signed
            → Carries E passphrase sigs more signed)
        → Carries E passphrase (sig ∷ sigs) tx signed
    go (value more) e h rest = with_signature e (rest more h)
    go (error x) e h rest = absurd (ground (arith, h))

module _ {E : Env} (w : StellarWallet E) where
  -- A failed submission is never the success of the call, whatever the reset of the number gives.
  after_submit_failed : (e : Error) (s : World E) → is_ok (after_submit w (error e) s).0 ≡ false
  unfolding after_submit ◌>>=◌
  after_submit_failed e s =
      go (reset_account_sequence w.config s).0 (reset_account_sequence w.config s).1
    where
      go :
          (o : Outcome Unit) (s : World E)
          → is_ok
              (continue o
                (λ _. raise {A = Unit {0}} (wrap e (codes "error submitting transaction")))
                s).0
            ≡ false
      go (ok _) s = refl
      go (err _) s = refl
      go crash s = refl
      go unfinished s = refl

  after_submit-IsQuiet : (e : Error) → IsQuiet (after_submit w (error e))
  unfolding after_submit
  after_submit-IsQuiet e = search (quiet_rules, reset_account_sequence-IsQuiet)

  module _ (P : E.Tx → Type 0) where
    after_submit-Submits :
        (tx : E.Tx) (s : World E)
        → P tx
        → (o : Outcome Text) (s' : World E) → Logs E (submit tx) (is_ok o) s s'
        → Post (continue (caught o) (after_submit w)) s' (λ o t. Submits E P s.trace o t.trace)
    unfolding ◌>>=◌
    after_submit-Submits tx s p (ok hash) s' l = unfold after_submit in submitted tx p l.trace
    after_submit-Submits tx s p (err e) s' l =
        submitted tx p (rw (after_submit_failed e s') ((after_submit-IsQuiet e).at s' ∙ l.trace))
    after_submit-Submits tx s p crash s' l = submitted tx p l.trace
    after_submit-Submits tx s p unfinished s' l = submitted tx p l.trace

    submit_with-Submits :
        (tx : E.Tx) (s : World E)
        → P tx
        → (client : HorizonClient)
        → Post
            (try (Calls.submit_transaction E client tx) >>= after_submit w)
            s
            (λ o t. Submits E P s.trace o t.trace)
    unfolding ◌>>=◌
    submit_with-Submits tx s p client =
        after_submit-Submits tx s p _ _
          (perform-Logs E (submit tx) (E.submit_transaction client tx) s)

    submit_transaction-Submits :
        (tx : E.Tx) (s : World E)
        → P tx
        → Post (submit_transaction w tx) s (λ o t. Submits E P s.trace o t.trace)
    unfolding submit_transaction
    submit_transaction-Submits tx s p =
        bind_lift_post (λ o t. Submits E P s.trace o t.trace) _ _ s
          (λ client _. submit_with-Submits tx s p client) (λ e. nothing refl refl)

  -- The transaction carries the first signatures, as many as the account requires, on top of `tx`.
  abbrev pub IsSigned : List StellarSignature → E.Tx → E.Tx → Type 0
  IsSigned signatures tx signed =
      (w.signature_count ≤ length signatures)
      × Carries E (network_phrase E w.config) (take w.signature_count signatures) tx signed

  pub sign_and_submit-Submits :
      (P : E.Tx → Type 0) (signatures : List StellarSignature) (tx : E.Tx) (s : World E)
      → ((signed : E.Tx) → IsSigned signatures tx signed → P signed)
      → Post (sign_and_submit w signatures tx) s (λ o t. Submits E P s.trace o t.trace)
  unfolding sign_and_submit
  sign_and_submit-Submits P signatures tx s p =
      let Q = λ (o : Outcome Unit) (t : World E). Submits E P s.trace o t.trace in
      if_post Q (ltb (length signatures) w.signature_count) _ _ s
        (λ _. unfold raise in nothing refl refl)
        λ enough.
          bind_lift_post Q _ _ s
            (λ signed e. submit_transaction-Submits P signed s (
              p signed (
                ground arith,
                rw (← network_phrase_lem E w.config) (add_signatures-Carries _ _ tx signed e),
              )))
            (λ e. nothing refl refl)
