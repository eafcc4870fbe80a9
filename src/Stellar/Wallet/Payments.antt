-- ===== src/Stellar/Wallet/Payments.antt =====
-- What the two functions of tfchain_bridge/pkg/stellar/stellar.go that submit a payment submit.
use tfchain_tft_bridge.Prelude.{ℕ, ℤ, ◌≡◌, refl, ap, false, List, Text, codes}
use tfchain_tft_bridge.Errors.{Error, Result, value, error, wrap_error}
use tfchain_tft_bridge.Exec.{Outcome, err, lift, pure, ◌>>=◌}
use tfchain_tft_bridge.Exec.Rules.{Post, bind_post, bind_lift_post}
use tfchain_tft_bridge.Env.{Env}
use tfchain_tft_bridge.Env.Types.{StellarSignature, TransactionParams, Memo, no_memo}
use tfchain_tft_bridge.World.{World, Action}
use tfchain_tft_bridge.Stellar.Wallet.{
  StellarWallet, parse_memo, create_refund_payment_with_signatures_and_submit, create_transaction,
  sign_and_submit, create_payment_with_signatures_and_submit,
}
use tfchain_tft_bridge.Stellar.Wallet.Submission.{
  Submits, nothing, IsSigned, sign_and_submit-Submits,
}
use tfchain_tft_bridge.Stellar.Wallet.Generation.{
  IsReturnMemo, parse_memo-IsReturnMemo, IsPayment, number_for, Generates,
  generate_payment_operation-Generates,
}

module _ {E : Env} (w : StellarWallet E) where
  -- What may be submitted: a payment with the required signatures.
  abbrev pub IsSignedPayment : Text → ℕ → ℤ → Memo → List StellarSignature → E.Tx → Type 0
  IsSignedPayment target amount sequence memo signatures signed =
      (params : TransactionParams) × (tx : E.Tx) × IsPayment w target amount sequence memo params
      × (E.new_transaction params ≡ value tx)
      × IsSigned w signatures tx signed

  -- The same for a refund: the memo is the decoded hash.
  abbrev pub IsSignedRefund : Text → ℕ → ℤ → Text → List StellarSignature → E.Tx → Type 0
  IsSignedRefund target amount sequence hash signatures signed =
      (memo : Memo) × IsReturnMemo hash memo
      × IsSignedPayment target amount sequence memo signatures signed

  -- A transaction that is not signed here.
  unsigned_post :
      {B : Type 0} (Q : Outcome B → World E → Type 0) (params : TransactionParams)
      (k : E.Tx → Action E B) (s : World E)
      → ((tx : E.Tx) → E.new_transaction params ≡ value tx → Post (k tx) s Q)
      → ((e : Error) → Q (err e) s)
      → Post (create_transaction w params false >>= k) s Q
  unfolding create_transaction ◌>>=◌
  unsigned_post Q params k s on_tx on_error = go (E.new_transaction params) on_tx
    where
      go :
          (r : Result E.Tx)
          → ((tx : E.Tx) → r ≡ value tx → Post (k tx) s Q)
          → Post
              (lift (wrap_error (codes "failed to build transaction") r) >>= (λ tx. pure tx) >>= k)
              s
              Q
      go (value tx) on_tx = on_tx tx refl
      go (error e) on_tx = on_error _

  submit_generated :
      (P : E.Tx → Type 0) (target : Text) (amount : ℕ) (sequence : ℤ) (memo : Memo)
      (signatures : List StellarSignature) (params : TransactionParams) (s t : World E)
      → ((signed : E.Tx) → IsSignedPayment target amount sequence memo signatures signed → P signed)
      → IsPayment w target amount sequence memo params
      → t.trace ≡ s.trace
      → Post
          (create_transaction w params false >>= sign_and_submit w signatures)
          t
          (λ o t'. Submits E P s.trace o t'.trace)
  submit_generated P target amount sequence memo signatures params s t use_it payment same =
      rw (← same) (
        unsigned_post (λ o t'. Submits E P t.trace o t'.trace) params (sign_and_submit w signatures)
          t
          (λ tx built.
            sign_and_submit-Submits w P signatures tx t
              (λ signed is_signed. use_it signed (params, tx, payment, built, is_signed)))
          (λ e. nothing refl refl))

  -- `CreatePaymentWithSignaturesAndSubmit` submits one transaction at most. If it does, that is the
  -- payment of the amount to the target at the given sequence number (the wallet's next one for
  -- zero), it carries the first signatures of the list, as many as the account requires, and there
  -- are that many; and the call succeeds exactly if the submission does.
  pub create_payment_with_signatures_and_submit-Submits :
      (target : Text) (amount : ℕ) (signatures : List StellarSignature) (n : ℤ) (s : World E)
      → Post (create_payment_with_signatures_and_submit w target amount signatures n) s (λ o t.
        Submits E
          (IsSignedPayment target amount (number_for n s.sequence_number) no_memo signatures)
          s.trace
          o
          t.trace)
  unfolding create_payment_with_signatures_and_submit
  create_payment_with_signatures_and_submit-Submits target amount signatures n s =
      let P = IsSignedPayment target amount (number_for n s.sequence_number) no_memo signatures in
      bind_post (Generates w amount target n s) (λ o t. Submits E P s.trace o t.trace) _ _ s
        (record {
          on_err = λ e t same. nothing refl same.trace;
          on_crash = λ t h. absurd h;
          on_unfinished = λ t h. absurd h;
        })
        (λ params t h.
          submit_generated P target amount _ no_memo signatures params s t (λ _ p. p) h.1 h.3)
        (generate_payment_operation-Generates w amount target n s)

  pub with_memo :
      (memo : Memo) (target : Text) (amount : ℕ) (sequence : ℤ) (params : TransactionParams)
      → IsPayment w target amount sequence no_memo params
      → IsPayment w target amount sequence memo (record params { memo = memo })
  with_memo memo target amount sequence params (source, e) =
      (source, ap (λ (p : TransactionParams). record p { memo = memo }) e)

  -- `CreateRefundPaymentWithSignaturesAndSubmit` submits one transaction at most. If it does, that is
  -- the payment of the amount to the target at the given sequence number (the wallet's next one for
  -- zero), the hash of the deposit decodes and is its memo, it carries the first signatures of the
  -- list, as many as the account requires, and there are that many; and the call succeeds exactly if
  -- the submission does.
  pub create_refund_payment_with_signatures_and_submit-Submits :
      (target : Text) (amount : ℕ) (hash : Text) (signatures : List StellarSignature) (n : ℤ)
      (s : World E)
      → Post
          (create_refund_payment_with_signatures_and_submit w target amount hash signatures n)
          s
          (λ o t.
            Submits E
              (IsSignedRefund target amount (number_for n s.sequence_number) hash signatures)
              s.trace
              o
              t.trace)
  unfolding create_refund_payment_with_signatures_and_submit
  create_refund_payment_with_signatures_and_submit-Submits target amount hash signatures n s =
      let P = IsSignedRefund target amount (number_for n s.sequence_number) hash signatures in
      let Q = λ (o : Outcome Unit) (t : World E). Submits E P s.trace o t.trace in
      bind_post (Generates w amount target n s) Q _ _ s
        (record {
          on_err = λ e t same. nothing refl same.trace;
          on_crash = λ t h. absurd h;
          on_unfinished = λ t h. absurd h;
        })
        (λ params t h.
          bind_lift_post Q (parse_memo hash) _ t
            (λ memo e.
              submit_generated P target amount _ memo signatures (record params { memo = memo }) s t
                (λ signed p. (memo, parse_memo-IsReturnMemo hash memo e, p))
                (with_memo memo target amount _ params h.1) h.3)
            (λ e. nothing refl h.3))
        (generate_payment_operation-Generates w amount target n s)
