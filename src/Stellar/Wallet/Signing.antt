-- ===== src/Stellar/Wallet/Signing.antt =====
-- What the two functions of tfchain_bridge/pkg/stellar/stellar.go that return a signature sign.
use tfchain_tft_bridge.Prelude.{
  ℕ, ℤ, pos, ◌+ℤ◌, low_int64, to_uint64, ◌≡◌, refl, true, List, [], ◌∷◌, Text, Bytes, codes,
}
use tfchain_tft_bridge.Errors.{Error, Result, value, error, wrap_error}
use tfchain_tft_bridge.Exec.{Outcome, ok, err, lift, ◌>>=◌}
use tfchain_tft_bridge.Exec.Rules.{Post, bind_post, bind_lift_post}
use tfchain_tft_bridge.Env.{Env}
use tfchain_tft_bridge.Env.Types.{TransactionParams, Memo, no_memo}
use tfchain_tft_bridge.World.{World, Action}
use tfchain_tft_bridge.Go.Base64.{base64_encode}
use tfchain_tft_bridge.Stellar.Network.{get_network_pass_phrase}
use tfchain_tft_bridge.Stellar.Wallet.{
  StellarWallet, parse_memo, create_transaction, signature_and_sequence,
  create_payment_and_return_signature, create_refund_and_return_signature,
}
use tfchain_tft_bridge.Stellar.Wallet.Generation.{
  IsReturnMemo, parse_memo-IsReturnMemo, network_phrase, network_phrase_lem, IsPayment, Generates,
  generate_payment_operation-Generates,
}
use tfchain_tft_bridge.Stellar.Wallet.Payments.{with_memo}

module _ {E : Env} (w : StellarWallet E) where
  -- The signature of the wallet on that payment, at the next number of the wallet.
  pub record IsSignature (target : Text) (amount : ℕ) (memo : Memo) (current : ℤ)
      (signed : Text × ℕ) : Type 0 where
    pub params : TransactionParams
    pub built : E.Tx
    pub tx : E.Tx
    pub raw : Bytes
    pub more : List Bytes
    pub is_payment : IsPayment w target amount (low_int64 (current +ℤ pos 1)) memo params
    pub is_built : E.new_transaction params ≡ value built
    pub is_signed : E.sign (network_phrase E w.config) w.keypair built ≡ value tx
    pub is_first : E.signatures tx ≡ raw ∷ more
    pub is_printed : signed.0 ≡ base64_encode raw
    pub is_numbered : signed.1 ≡ to_uint64 (E.sequence_number tx)

  -- A signature, and the wallet keeps the number; or a failure. The trace stays as it was.
  abbrev pub Signs : (Text × ℕ → Type 0) → World E → Outcome (Text × ℕ) → World E → Type 0
  Signs P s (ok signed) t =
      P signed × (t.sequence_number ≡ low_int64 (s.sequence_number +ℤ pos 1)) × (t.trace ≡ s.trace)
  Signs P s _ t = t.trace ≡ s.trace

  signed_post :
      {B : Type 0} (Q : Outcome B → World E → Type 0) (params : TransactionParams)
      (k : E.Tx → Action E B) (s : World E)
      → ((built tx : E.Tx)
          → E.new_transaction params ≡ value built
          → E.sign (get_network_pass_phrase E w.config) w.keypair built ≡ value tx
          → Post (k tx) s Q)
      → ((e : Error) → Q (err e) s)
      → Post (create_transaction w params true >>= k) s Q
  unfolding create_transaction ◌>>=◌
  signed_post Q params k s on_tx on_error = go (E.new_transaction params) on_tx
    where
      sign_it :
          (built : E.Tx) (r : Result E.Tx)
          → ((tx : E.Tx) → r ≡ value tx → Post (k tx) s Q)
          → Post (lift (wrap_error (codes "failed to sign transaction with keypair") r) >>= k) s Q
      sign_it built (value tx) on_tx = on_tx tx refl
      sign_it built (error e) on_tx = on_error _

      go :
          (r : Result E.Tx)
          → ((built tx : E.Tx)
              → r ≡ value built
              → E.sign (get_network_pass_phrase E w.config) w.keypair built ≡ value tx
              → Post (k tx) s Q)
          → Post
              (lift (wrap_error (codes "failed to build transaction") r)
                >>= (λ tx. lift (
                    wrap_error
                      (codes "failed to sign transaction with keypair")
                      (E.sign (get_network_pass_phrase E w.config) w.keypair tx)))
                >>= k)
              s
              Q
      go (value built) on_tx = sign_it built _ (λ tx. on_tx built tx refl)
      go (error e) on_tx = on_error _

  sign_generated :
      (P : Text × ℕ → Type 0) (target : Text) (amount : ℕ) (memo : Memo)
      (params : TransactionParams) (s t : World E)
      → ((signed : Text × ℕ) → IsSignature target amount memo s.sequence_number signed → P signed)
      → IsPayment w target amount (low_int64 (s.sequence_number +ℤ pos 1)) memo params
      → t.sequence_number ≡ low_int64 (s.sequence_number +ℤ pos 1)
      → t.trace ≡ s.trace
      → Post (create_transaction w params true >>= signature_and_sequence w) t (Signs P s)
  unfolding signature_and_sequence ◌>>=◌
  sign_generated P target amount memo params s t use_it payment number same =
      signed_post (Signs P s) params (signature_and_sequence w) t
        (λ built tx is_built is_signed. go built tx is_built is_signed (E.signatures tx) refl)
        (λ e. same)
    where
      go :
          (built tx : E.Tx)
          → E.new_transaction params ≡ value built
          → E.sign (get_network_pass_phrase E w.config) w.keypair built ≡ value tx
          → (sigs : List Bytes) → E.signatures tx ≡ sigs
          → Post (signature_and_sequence w tx) t (Signs P s)
      go built tx is_built is_signed [] e = rw (e, signature_and_sequence) same
      go built tx is_built is_signed (raw ∷ more) e =
          rw (e, signature_and_sequence)
            (
              use_it _ (record {
                params = params;
                built = built;
                tx = tx;
                raw = raw;
                more = more;
                is_payment = payment;
                is_built = is_built;
                is_signed = rw (← network_phrase_lem E w.config) is_signed;
                is_first = e;
                is_printed = refl;
                is_numbered = refl;
              }),
              number,
              same,
            )

  -- `CreatePaymentAndReturnSignature` returns the wallet's signature on the payment of the amount to
  -- the target at the wallet's next sequence number, which the wallet keeps, with the number of the
  -- signed transaction. It leaves nothing in the trace.
  pub create_payment_and_return_signature-Signs :
      (target : Text) (amount : ℕ) (s : World E)
      → Post
          (create_payment_and_return_signature w target amount)
          s
          (Signs (IsSignature target amount no_memo s.sequence_number) s)
  unfolding create_payment_and_return_signature
  create_payment_and_return_signature-Signs target amount s =
      let P = IsSignature target amount no_memo s.sequence_number in
      bind_post (Generates w amount target (pos 0) s) (Signs P s) _ _ s
        (record {
          on_err = λ e t same. same.trace;
          on_crash = λ t h. absurd h;
          on_unfinished = λ t h. absurd h;
        })
        (λ params t h. sign_generated P target amount no_memo params s t (λ _ p. p) h.1 h.2 h.3)
        (generate_payment_operation-Generates w amount target (pos 0) s)

  -- The memo of a refund is the decoded hash of the deposit.
  abbrev pub IsRefundSignature : Text → ℕ → Text → ℤ → Text × ℕ → Type 0
  IsRefundSignature target amount hash current signed =
      (memo : Memo) × IsReturnMemo hash memo × IsSignature target amount memo current signed

  -- `CreateRefundAndReturnSignature` returns the wallet's signature on the payment of the amount to
  -- the target, with the decoded hash of the deposit as its memo, at the wallet's next sequence
  -- number, which the wallet keeps, with the number of the signed transaction. It leaves nothing in
  -- the trace, also when it fails.
  pub create_refund_and_return_signature-Signs :
      (target : Text) (amount : ℕ) (hash : Text) (s : World E)
      → Post
          (create_refund_and_return_signature w target amount hash)
          s
          (Signs (IsRefundSignature target amount hash s.sequence_number) s)
  unfolding create_refund_and_return_signature
  create_refund_and_return_signature-Signs target amount hash s =
      let P = IsRefundSignature target amount hash s.sequence_number in
      bind_post (Generates w amount target (pos 0) s) (Signs P s) _ _ s
        (record {
          on_err = λ e t same. same.trace;
          on_crash = λ t h. absurd h;
          on_unfinished = λ t h. absurd h;
        })
        (λ params t h.
          bind_lift_post (Signs P s) (parse_memo hash) _ t
            (λ memo e.
              sign_generated P target amount memo (record params { memo = memo }) s t
                (λ _ p. (memo, parse_memo-IsReturnMemo hash memo e, p))
                (with_memo w memo target amount _ params h.1) h.2 h.3)
            (λ e. h.3))
        (generate_payment_operation-Generates w amount target (pos 0) s)
