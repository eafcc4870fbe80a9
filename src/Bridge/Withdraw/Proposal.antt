-- ===== src/Bridge/Withdraw/Proposal.antt =====
-- The signature and the proposal that end the handlers of created and of expired withdrawals in
-- tfchain_bridge/pkg/bridge/withdraw.go.
use tfchain_tft_bridge.Prelude.{ℕ, ℤ, to_int64, ◌≡◌, refl, subst, false, Text}
use tfchain_tft_bridge.Exec.{Outcome, is_ok}
use tfchain_tft_bridge.Exec.Rules.{Post, bind_post}
use tfchain_tft_bridge.Env.{Env}
use tfchain_tft_bridge.Env.Types.{Context, no_memo}
use tfchain_tft_bridge.World.{World, Trace, is_burned, propose_burn}
use tfchain_tft_bridge.Substrate.Client.{retry_propose_withdraw_or_add_sig}
use tfchain_tft_bridge.Substrate.Client.Trace.{Retried}
use tfchain_tft_bridge.Substrate.Client.Settled.{retry_propose_withdraw_or_add_sig-Retried}
use tfchain_tft_bridge.Stellar.Wallet.Signing.{
  IsSignature, Signs, create_payment_and_return_signature-Signs,
}
use tfchain_tft_bridge.Bridge.State.{Bridge}
use tfchain_tft_bridge.Bridge.Withdraw.{sign_withdraw}

module _ {E : Env} (fuel : ℕ) (b : Bridge E) (ctx : Context) where
  -- No signature and nothing more in the trace; or the signature of the wallet on the payment of
  -- the amount to the target, and the retried call that proposes it.
  pub data Proposes (id : ℕ) (target : Text) (amount : ℕ) (current : ℤ) (old : Trace E.Tx)
      (o : Outcome Unit) (t : Trace E.Tx) : Type 0 where
    not_signed : is_ok o ≡ false → t ≡ old → Proposes id target amount current old o t
    proposed :
        (signed : Text × ℕ)
        → IsSignature b.wallet target amount no_memo current signed
        → Retried
            (propose_burn id target
              (to_int64 amount)
              signed.0
              (E.address b.wallet.keypair)
              signed.1)
            (is_burned id)
            old
            o
            t
        → Proposes id target amount current old o t

  pub sign_withdraw-Proposes :
      (id : ℕ) (target : Text) (amount : ℕ) (s : World E)
      → Post
          (sign_withdraw fuel b ctx id target amount)
          s
          (λ o t. Proposes id target amount s.sequence_number s.trace o t.trace)
  unfolding sign_withdraw
  sign_withdraw-Proposes id target amount s =
      let P = IsSignature b.wallet target amount no_memo s.sequence_number in
      bind_post (Signs b.wallet P s)
        (λ o t. Proposes id target amount s.sequence_number s.trace o t.trace) _ _ s
        (record {
          on_err = λ e t same. not_signed refl same;
          on_crash = λ t same. not_signed refl same;
          on_unfinished = λ t same. not_signed refl same;
        })
        (λ signed t h. after_signature signed t h.0 h.2)
        (create_payment_and_return_signature-Signs b.wallet target amount s)
    where
      after_signature :
          (signed : Text × ℕ) (t : World E)
          → IsSignature b.wallet target amount no_memo s.sequence_number signed
          → t.trace ≡ s.trace
          → Post
              (retry_propose_withdraw_or_add_sig fuel b.sub_client ctx id target
                (to_int64 amount)
                signed.0
                (E.address b.wallet.keypair)
                signed.1)
              t
              (λ o t'. Proposes id target amount s.sequence_number s.trace o t'.trace)
      after_signature signed t h same =
          let address = E.address b.wallet.keypair in
          let done =
            retry_propose_withdraw_or_add_sig fuel b.sub_client ctx id target (to_int64 amount)
              signed.0 address signed.1 t in
          proposed signed h (
            subst
              (λ (l : Trace E.Tx).
                Retried {Tx = E.Tx}
                  (propose_burn id target (to_int64 amount) signed.0 address signed.1)
                  (is_burned id) l done.0 done.1.trace)
              same
              (retry_propose_withdraw_or_add_sig-Retried fuel b.sub_client ctx id target
                (to_int64 amount) signed.0 address signed.1 t))
