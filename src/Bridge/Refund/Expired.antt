-- ===== src/Bridge/Refund/Expired.antt =====
-- Proposing a refund: `handleRefundExpired` and `refund` of tfchain_bridge/pkg/bridge/refund.go.
use tfchain_tft_bridge.Prelude.{
  ℤ, to_int64, to_uint64, ◌≡◌, refl, ◌∙◌, Bool, true, false, ◌∷◌, Text, ℕ, if◌then◌else◌,
}
use tfchain_tft_bridge.Exec.{Outcome, ok, is_ok, pure}
use tfchain_tft_bridge.Exec.Rules.{Post, bind_post, pure_post}
use tfchain_tft_bridge.Env.{Env}
use tfchain_tft_bridge.Env.Types.{Context, Transaction}
use tfchain_tft_bridge.World.{World, Trace, unanswered, is_refunded, create_refund}
use tfchain_tft_bridge.World.Rules.{logged, question_post}
use tfchain_tft_bridge.Persistency.Trace.{Saves, save_stellar_cursor-Saves}
use tfchain_tft_bridge.Substrate.Client.{retry_create_refund_transaction_or_add_sig}
use tfchain_tft_bridge.Substrate.Client.Trace.{Retried}
use tfchain_tft_bridge.Substrate.Client.Settled.{retry_create_refund_transaction_or_add_sig-Retried}
use tfchain_tft_bridge.Substrate.Events.{RefundTransactionExpiredEvent}
use tfchain_tft_bridge.Stellar.Wallet.Signing.{
  IsRefundSignature, Signs, create_refund_and_return_signature-Signs,
}
use tfchain_tft_bridge.Bridge.State.{Bridge}
use tfchain_tft_bridge.Bridge.Refund.{sign_refund, handle_refund_expired, refund}

module _ {E : Env} (fuel : ℕ) (b : Bridge E) (ctx : Context) where
  -- The proposal of the refund, with the signature of the wallet.
  abbrev pub refund_request :
      RefundTransactionExpiredEvent → Text × ℕ → tfchain_tft_bridge.World.Request E.Tx
  refund_request event signed =
      create_refund event.hash event.target (to_int64 event.amount) signed.0
        (E.address b.wallet.keypair) signed.1

  -- Only the question whether it is refunded, and success on a yes and failure without an answer; or,
  -- behind a no, no signature; or the retried proposal of the signature of the wallet.
  pub data ProposesRefund (event : RefundTransactionExpiredEvent) (current : ℤ) (old : Trace E.Tx)
      (o : Outcome Unit) (t : Trace E.Tx) : Type 0 where
    refunded :
        is_ok o ≡ true
        → t ≡ (is_refunded event.hash, true) ∷ old
        → ProposesRefund event current old o t
    no_answer :
        is_ok o ≡ false
        → t ≡ (unanswered (is_refunded event.hash), false) ∷ old
        → ProposesRefund event current old o t
    not_signed :
        is_ok o ≡ false
        → t ≡ (is_refunded event.hash, false) ∷ old
        → ProposesRefund event current old o t
    proposed :
        (signed : Text × ℕ)
        → IsRefundSignature b.wallet event.target event.amount event.hash current signed
        → Retried
            (refund_request event signed)
            (is_refunded event.hash)
            ((is_refunded event.hash, false) ∷ old)
            o
            t
        → ProposesRefund event current old o t

  module _ (event : RefundTransactionExpiredEvent) (s : World E) where
    abbrev Goal : Outcome Unit → World E → Type 0
    Goal o t = ProposesRefund event s.sequence_number s.trace o t.trace

    after_signature :
        (signed : Text × ℕ) (t : World E)
        → IsRefundSignature b.wallet event.target event.amount event.hash s.sequence_number signed
        → t.trace ≡ (is_refunded event.hash, false) ∷ s.trace
        → Post
            (retry_create_refund_transaction_or_add_sig fuel b.sub_client ctx event.hash
              event.target
              (to_int64 event.amount)
              signed.0
              (E.address b.wallet.keypair)
              signed.1)
            t
            Goal
    after_signature signed t h e = proposed signed h (
        rw (← e) (
          retry_create_refund_transaction_or_add_sig-Retried fuel b.sub_client ctx event.hash
            event.target (to_int64 event.amount) signed.0 (E.address b.wallet.keypair) signed.1 t))

    sign_refund_post :
        (t : World E)
        → t.trace ≡ (is_refunded event.hash, false) ∷ s.trace
        → t.sequence_number ≡ s.sequence_number
        → Post (sign_refund fuel b ctx event) t Goal
    unfolding sign_refund
    sign_refund_post t e n =
        let P = IsRefundSignature b.wallet event.target event.amount event.hash t.sequence_number in
        bind_post (Signs b.wallet P t) Goal _ _ t
          (record {
            on_err = λ _ t' same. not_signed refl (same ∙ e);
            on_crash = λ t' same. not_signed refl (same ∙ e);
            on_unfinished = λ t' same. not_signed refl (same ∙ e);
          })
          (λ signed t' h. after_signature signed t' (rw (← n) h.0) (h.2 ∙ e))
          (create_refund_and_return_signature-Signs b.wallet event.target event.amount event.hash t)

    -- What `handleRefundExpired` leaves in the trace behind the question whether the deposit is
    -- refunded: nothing more, with success on a yes and failure without an answer; and behind a no
    -- nothing more and failure, or the retried proposal of the wallet's signature on the payment of the whole
    -- amount to the target, with the hash of the deposit as its memo.
    pub handle_refund_expired-ProposesRefund : Post (handle_refund_expired fuel b ctx event) s Goal
    unfolding handle_refund_expired
    handle_refund_expired-ProposesRefund =
        question_post Goal (is_refunded event.hash) (E.is_refunded_already event.hash) _ s
          (λ refunded _. go refunded) (λ e. no_answer refl refl)
      where
        go :
            (refunded : Bool)
            → Post
                (if refunded then pure tt else sign_refund fuel b ctx event)
                (logged {E = E}
                  (is_refunded event.hash)
                  refunded
                  (E.is_refunded_already event.hash s.outside).1
                  s)
                Goal
        go true = pure_post Goal tt _ (ProposesRefund.refunded refl refl)
        go false = sign_refund_post _ refl refl

  -- A refund that was not settled, and no save; or a settled one, and the save of the cursor.
  pub data Refunds (destination : Text) (amount : ℤ) (tx : Transaction) (current : ℤ)
      (old : Trace E.Tx) (o : Outcome Unit) (t : Trace E.Tx) : Type 0 where
    not_proposed :
        is_ok o ≡ false
        → ProposesRefund
            (record { hash = tx.hash; target = destination; amount = to_uint64 amount })
            current
            old
            o
            t
        → Refunds destination amount tx current old o t
    then_saved :
        (between : Trace E.Tx)
        → ProposesRefund
            (record { hash = tx.hash; target = destination; amount = to_uint64 amount })
            current
            old
            (ok tt)
            between
        → Saves tx.paging_token between o t
        → Refunds destination amount tx current old o t

  -- What `refund` leaves in the trace: that of `handleRefundExpired` for the hash of the
  -- transaction, and, only if that succeeds, the write of the transaction's paging token as the
  -- cursor, which decides whether `refund` succeeds.
  pub refund-Refunds :
      (destination : Text) (amount : ℤ) (tx : Transaction) (s : World E)
      → Post
          (refund fuel b ctx destination amount tx)
          s
          (λ o t. Refunds destination amount tx s.sequence_number s.trace o t.trace)
  unfolding refund
  refund-Refunds destination amount tx s =
      let event : RefundTransactionExpiredEvent = record {
        hash = tx.hash;
        target = destination;
        amount = to_uint64 amount;
      } in
      bind_post (λ o t. ProposesRefund event s.sequence_number s.trace o t.trace)
        (λ o t. Refunds destination amount tx s.sequence_number s.trace o t.trace) _ _ s
        (record {
          on_err = λ _ t h. not_proposed refl h;
          on_crash = λ t h. not_proposed refl h;
          on_unfinished = λ t h. not_proposed refl h;
        })
        (λ _ t h.
          then_saved t.trace h (save_stellar_cursor-Saves b.block_persistency tx.paging_token t))
        (handle_refund_expired-ProposesRefund event s)
