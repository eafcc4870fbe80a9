-- ===== src/Bridge/Start/Deposits.antt =====
-- `mint` and the handlers of refunds of tfchain_bridge/pkg/bridge keep the protocol.
use tfchain_tft_bridge.Prelude.{ℕ, ℤ, to_int64, false, refl, ◌∷◌, Text}
use tfchain_tft_bridge.Exec.{Outcome, ok}
use tfchain_tft_bridge.Env.{Env}
use tfchain_tft_bridge.Env.Types.{Context, Transaction, background}
use tfchain_tft_bridge.World.{World, Trace, is_minted, is_refunded, set_refund_executed}
use tfchain_tft_bridge.Persistency.Trace.{Saves, not_saved, saved}
use tfchain_tft_bridge.Substrate.Events.{RefundTransactionExpiredEvent, RefundTransactionReadyEvent}
use tfchain_tft_bridge.Stellar.Deposits.{Senders}
use tfchain_tft_bridge.Bridge.State.{Bridge}
use tfchain_tft_bridge.Bridge.Paid.{Pays, not_paid, rejected, paid}
use tfchain_tft_bridge.Bridge.Refund.{handle_refund_expired, handle_refund_ready}
use tfchain_tft_bridge.Bridge.Refund.Expired.{
  ProposesRefund, Refunds, refund_request, handle_refund_expired-ProposesRefund,
}
use tfchain_tft_bridge.Bridge.Refund.Ready.{HandlesReady, handle_refund_ready-HandlesReady}
use tfchain_tft_bridge.Bridge.Mint.{mint}
use tfchain_tft_bridge.Bridge.Mint.Trace.{Deposits, Mints, mint-Mints}
use tfchain_tft_bridge.Bridge.Start.Allowed.{
  MaySave, MaySubmit, IsSafe, IsSafe-Tries, IsSafe-IsSettled, IsSafe-Retried,
}

module _ {E : Env} (expired : ℕ → Type 0) (fuel : ℕ) (b : Bridge E) (ctx : Context) where
  IsSafe-Saves :
      (cursor : Text) (old : Trace E.Tx) (o : Outcome Unit) (t : Trace E.Tx)
      → MaySave expired old
      → IsSafe expired old
      → Saves cursor old o t
      → IsSafe expired t
  IsSafe-Saves cursor old o t may safe (not_saved _ e) = rw e safe
  IsSafe-Saves cursor old o t may safe (saved _ _ e) = rw e (may, safe)

  IsSafe-ProposesRefund :
      (event : RefundTransactionExpiredEvent) (current : ℤ) (old : Trace E.Tx) (o : Outcome Unit)
      (t : Trace E.Tx)
      → IsSafe expired old
      → ProposesRefund fuel b ctx event current old o t
      → IsSafe expired t
  IsSafe-ProposesRefund event current old o t safe (ProposesRefund.refunded _ e) = rw e (tt, safe)
  IsSafe-ProposesRefund event current old o t safe (ProposesRefund.no_answer _ e) = rw e (tt, safe)
  IsSafe-ProposesRefund event current old o t safe (ProposesRefund.not_signed _ e) = rw e (tt, safe)
  IsSafe-ProposesRefund event current old o t safe (ProposesRefund.proposed signed _ r) =
      IsSafe-Retried expired (refund_request fuel b ctx event signed) (is_refunded event.hash) _
        (λ t r. (old, r)) (λ t. tt) o t r (tt, safe)

  -- A refund that is proposed or done lets the cursor be saved.
  MaySave-ProposesRefund :
      (event : RefundTransactionExpiredEvent) (current : ℤ) (old t : Trace E.Tx)
      → ProposesRefund fuel b ctx event current old (ok tt) t
      → MaySave expired t
  MaySave-ProposesRefund event current old t (ProposesRefund.refunded _ e) =
      MaySave.refunded event.hash old t e
  MaySave-ProposesRefund event current old t (ProposesRefund.no_answer e _) = cc
  MaySave-ProposesRefund event current old t (ProposesRefund.not_signed e _) = cc
  MaySave-ProposesRefund event current old t (ProposesRefund.proposed signed _ r) =
      MaySave.proposed event.hash event.target (to_int64 event.amount) signed.0 _ signed.1 old t r

  pub handle_refund_expired-IsSafe :
      (event : RefundTransactionExpiredEvent) (s : World E)
      → IsSafe expired s.trace
      → IsSafe expired (handle_refund_expired fuel b ctx event s).1.trace
  handle_refund_expired-IsSafe event s safe =
      IsSafe-ProposesRefund event s.sequence_number s.trace _ _ safe
        (handle_refund_expired-ProposesRefund fuel b ctx event s)

  IsSafe-Refunds :
      (destination : Text) (amount : ℤ) (tx : Transaction) (current : ℤ) (old : Trace E.Tx)
      (o : Outcome Unit) (t : Trace E.Tx)
      → IsSafe expired old
      → Refunds fuel b ctx destination amount tx current old o t
      → IsSafe expired t
  IsSafe-Refunds destination amount tx current old o t safe (Refunds.not_proposed _ p) =
      IsSafe-ProposesRefund _ current old o t safe p
  IsSafe-Refunds destination amount tx current old o t safe (Refunds.then_saved between p s) =
      IsSafe-Saves tx.paging_token between o t (MaySave-ProposesRefund _ current old between p)
        (IsSafe-ProposesRefund _ current old (ok tt) between safe p) s

  IsSafe-Deposits :
      (tx : Transaction) (address : Text) (amount : ℤ) (old : Trace E.Tx) (o : Outcome Unit)
      (t : Trace E.Tx)
      → IsSafe expired old
      → Deposits fuel b ctx tx address amount ((is_minted tx.hash, false) ∷ old) o t
      → IsSafe expired t
  IsSafe-Deposits tx address amount old o t safe (Deposits.no_account _ e) = rw e (tt, safe)
  IsSafe-Deposits tx address amount old o t safe (Deposits.not_minted account _ _ r) =
      IsSafe-Tries expired _ _ _ (λ t r. (old, r)) (λ t. tt) r (tt, safe)
  IsSafe-Deposits tx address amount old o t safe (Deposits.minted account between _ settled s) =
      IsSafe-Saves tx.paging_token between o t
        (MaySave.minted tx.hash account amount old between settled)
        (IsSafe-IsSettled expired _ _ _ (λ t r. (old, r)) (λ t. tt) settled (tt, safe)) s

module _ {E : Env} (expired : ℕ → Type 0) (fuel : ℕ) (b : Bridge E) (ctx : Context) where
  IsSafe-Mints :
      (tx : Transaction) (senders : Senders) (current : ℤ) (old : Trace E.Tx) (o : Outcome Unit)
      (t : Trace E.Tx)
      → IsSafe expired old
      → Mints fuel b ctx tx senders current old o t
      → IsSafe expired t
  IsSafe-Mints tx senders current old o t safe (Mints.was_minted _ e) = rw e (tt, safe)
  IsSafe-Mints tx senders current old o t safe (Mints.no_answer _ e) = rw e (tt, safe)
  IsSafe-Mints tx senders current old o t safe (Mints.no_sender _ _ e) = rw e (tt, safe)
  IsSafe-Mints tx senders current old o t safe (Mints.refunded sender amount others _ _ r) =
      IsSafe-Refunds expired fuel b background sender _ tx current _ o t (tt, safe) r
  IsSafe-Mints tx senders current old o t safe (Mints.returned _ s) =
      IsSafe-Saves expired fuel b ctx tx.paging_token _ o t (MaySave.returned tx.hash old _ refl)
        (tt, safe) s
  IsSafe-Mints tx senders current old o t safe (Mints.deposited sender amount address _ _ _ d) =
      IsSafe-Deposits expired fuel b ctx tx address amount old o t safe d

  pub mint-IsSafe :
      (tx : Transaction) (senders : Senders) (s : World E)
      → IsSafe expired s.trace
      → IsSafe expired (mint fuel b ctx tx senders s).1.trace
  mint-IsSafe tx senders s safe =
      IsSafe-Mints tx senders s.sequence_number s.trace _ _ safe
        (mint-Mints fuel b ctx tx senders s)

  IsSafe-Pays :
      (asked hash : Text) (P : E.Tx → Type 0) (old : Trace E.Tx) (o : Outcome Unit) (t : Trace E.Tx)
      → IsSafe expired old
      → Pays (set_refund_executed hash) (is_refunded hash) P ((is_refunded asked, false) ∷ old) o t
      → IsSafe expired t
  IsSafe-Pays asked hash P old o t safe (not_paid _ e) = rw e (tt, safe)
  IsSafe-Pays asked hash P old o t safe (rejected tx _ _ e) =
      rw e (MaySubmit.not_refunded asked old refl, (tt, safe))
  IsSafe-Pays asked hash P old o t safe (paid tx _ r) =
      IsSafe-Retried expired (set_refund_executed hash) (is_refunded hash) _
        (λ t r. (tx, asked, old, r)) (λ t. tt) o t r
        (MaySubmit.not_refunded asked old refl, (tt, safe))

  IsSafe-HandlesReady :
      (hash : Text) (s : World E) (o : Outcome Unit) (t : World E)
      → IsSafe expired s.trace
      → HandlesReady fuel b ctx hash s o t
      → IsSafe expired t.trace
  IsSafe-HandlesReady hash s o t safe (HandlesReady.refunded _ e) = rw e (tt, safe)
  IsSafe-HandlesReady hash s o t safe (HandlesReady.no_answer _ e) = rw e (tt, safe)
  IsSafe-HandlesReady hash s o t safe (HandlesReady.not_found _ _ _ e) = rw e (tt, safe)
  IsSafe-HandlesReady hash s o t safe (HandlesReady.found refund _ p) =
      IsSafe-Pays hash refund.tx_hash _ s.trace o t.trace safe p

  pub handle_refund_ready-IsSafe :
      (event : RefundTransactionReadyEvent) (s : World E)
      → IsSafe expired s.trace
      → IsSafe expired (handle_refund_ready fuel b ctx event s).1.trace
  handle_refund_ready-IsSafe event s safe =
      IsSafe-HandlesReady event.hash s _ _ safe
        (handle_refund_ready-HandlesReady fuel b ctx event s)
