-- ===== src/Bridge/Mint/Trace.antt =====
-- What `mint` of tfchain_bridge/pkg/bridge/mint.go does with a deposit.
use tfchain_tft_bridge.Prelude.{
  ℕ, ℤ, low_int64, leb_ℤ, ◌≡◌, ◌≢◌, refl, ◌∙◌, Bool, true, false, [], ◌∷◌, Text, codes, text_eq,
  text_eq_iff, if◌then◌else◌,
}
use tfchain_tft_bridge.Errors.{Error, sentinel, transaction_already_minted, Result, value, error}
use tfchain_tft_bridge.Exec.{Outcome, ok, is_ok, caught, raise}
use tfchain_tft_bridge.Exec.Rules.{Post, bind_post, bind_lift_post, if_post, raise_post, pure_post}
use tfchain_tft_bridge.Env.{Env}
use tfchain_tft_bridge.Env.Types.{AccountId, Context, background, Transaction}
use tfchain_tft_bridge.World.{World, Trace, unanswered, is_minted, propose_mint}
use tfchain_tft_bridge.World.Calm.{calm_try_post}
use tfchain_tft_bridge.Persistency.Trace.{Saves, save_stellar_cursor-Saves}
use tfchain_tft_bridge.Substrate.Client.Trace.{Tries, IsSettled, Retried, Asks}
use tfchain_tft_bridge.Substrate.Client.Settled.{
  check_minted-Asks, retry_propose_mint_or_vote-Retried,
}
use tfchain_tft_bridge.Bridge.State.{Bridge}
use tfchain_tft_bridge.Bridge.Memo.{get_substrate_address_from_memo}
use tfchain_tft_bridge.Bridge.Memo.Calm.{get_substrate_address_from_memo-IsCalm}
use tfchain_tft_bridge.Bridge.Refund.{refund}
use tfchain_tft_bridge.Bridge.Refund.Expired.{Refunds, refund-Refunds}
use tfchain_tft_bridge.Stellar.Deposits.{Senders}
use tfchain_tft_bridge.Bridge.Mint.{mint_to, mint_on_address, mint_deposit, mint_senders, mint}

module _ {E : Env} (fuel : ℕ) (b : Bridge E) (ctx : Context) (tx : Transaction) where
  -- The traces of a deposit that goes to an account: no proposal was accepted; or one was, and the
  -- cursor is saved behind it.
  pub data Deposits (address : Text) (amount : ℤ) (old : Trace E.Tx) (o : Outcome Unit)
      (t : Trace E.Tx) : Type 0 where
    no_account : is_ok o ≡ false → t ≡ old → Deposits address amount old o t
    not_minted :
        (account : AccountId)
        → E.from_address address ≡ value account
        → is_ok o ≡ false
        → Tries (propose_mint tx.hash account amount) (is_minted tx.hash) old t
        → Deposits address amount old o t
    minted :
        (account : AccountId) (between : Trace E.Tx)
        → E.from_address address ≡ value account
        → IsSettled (propose_mint tx.hash account amount) (is_minted tx.hash) old between
        → Saves tx.paging_token between o t
        → Deposits address amount old o t

  -- The memo was resolved to a result, at some moment behind the question.
  abbrev pub ResolvesTo : Outcome (Result Text) → Trace E.Tx → Type 0
  ResolvesTo r now =
      (s : World E) × (s.trace ≡ now)
      × (caught (get_substrate_address_from_memo {E = E} tx.memo s).0 ≡ r)

  -- Why a deposit is refunded.
  pub data Reason (amount : ℤ) (others : Senders) (now : Trace E.Tx) : Type 0 where
    several_senders : others ≢ [] → Reason amount others now
    empty_memo : tx.memo ≡ [] → Reason amount others now
    not_above_fee : leb_ℤ amount b.deposit_fee ≡ true → Reason amount others now
    bad_memo : (e : Error) → ResolvesTo (ok (error e)) now → Reason amount others now

  -- What the question whether the transaction is minted decides, and then the senders.
  pub data Mints (senders : Senders) (current : ℤ) (old : Trace E.Tx) (o : Outcome Unit)
      (t : Trace E.Tx) : Type 0 where
    was_minted :
        is_ok o ≡ false → t ≡ (is_minted tx.hash, true) ∷ old → Mints senders current old o t
    no_answer :
        is_ok o ≡ false
        → t ≡ (unanswered (is_minted tx.hash), false) ∷ old
        → Mints senders current old o t
    no_sender :
        senders ≡ []
        → o ≡ ok tt
        → t ≡ (is_minted tx.hash, false) ∷ old
        → Mints senders current old o t
    refunded :
        (sender : Text) (amount : ℤ) (others : Senders)
        → senders ≡ (sender, amount) ∷ others
        → Reason amount others ((is_minted tx.hash, false) ∷ old)
        → Refunds fuel b background sender
            (low_int64 amount)
            tx
            current
            ((is_minted tx.hash, false) ∷ old)
            o
            t
        → Mints senders current old o t
    returned :
        tx.memo_type ≡ codes "return"
        → Saves tx.paging_token ((is_minted tx.hash, false) ∷ old) o t
        → Mints senders current old o t
    deposited :
        (sender : Text) (amount : ℤ) (address : Text)
        → senders ≡ (sender, amount) ∷ []
        → leb_ℤ amount b.deposit_fee ≡ false
        → ResolvesTo (ok (value address)) ((is_minted tx.hash, false) ∷ old)
        → Deposits address amount ((is_minted tx.hash, false) ∷ old) o t
        → Mints senders current old o t

  mint_to-Deposits :
      (address : Text) (amount : ℤ) (s t : World E)
      → t.trace ≡ s.trace
      → Post
          (mint_to fuel b ctx tx address amount)
          t
          (λ o t'. Deposits address amount s.trace o t'.trace)
  unfolding mint_to
  mint_to-Deposits address amount s t same =
      let Q = λ (o : Outcome Unit) (t' : World E). Deposits address amount s.trace o t'.trace in
      bind_lift_post Q (E.from_address address) _ t
        (λ account e.
          bind_post
            (λ o t'.
              Retried {Tx = E.Tx} (propose_mint tx.hash account amount) (is_minted tx.hash) s.trace
                o t'.trace)
            Q _ _ t
            (record {
              on_err = λ _ t' h. not_minted account e refl h;
              on_crash = λ t' h. not_minted account e refl h;
              on_unfinished = λ t' h. not_minted account e refl h;
            })
            (λ _ t' h.
              minted account t'.trace e h
                (save_stellar_cursor-Saves b.block_persistency tx.paging_token t'))
            (rw (← same)
              (retry_propose_mint_or_vote-Retried fuel b.sub_client ctx tx.hash account amount t)))
        (λ e. no_account refl same)

  -- What is left to do with a deposit, seen from the start of `mint`.
  module _ (senders : Senders) (s : World E) where
    abbrev Goal : Outcome Unit → World E → Type 0
    Goal o t = Mints senders s.sequence_number s.trace o t.trace

    abbrev Behind : World E → Type 0
    Behind t =
        (t.trace ≡ (is_minted tx.hash, false) ∷ s.trace) × (t.sequence_number ≡ s.sequence_number)

    refund_it :
        (sender : Text) (amount : ℤ) (others : Senders) (t : World E)
        → senders ≡ (sender, amount) ∷ others
        → Reason amount others ((is_minted tx.hash, false) ∷ s.trace)
        → Behind t
        → Post (refund fuel b background sender (low_int64 amount) tx) t Goal
    refund_it sender amount others t e why (now, n) =
        refunded sender amount others e why
          (rw (← now, ← n) (refund-Refunds fuel b background sender (low_int64 amount) tx t))

    on_address :
        (sender : Text) (amount : ℤ) (r : Result Text) (t : World E)
        → senders ≡ (sender, amount) ∷ []
        → leb_ℤ amount b.deposit_fee ≡ false
        → ResolvesTo (ok r) ((is_minted tx.hash, false) ∷ s.trace)
        → Behind t
        → Post (mint_on_address fuel b ctx tx sender amount r) t Goal
    unfolding mint_on_address
    on_address sender amount (value address) t e above resolves (now, n) =
        deposited sender amount address e above resolves
          (rw (← now) (mint_to-Deposits address amount t t refl))
    on_address sender amount (error x) t e above resolves behind =
        refund_it sender amount [] t e (bad_memo x resolves) behind

    deposit :
        (sender : Text) (amount : ℤ) (t : World E)
        → senders ≡ (sender, amount) ∷ []
        → Behind t
        → Post (mint_deposit fuel b ctx tx sender amount) t Goal
    unfolding mint_deposit
    deposit sender amount t e behind =
        if_post Goal (text_eq tx.memo []) _ _ t
          (λ none. refund_it sender amount [] t e (empty_memo ((text_eq_iff _ _).0 none)) behind)
          λ _.
            if_post Goal (text_eq tx.memo_type (codes "return")) _ _ t
              (λ is_return.
                returned ((text_eq_iff _ _).0 is_return) (
                  rw (← behind.0)
                    (save_stellar_cursor-Saves b.block_persistency tx.paging_token t)))
              λ _.
                if_post Goal (leb_ℤ amount b.deposit_fee) _ _ t
                  (λ low. refund_it sender amount [] t e (not_above_fee low) behind)
                  λ above.
                    calm_try_post Goal (get_substrate_address_from_memo tx.memo) _ t
                      (get_substrate_address_from_memo-IsCalm tx.memo)
                      (λ r t' same n resolves.
                        on_address sender amount r t' e above (t, behind.0, resolves)
                          (same ∙ behind.0, n ∙ behind.1))

    go_on :
        (l : Senders) (t : World E)
        → senders ≡ l
        → Behind t
        → Post (mint_senders fuel b ctx tx l) t Goal
    unfolding mint_senders
    go_on [] t e behind = pure_post Goal tt t (no_sender e refl behind.0)
    go_on ((sender, amount) ∷ []) t e behind = deposit sender amount t e behind
    go_on ((sender, amount) ∷ other ∷ others) t e behind =
        refund_it sender amount (other ∷ others) t e (several_senders (cc)) behind

    after_question :
        (minted_already : Bool) (t : World E)
        → Asks E (is_minted tx.hash) (ok minted_already) s t
        → Post
            (if minted_already
              then raise (sentinel transaction_already_minted)
              else mint_senders fuel b ctx tx senders)
            t
            Goal
    after_question true t l = raise_post Goal _ t (was_minted refl l.trace)
    after_question false t l = go_on senders t refl (l.trace, l.sequence_number)

    pub mint-Mints : Post (mint fuel b ctx tx senders) s Goal
    unfolding mint
    mint-Mints =
        bind_post (λ o t. Asks E (is_minted tx.hash) o s t) Goal _ _ s
          (record {
            on_err = λ _ t l. Mints.no_answer refl l.trace;
            on_crash = λ t l. Mints.no_answer refl l.trace;
            on_unfinished = λ t l. Mints.no_answer refl l.trace;
          })
          (λ minted_already t l. after_question minted_already t l) (check_minted-Asks tx.hash s)
