-- ===== src/Stellar/Deposits/Ledger.antt =====
-- The map of senders that the loop over the operations builds (tfchain_bridge/pkg/stellar/stellar.go),
-- against the sum of the payments of each sender.
use tfchain_tft_bridge.Prelude.{
  ℤ, ◌+ℤ◌, +ℤ_assoc, ◌≡◌, ◌≢◌, refl, sym, ◌∙◌, ap, Bool, true, false, ◌&&◌, Option, none, some,
  List, [], ◌∷◌, Text, codes, text_eq, text_eq_iff, arith, if◌then◌else◌, All, Bool-cases, inl, inr,
}
use tfchain_tft_bridge.Errors.{Result, value, error}
use tfchain_tft_bridge.Env.{Env}
use tfchain_tft_bridge.Env.Types.{Operation}
use tfchain_tft_bridge.Stellar.Deposits.{Senders, add_deposit, add_payment, collect}

unfoldable pub lookup : Text → Senders → Option ℤ
lookup k [] = none
lookup k ((s, n) ∷ rest) = if text_eq s k then some n else lookup k rest

-- No sender stands twice, as in every map.
abbrev pub IsMap : Senders → Type 0
IsMap [] = Unit
IsMap ((s, n) ∷ rest) = (lookup s rest ≡ none) × IsMap rest

-- The sum of what is there.
abbrev pub plus : Option ℤ → Option ℤ → Option ℤ
plus none b = b
plus (some a) none = some a
plus (some a) (some b) = some (a +ℤ b)

module _ (E : Env) (account : Text) where
  -- What an operation brings from a sender.
  unfoldable pub brought : Text → Operation → Option ℤ
  brought sender op =
      if text_eq op.to_account account && text_eq op.from_account sender
      then elim (E.parse_int64 op.amount) [ error _ ↦ none | value amount ↦ some amount ]
      else none

  -- The sum of what a list of operations brings from a sender, `none` if there is nothing.
  unfoldable pub deposited_by : Text → List Operation → Option ℤ
  unfolding brought
  deposited_by sender [] = none
  deposited_by sender (op ∷ ops) = plus (brought sender op) (deposited_by sender ops)

abbrev pub IsPayment : Operation → Type 0
IsPayment op = op.kind ≡ codes "payment"

plus-none : (a : Option ℤ) → plus a none ≡ a
plus-none none = refl
plus-none (some a) = refl

plus_assoc : (a b c : Option ℤ) → plus (plus a b) c ≡ plus a (plus b c)
plus_assoc none b c = refl
plus_assoc (some a) none c = refl
plus_assoc (some a) (some b) none = refl
plus_assoc (some a) (some b) (some c) = ap some (+ℤ_assoc a b c)

lookup-add_deposit :
    (k sender : Text) (amount : ℤ) (senders : Senders)
    → lookup k (add_deposit sender amount senders)
      ≡ (if text_eq sender k then plus (lookup k senders) (some amount) else lookup k senders)
unfolding lookup add_deposit
lookup-add_deposit k sender amount [] = ground arith
lookup-add_deposit k sender amount ((s, n) ∷ rest) = ground (
  arith,
  lookup-add_deposit k sender amount rest,
  text_eq_iff s sender,
  text_eq_iff s k,
  text_eq_iff sender k,
)

add_deposit-IsMap :
    (sender : Text) (amount : ℤ) (senders : Senders)
    → IsMap senders
    → IsMap (add_deposit sender amount senders)
unfolding lookup add_deposit
add_deposit-IsMap sender amount [] h = (refl, tt)
add_deposit-IsMap sender amount ((s, n) ∷ rest) h = elim (Bool-cases (text_eq s sender)) [
  | inl same ↦ rw same h
  | inr other ↦ rw other (
    lookup-add_deposit s sender amount rest
        ∙ ground (arith, h.0, text_eq_iff s sender, text_eq_iff sender s),
    add_deposit-IsMap sender amount rest h.1,
  )
]

module _ (E : Env) (account : Text) where
  lookup-add_payment :
      (k : Text) (op : Operation) (senders : Senders)
      → lookup k (add_payment E account op senders)
        ≡ plus (lookup k senders) (brought E account k op)
  unfolding add_payment brought
  lookup-add_payment k op senders = go (E.parse_int64 op.amount) (text_eq op.to_account account)
    where
      go :
          (r : Result ℤ) (here : Bool)
          → lookup k (
              if here
              then elim r [
                | error _ ↦ senders
                | value amount ↦ add_deposit op.from_account amount senders
              ]
              else senders)
            ≡ plus (lookup k senders) (
                if here && text_eq op.from_account k
                then elim r [ error _ ↦ none | value amount ↦ some amount ]
                else none)
      go r false = sym (plus-none _)
      go (error e) true = ground (arith, plus-none (lookup k senders))
      go (value n) true =
          ground
            (arith, lookup-add_deposit k op.from_account n senders, plus-none (lookup k senders))

  add_payment-IsMap :
      (op : Operation) (senders : Senders)
      → IsMap senders
      → IsMap (add_payment E account op senders)
  unfolding add_payment
  add_payment-IsMap op senders h = go (E.parse_int64 op.amount) (text_eq op.to_account account)
    where
      go :
          (r : Result ℤ) (here : Bool)
          → IsMap (
              if here
              then elim r [
                | error _ ↦ senders
                | value amount ↦ add_deposit op.from_account amount senders
              ]
              else senders)
      go r false = h
      go (error e) true = h
      go (value n) true = add_deposit-IsMap op.from_account n senders h

  -- The operations are payments, and the map says of each sender what they bring on top of `old`.
  pub record IsLedger (ops : List Operation) (old senders : Senders) : Type 0 where
    pub payments : All IsPayment ops
    pub is_map : IsMap senders
    pub amounts :
        (sender : Text)
        → lookup sender senders ≡ plus (lookup sender old) (deposited_by E account sender ops)

  collect_from :
      (ops : List Operation) (old senders : Senders)
      → IsMap old
      → collect E account ops old ≡ some senders
      → IsLedger ops old senders
  unfolding collect deposited_by
  collect_from [] old senders m h = record {
    payments = tt;
    is_map = let e : old ≡ senders = cc in rw (← e) m;
    amounts =
        λ sender. let e : old ≡ senders = cc in rw (← e) (sym (plus-none (lookup sender old)));
  }
  collect_from (op ∷ ops) old senders m h = elim (Bool-cases (text_eq op.kind (codes "payment"))) [
    | inr other ↦ cc (rw other at h)
    | inl payment ↦
        let l : IsLedger ops (add_payment E account op old) senders =
          collect_from ops (add_payment E account op old) senders (add_payment-IsMap op old m)
            (rw payment at h) in
        record {
          payments = ((text_eq_iff _ _).0 payment, l.payments);
          is_map = l.is_map;
          amounts = λ sender.
              l.amounts sender
              ∙ ap (λ a. plus a (deposited_by E account sender ops))
                  (lookup-add_payment sender op old)
              ∙ plus_assoc (lookup sender old) (brought E account sender op)
                  (deposited_by E account sender ops);
        }
  ]

  pub collect-ne-none :
      (ops : List Operation) (old : Senders) → All IsPayment ops → collect E account ops old ≢ none
  unfolding collect
  collect-ne-none [] old h e = cc
  collect-ne-none (op ∷ ops) old (payment, h) e =
      collect-ne-none ops (add_payment E account op old) h
        (rw ((text_eq_iff op.kind (codes "payment")).1 payment) at e)

  abbrev pub IsCollected : List Operation → Option Senders → Type 0
  IsCollected ops none = ¬ All IsPayment ops
  IsCollected ops (some senders) = IsLedger ops [] senders

  -- The loop over the operations gives a map exactly if every operation is a payment. Then no sender
  -- stands twice in it, and the amount of each sender is the sum of that sender's payments to the
  -- account whose amounts can be read; a sender with none is not in it.
  pub collect-IsCollected : (ops : List Operation) → IsCollected ops (collect E account ops [])
  collect-IsCollected ops = go (collect E account ops []) refl
    where
      go : (r : Option Senders) → collect E account ops [] ≡ r → IsCollected ops r
      go none e = λ h. collect-ne-none ops [] h e
      go (some senders) e = collect_from ops [] senders tt e
