-- ===== src/Bridge/Memo/Address.antt =====
-- Which memos `getSubstrateAddressFromMemo` resolves, and to what.
use tfchain_tft_bridge.Prelude.{
  ℕ, to_uint32, Bool, true, false, text_eq, text_eq_iff, ◌≡◌, ◌≢◌, refl, ◌∙◌, ap, [], ◌∷◌, ◌++◌,
  Text, codes, arith, All, ◌%◌, ◌^◌, ◌<◌,
}
use tfchain_tft_bridge.Errors.{message}
use tfchain_tft_bridge.Exec.{pure, raise, ◌>>=◌}
use tfchain_tft_bridge.World.{Action, ask}
use tfchain_tft_bridge.Env.{Env}
use tfchain_tft_bridge.Go.Strings.{split, Lacks, split_whole, split_at}
use tfchain_tft_bridge.Go.Strconv.{format, atoi-format, format-IsDigit, IsDigit}
use tfchain_tft_bridge.Bridge.Memo.{
  twin_address, entity_address, object_address, address_of_number, address_of_chunks,
  get_substrate_address_from_memo,
}

Lacks-of_digits : (s : Text) → All IsDigit s → Lacks b'_' s
Lacks-of_digits [] h = tt
Lacks-of_digits (c ∷ s) (hc, hs) = (omega arith, Lacks-of_digits s hs)

format-Lacks : (n : ℕ) → Lacks b'_' (format n)
format-Lacks n = Lacks-of_digits (format n) (format-IsDigit n)

differs : (s t : Text) → s ≢ t → text_eq s t ≡ false
differs s t h = go (text_eq s t) refl
  where
    go : (b : Bool) → text_eq s t ≡ b → text_eq s t ≡ false
    go false e = e
    go true e = absurd (h ((text_eq_iff s t).0 e))

split-two :
    (kind id : Text)
    → Lacks b'_' kind
    → Lacks b'_' id
    → split (kind ++ b'_' ∷ id) b'_' ≡ kind ∷ id ∷ []
split-two kind id hk hi = split_at kind id b'_' hk ∙ ap (λ r. kind ∷ r) (split_whole id b'_' hi)

-- The kinds of the objects of the grid, and any other text.
pub data Kind : Type 0 where
  twin farm node entity : Kind
  other :
      (kind : Text)
      → kind ≢ codes "twin"
      → kind ≢ codes "farm"
      → kind ≢ codes "node"
      → kind ≢ codes "entity"
      → Kind

abbrev pub name : Kind → Text
name twin = codes "twin"
name farm = codes "farm"
name node = codes "node"
name entity = codes "entity"
name (other kind _ _ _ _) = kind

module _ {E : Env} where
  -- Whose account an object stands for: the twin's own, the one of the twin that owns a farm or a
  -- node, the entity's own; and no one's for another kind.
  abbrev pub account_text : Kind → ℕ → Action E Text
  account_text twin id = do account ← ask (E.get_twin id); pure (E.account_string account)
  account_text farm id = do
    owner ← ask (E.get_farm id)
    account ← ask (E.get_twin owner)
    pure (E.account_string account)
  account_text node id = do
    owner ← ask (E.get_node id)
    account ← ask (E.get_twin owner)
    pure (E.account_string account)
  account_text entity id = do account ← ask (E.get_entity id); pure (E.account_string account)
  account_text (other _ _ _ _ _) id = raise (message (codes "grid type not supported"))

  object_address-account_text :
      (kind : Kind) (id : ℕ) → object_address {E = E} (name kind) id ≡ account_text kind id
  unfolding object_address twin_address entity_address text_eq
  object_address-account_text twin id = refl
  object_address-account_text farm id = refl
  object_address-account_text node id = refl
  object_address-account_text entity id = refl
  object_address-account_text (other kind no_twin no_farm no_node no_entity) id =
      let not_twin : text_eq kind (codes "twin") ≡ false = differs kind (codes "twin") no_twin in
      let not_farm : text_eq kind (codes "farm") ≡ false = differs kind (codes "farm") no_farm in
      let not_node : text_eq kind (codes "node") ≡ false = differs kind (codes "node") no_node in
      let not_entity : text_eq kind (codes "entity") ≡ false =
        differs kind (codes "entity") no_entity in
      rw (not_twin, not_farm, not_node, not_entity) refl

  -- A memo `kind_n`, where the kind has no `_` in it and `n` is a number below 2 ^ 63, stands for the
  -- object whose number is `n` modulo 2 ^ 32: a twin for its account, a farm or a node for the account
  -- of the twin that the chain gives as its owner, an entity for its account. A kind that is none of
  -- the four is refused.
  pub get_substrate_address_from_memo-numbered :
      (kind : Kind) (n : ℕ)
      → Lacks b'_' (name kind)
      → n < 2 ^ 63
      → get_substrate_address_from_memo {E = E} (name kind ++ b'_' ∷ format n)
        ≡ account_text kind (n % 2 ^ 32)
  unfolding get_substrate_address_from_memo address_of_chunks address_of_number to_uint32
  get_substrate_address_from_memo-numbered kind n lacks small =
      ap address_of_chunks (split-two (name kind) (format n) lacks (format-Lacks n))
      ∙ ap (address_of_number (name kind)) (atoi-format n small)
      ∙ object_address-account_text kind (n % 2 ^ 32)

  -- A memo without a `_` is refused.
  pub get_substrate_address_from_memo-whole :
      (memo : Text)
      → Lacks b'_' memo
      → get_substrate_address_from_memo {E = E} memo
        ≡ raise (message (codes "memo text is not correctly formatted"))
  unfolding get_substrate_address_from_memo address_of_chunks
  get_substrate_address_from_memo-whole memo lacks =
      ap address_of_chunks (split_whole memo b'_' lacks)
