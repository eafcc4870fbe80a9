-- ===== src/Bridge/Memo/Calm.antt =====
-- Resolving a memo (tfchain_bridge/pkg/bridge/mint.go) changes nothing that the daemon keeps.
use tfchain_tft_bridge.Prelude.{ℕ, ℤ, Option, none, some, List, [], ◌∷◌, Text}
use tfchain_tft_bridge.Env.{Env}
use tfchain_tft_bridge.World.Calm.{IsCalm, IsCalm-raise, calm_rules}
use tfchain_tft_bridge.Bridge.Memo.{
  twin_address, entity_address, object_address, address_of_number, address_of_chunks,
  get_substrate_address_from_memo,
}

module _ {E : Env} where
  twin_address-IsCalm : (id : ℕ) → IsCalm (twin_address {E = E} id)
  unfolding twin_address
  twin_address-IsCalm id = search calm_rules

  entity_address-IsCalm : (id : ℕ) → IsCalm (entity_address {E = E} id)
  unfolding entity_address
  entity_address-IsCalm id = search calm_rules

  object_address-IsCalm : (kind : Text) (id : ℕ) → IsCalm (object_address {E = E} kind id)
  unfolding object_address
  object_address-IsCalm kind id =
      search (calm_rules, twin_address-IsCalm, entity_address-IsCalm) depth 8

  address_of_number-IsCalm :
      (kind : Text) (id : Option ℤ) → IsCalm (address_of_number {E = E} kind id)
  unfolding address_of_number
  address_of_number-IsCalm kind none = IsCalm-raise _
  address_of_number-IsCalm kind (some id) = object_address-IsCalm kind _

  address_of_chunks-IsCalm : (chunks : List Text) → IsCalm (address_of_chunks {E = E} chunks)
  unfolding address_of_chunks
  address_of_chunks-IsCalm (kind ∷ id ∷ []) = address_of_number-IsCalm kind _
  address_of_chunks-IsCalm [] = IsCalm-raise _
  address_of_chunks-IsCalm (kind ∷ []) = IsCalm-raise _
  address_of_chunks-IsCalm (kind ∷ id ∷ more ∷ chunks) = IsCalm-raise _

  pub get_substrate_address_from_memo-IsCalm :
      (memo : Text) → IsCalm (get_substrate_address_from_memo {E = E} memo)
  unfolding get_substrate_address_from_memo
  get_substrate_address_from_memo-IsCalm memo = address_of_chunks-IsCalm _
