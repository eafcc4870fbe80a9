-- ===== src/Bridge/Memo.antt =====
-- `getSubstrateAddressFromMemo` of tfchain_bridge/pkg/bridge/mint.go: the account that a memo such
-- as `twin_1` stands for.
pub mod Address
pub mod Calm
use tfchain_tft_bridge.Prelude.{
  ℕ, ℤ, to_uint32, Option, none, some, List, [], ◌∷◌, Text, codes, text_eq, if◌then◌else◌,
}
use tfchain_tft_bridge.Errors.{message, foreign}
use tfchain_tft_bridge.Exec.{pure, raise, ◌>>=◌}
use tfchain_tft_bridge.Env.{Env}
use tfchain_tft_bridge.World.{Action, ask}
use tfchain_tft_bridge.Go.Strings.{split}
use tfchain_tft_bridge.Go.Strconv.{atoi}

module _ {E : Env} where
  unfoldable pub twin_address : ℕ → Action E Text
  twin_address id = do account ← ask (E.get_twin id); pure (E.account_string account)

  unfoldable pub entity_address : ℕ → Action E Text
  entity_address id = do account ← ask (E.get_entity id); pure (E.account_string account)

  -- The `switch` on the kind of the object.
  unfoldable pub object_address : Text → ℕ → Action E Text
  object_address kind id =
      if text_eq kind (codes "twin")
      then twin_address id
      else if text_eq kind (codes "farm")
      then (do twin ← ask (E.get_farm id); twin_address twin)
      else if text_eq kind (codes "node")
      then (do twin ← ask (E.get_node id); twin_address twin)
      else if text_eq kind (codes "entity")
      then entity_address id
      else raise (message (codes "grid type not supported"))

  unfoldable pub address_of_number : Text → Option ℤ → Action E Text
  address_of_number kind none = raise (foreign 1)
  address_of_number kind (some id) = object_address kind (to_uint32 id)

  unfoldable pub address_of_chunks : List Text → Action E Text
  address_of_chunks (kind ∷ id ∷ []) = address_of_number kind (atoi id)
  address_of_chunks _ = raise (message (codes "memo text is not correctly formatted"))

  unfoldable pub get_substrate_address_from_memo : Text → Action E Text
  get_substrate_address_from_memo memo = address_of_chunks (split memo b'_')
