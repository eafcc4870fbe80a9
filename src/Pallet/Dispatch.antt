-- ===== src/Pallet/Dispatch.antt =====
-- The calls of pallet-tft-bridge/src/lib.rs as actions on its storage. FRAME runs a call as a
-- transaction: what a call changed before it failed is undone, so a failure carries no storage.
use tfchain_tft_bridge.Prelude.{Bool, true, false, ◌∷◌}
use tfchain_tft_bridge.Pallet.Types.{Runtime, Storage, Event, DispatchError}

pub data Dispatched (S A : Type 0) : Type 0 where
  done : A → S → Dispatched S A
  failed : DispatchError → Dispatched S A

abbrev pub Dispatch : Runtime → Type 0 → Type 0
Dispatch R A = Storage R → Dispatched (Storage R) A

module _ {R : Runtime} where
  abbrev pub pure : {A : Type 0} → A → Dispatch R A
  pure a s = done a s

  abbrev pub fail : {A : Type 0} → DispatchError → Dispatch R A
  fail e s = failed e

  abbrev pub gets : {A : Type 0} → (Storage R → A) → Dispatch R A
  gets f s = done (f s) s

  abbrev pub modify : (Storage R → Storage R) → Dispatch R Unit
  modify f s = done tt (f s)

  -- `ensure!`
  abbrev pub ensure : Bool → DispatchError → Dispatch R Unit
  ensure true e s = done tt s
  ensure false e s = failed e

  abbrev pub deposit_event : Event → Dispatch R Unit
  deposit_event event s = done tt (record s { events = event ∷ s.events })

module _ {R : Runtime} {A B : Type 0} where
  abbrev pub go_on : Dispatched (Storage R) A → (A → Dispatch R B) → Dispatched (Storage R) B
  go_on (done a s) f = f a s
  go_on (failed e) f = failed e

  infixl 5 ◌>>=◌
  abbrev pub ◌>>=◌ : Dispatch R A → (A → Dispatch R B) → Dispatch R B
  ◌>>=◌ m f s = go_on (m s) f

infixl 5 ◌>>◌
abbrev pub ◌>>◌ : {R : Runtime} {A B : Type 0} → Dispatch R A → Dispatch R B → Dispatch R B
m >> k = m >>= λ _. k

-- What a call leaves: the storage as it was, if it fails.
abbrev pub after : {S A : Type 0} → S → Dispatched S A → S
after s (done a t) = t
after s (failed e) = s
