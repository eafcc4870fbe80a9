-- ===== src/Persistency/Saved.antt =====
-- What is saved is read back (tfchain_bridge/pkg/persistency.go).
use tfchain_tft_bridge.Prelude.{ℕ, ◌<◌, ◌≡◌, Text, Bytes, All, arith}
use tfchain_tft_bridge.Errors.{value}
use tfchain_tft_bridge.Exec.{ok, ◌>>=◌}
use tfchain_tft_bridge.Env.{Env}
use tfchain_tft_bridge.Env.Types.{Blockheight, content}
use tfchain_tft_bridge.World.{World, perform}
use tfchain_tft_bridge.Persistency.{
  ChainPersistency, get_height, save, save_height, save_stellar_cursor,
}

-- JSON keeps a string of ASCII.
abbrev pub IsAscii : Text → Type 0
IsAscii = All (λ c. c < 128)

-- What the documents of `encoding/json` and `os` promise: a blockheight whose cursor is ASCII is
-- read back from its JSON, and a file that was written without an error holds what was written.
pub record IsReliable (E : Env) : Type 0 where
  pub unmarshal-marshal :
      (b : Blockheight) (json : Bytes)
      → IsAscii b.stellar_cursor
      → E.marshal b ≡ value json
      → E.unmarshal json ≡ value b
  pub read-write :
      (location : Text) (b : Bytes) (s : E.State)
      → (E.write_file location b s).0 ≡ value tt
      → (E.read_file location (E.write_file location b s).1).0 ≡ content b

module _ {E : Env} (reliable : IsReliable E) (p : ChainPersistency) where
  -- A save that returned has written the JSON of its argument.
  save_wrote :
      (b : Blockheight) (w : World E)
      → (save p b w).0 ≡ ok tt
      → (json : Bytes) × (E.marshal b ≡ value json)
        × ((E.write_file p.location json w.outside).0 ≡ value tt)
  unfolding save perform ◌>>=◌
  save_wrote b w h = ground arith

  get_height-save :
      (b : Blockheight) (w : World E)
      → IsAscii b.stellar_cursor
      → (save p b w).0 ≡ ok tt
      → (get_height p (save p b w).1).0 ≡ ok b
  unfolding save get_height perform ◌>>=◌
  get_height-save b w ascii h =
      let (json, marshals, writes) = save_wrote b w h in
      ground (
        arith,
        reliable.unmarshal-marshal b json ascii marshals,
        reliable.read-write p.location json w.outside writes,
      )

  -- If the file reads as `b`, saving a cursor of ASCII without an error makes it read as `b` with
  -- that cursor: the height stays.
  pub get_height-save_stellar_cursor :
      (cursor : Text) (b : Blockheight) (w : World E)
      → IsAscii cursor
      → (get_height p w).0 ≡ ok b
      → (save_stellar_cursor p cursor w).0 ≡ ok tt
      → (get_height p (save_stellar_cursor p cursor w).1).0
        ≡ ok (record b { stellar_cursor = cursor })
  unfolding save_stellar_cursor ◌>>=◌
  get_height-save_stellar_cursor cursor b w ascii reads saved = rw reads (
      get_height-save (record b { stellar_cursor = cursor }) (get_height p w).1 ascii
        (rw reads at saved))

  -- If the file reads as `b` and its cursor is ASCII, saving a height without an error makes it
  -- read as `b` with that height: the cursor stays.
  pub get_height-save_height :
      (height : ℕ) (b : Blockheight) (w : World E)
      → IsAscii b.stellar_cursor
      → (get_height p w).0 ≡ ok b
      → (save_height p height w).0 ≡ ok tt
      → (get_height p (save_height p height w).1).0 ≡ ok (record b { last_height = height })
  unfolding save_height ◌>>=◌
  get_height-save_height height b w ascii reads saved = rw reads (
      get_height-save (record b { last_height = height }) (get_height p w).1 ascii
        (rw reads at saved))
