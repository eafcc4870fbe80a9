-- ===== src/Persistency.antt =====
-- tfchain_bridge/pkg/persistency.go: the height and the cursor in a JSON file.
pub mod Saved
pub mod Trace
use tfchain_tft_bridge.Prelude.{ℕ, [], Text}
use tfchain_tft_bridge.Errors.{succeeded}
use tfchain_tft_bridge.Exec.{pure, raise, lift, ◌>>=◌}
use tfchain_tft_bridge.Env.{Env}
use tfchain_tft_bridge.Env.Types.{Blockheight, FileRead, not_exist, read_error, content}
use tfchain_tft_bridge.World.{World, Action, perform}
use tfchain_tft_bridge.World as World

pub record ChainPersistency : Type 0 where
  pub location : Text

unfoldable pub init_persist : {E : Env} → Text → Action E ChainPersistency
init_persist location = pure (record { location = location })

module _ {E : Env} where
  read_file : Text → Action E FileRead
  read_file location w =
      let (r, s) = E.read_file location w.outside in pure r (record w { outside = s })

  -- A file that is not there reads as the zero value.
  parse_file : FileRead → Action E Blockheight
  parse_file not_exist = pure (record { last_height = 0; stellar_cursor = [] })
  parse_file (read_error e) = raise e
  parse_file (content b) = lift (E.unmarshal b)

  unfoldable pub get_height : ChainPersistency → Action E Blockheight
  unfolding read_file parse_file
  get_height b = do file ← read_file b.location; parse_file file

  unfoldable pub save : ChainPersistency → Blockheight → Action E Unit
  save b blockheight = do
    updated ← lift (E.marshal blockheight)
    perform E (World.save blockheight) succeeded (E.write_file b.location updated)

  unfoldable pub save_height : ChainPersistency → ℕ → Action E Unit
  save_height b height = do
    blockheight ← get_height b
    save b (record blockheight { last_height = height })

  unfoldable pub save_stellar_cursor : ChainPersistency → Text → Action E Unit
  save_stellar_cursor b cursor = do
    blockheight ← get_height b
    save b (record blockheight { stellar_cursor = cursor })
