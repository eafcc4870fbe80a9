-- ===== src/Persistency/Trace.antt =====
-- What saving a cursor leaves in the trace (tfchain_bridge/pkg/persistency.go).
use tfchain_tft_bridge.Prelude.{◌≡◌, refl, false, ◌∷◌, Text}
use tfchain_tft_bridge.Exec.{Outcome, is_ok, ◌>>=◌}
use tfchain_tft_bridge.Exec.Rules.{Post, bind_lift_post}
use tfchain_tft_bridge.Env.{Env}
use tfchain_tft_bridge.Env.Types.{Blockheight, FileRead, not_exist, read_error, content}
use tfchain_tft_bridge.World.{World, Trace, perform}
use tfchain_tft_bridge.World as World
use tfchain_tft_bridge.World.Quiet.{IsQuiet, IsQuiet-lift}
use tfchain_tft_bridge.World.Rules.{quiet_post}
use tfchain_tft_bridge.Substrate.Client.Trace.{perform-Logs}
use tfchain_tft_bridge.Persistency.{
  ChainPersistency, parse_file, get_height, save, save_stellar_cursor,
}

-- A failure that leaves nothing, or one write of a blockheight with the cursor, which is the success
-- of the call.
pub data Saves {Tx : Type 0} (cursor : Text) (old : Trace Tx) (o : Outcome Unit) (t : Trace Tx)
    : Type 0 where
  not_saved : is_ok o ≡ false → t ≡ old → Saves cursor old o t
  saved :
      (b : Blockheight)
      → b.stellar_cursor ≡ cursor
      → t ≡ (World.save b, is_ok o) ∷ old
      → Saves cursor old o t

module _ {E : Env} (p : ChainPersistency) where
  pub get_height-IsQuiet : IsQuiet {E = E} (get_height p)
  unfolding get_height ◌>>=◌
  get_height-IsQuiet = record { at = λ w. go (E.read_file p.location w.outside).0 _ }
    where
      go : (f : FileRead) (s : World E) → (parse_file f s).1.trace ≡ s.trace
      go not_exist s = refl
      go (read_error e) s = refl
      go (content b) s = (IsQuiet-lift {E = E} (E.unmarshal b)).at s

  save-Saves :
      (b : Blockheight) (s t : World E)
      → t.trace ≡ s.trace
      → Post (save p b) t (λ o t'. Saves b.stellar_cursor s.trace o t'.trace)
  unfolding save
  save-Saves b s t same =
      bind_lift_post (λ o t'. Saves b.stellar_cursor s.trace o t'.trace) (E.marshal b) _ t
        (λ json _.
          rw (← same)
            (saved b refl (perform-Logs E (World.save b) (E.write_file p.location json) t).trace))
        (λ e. not_saved refl same)

  pub save_stellar_cursor-Saves :
      (cursor : Text) (s : World E)
      → Post (save_stellar_cursor p cursor) s (λ o t. Saves cursor s.trace o t.trace)
  unfolding save_stellar_cursor
  save_stellar_cursor-Saves cursor s =
      quiet_post (λ o t. Saves cursor s.trace o t.trace) (get_height p) _ s get_height-IsQuiet
        (λ b t same. save-Saves (record b { stellar_cursor = cursor }) s t same)
        (λ e t same. not_saved refl same) (λ t same. not_saved refl same)
        (λ t same. not_saved refl same)
