-- ===== src/Bridge/State/Rescan.antt =====
-- The rescan of `NewBridge` in tfchain_bridge/pkg/bridge/bridge.go begins at the first transaction.
use tfchain_tft_bridge.Prelude.{◌≡◌, refl, codes, arith, true}
use tfchain_tft_bridge.Exec.{Outcome, ok, err, crash, unfinished, continue, ◌>>=◌}
use tfchain_tft_bridge.Env.{Env}
use tfchain_tft_bridge.Env.Types.{Blockheight}
use tfchain_tft_bridge.World.{World}
use tfchain_tft_bridge.Persistency.{ChainPersistency, get_height, save_stellar_cursor, save_height}
use tfchain_tft_bridge.Persistency.Saved.{
  IsReliable, get_height-save_stellar_cursor, get_height-save_height,
}
use tfchain_tft_bridge.Bridge.State.{rescan}

module _ {E : Env} (reliable : IsReliable E) (p : ChainPersistency) where
  -- If the file can be read, a rescan that returns without an error leaves the cursor "0" and the
  -- height 0 in it, whatever stood there.
  pub get_height-rescan :
      (b : Blockheight) (w : World E)
      → (get_height p w).0 ≡ ok b
      → (rescan true p w).0 ≡ ok tt
      → (get_height p (rescan true p w).1).0
        ≡ ok (record { last_height = 0; stellar_cursor = codes "0" })
  unfolding rescan ◌>>=◌
  get_height-rescan b w reads done = go (save_stellar_cursor p (codes "0") w).0 refl done
    where
      v : World E
      v = (save_stellar_cursor p (codes "0") w).1

      go :
          (o : Outcome Unit)
          → (save_stellar_cursor p (codes "0") w).0 ≡ o
          → (continue o (λ _. save_height p 0) v).0 ≡ ok tt
          → (get_height p (continue o (λ _. save_height p 0) v).1).0
            ≡ ok (record { last_height = 0; stellar_cursor = codes "0" })
      go (ok tt) e h =
          get_height-save_height reliable p 0 (record b { stellar_cursor = codes "0" }) v
            (omega arith, tt)
            (get_height-save_stellar_cursor reliable p (codes "0") b w (omega arith, tt) reads e) h
      go (err x) e h = cc
      go crash e h = cc
      go unfinished e h = cc
