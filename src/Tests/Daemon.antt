-- ===== src/Tests/Daemon.antt =====
-- The theorems on the main loop, on the end of the process and on the key generator.
use tfchain_tft_bridge.Prelude.{
  pos, ◌≡◌, refl, none, [], ◌∷◌, ◌++◌, List, Text, Bytes, codes, text_eq, arith, All,
}
use tfchain_tft_bridge.Errors.{sentinel, canceled, value}
use tfchain_tft_bridge.Exec.{ok, crash, pure, raise, lift, try, wrapping, ◌>>=◌}
use tfchain_tft_bridge.World.{ask}
use tfchain_tft_bridge.Go.Hex.{hex_encode, IsByte}
use tfchain_tft_bridge.Persistency.{get_height, init_persist}
use tfchain_tft_bridge.Substrate.Client.{new_substrate_client}
use tfchain_tft_bridge.Stellar.Wallet.{
  new_stellar_wallet, get_account_details, load_sequence_number, set_sequence_number, error_or_done,
}
use tfchain_tft_bridge.Stellar.Network.{get_horizon_client}
use tfchain_tft_bridge.Stellar.Deposits.{MintEvent}
use tfchain_tft_bridge.Substrate.Events.{Events, no_events}
use tfchain_tft_bridge.Bridge.State.{new_bridge, rescan}
use tfchain_tft_bridge.Bridge.Start.{
  Received, from_tfchain, from_stellar, done, serve, start, receive,
}
use tfchain_tft_bridge.Main.{exit_of, or_start, run, main}
use tfchain_tft_bridge.Main.Shutdown.{Stops, main-normal}
use tfchain_tft_bridge.Tools.Keygen.{KeyTools, raw_seed}
use tfchain_tft_bridge.Tools.Keygen as Keygen
use tfchain_tft_bridge.Tools.Keygen.Seeds.{main-seed_of, main-panics}
use tfchain_tft_bridge.Tools.Keygen.Trimmed.{prefix, seed_of}
use tfchain_tft_bridge.World.Timely.{Ended}
use tfchain_tft_bridge.Bridge.Start.{on_events}
use tfchain_tft_bridge.Bridge.Start.Ends.{on_events-Ended}
use tfchain_tft_bridge.Tests.{sim_deadline, sim_deadline-IsSteady, bridge, fresh, deposit}

abbrev minted : MintEvent
minted = record { senders = (codes "GALICE", pos 50000000) ∷ []; tx = deposit; err = none }

abbrev events : Events
events = record no_events {
  withdraw_ready_events = record { id = 4 } ∷ [];
  withdraw_expired_events = record { id = 9; target = codes "GC"; amount = 25000000 } ∷ [];
}

-- A deposit, then a block with an expired withdrawal and one that is ready, then a signal.
abbrev received : Text → List Received
received cursor =
    from_stellar (record { events = minted ∷ []; err = none })
    ∷ from_tfchain (record { events = events; err = none })
    ∷ done (sentinel canceled)
    ∷ []

on_events-Ended_example : Ended (on_events 2 bridge events fresh).0
on_events-Ended_example =
    on_events-Ended sim_deadline sim_deadline-IsSteady 2 bridge events fresh (omega arith)

abbrev shut_down : Text → List Received
shut_down cursor = done (sentinel canceled) ∷ []

main-normal_example : (cursor : Text) × Stops (shut_down cursor)
unfolding main run new_bridge or_start start serve receive exit_of get_height init_persist rescan
    new_substrate_client new_stellar_wallet ask lift try wrapping pure raise ◌>>=◌
    get_account_details get_horizon_client text_eq load_sequence_number set_sequence_number
    error_or_done
main-normal_example = main-normal 2 bridge.config shut_down fresh refl

-- Libraries that take every seed, and print it as the documentation says.
abbrev key_tools : KeyTools
key_tools = record {
  Derived = Text;
  Full = Bytes;
  derive_key_pair = λ uri. value uri;
  ss58_address = λ kyr network. value (codes "5F");
  public_key = λ kyr. [];
  hex_encode_to_string = λ b. prefix ++ hex_encode b;
  from_raw_seed = λ b. value b;
  seed = λ k. codes "S" ++ k;
  address = λ k. codes "G";
}

abbrev middle : Bytes
middle =
    1 ∷ 2 ∷ 3 ∷ 4 ∷ 5 ∷ 6 ∷ 7 ∷ 8 ∷ 9 ∷ 10 ∷ 11 ∷ 12 ∷ 13 ∷ 14 ∷ 15 ∷ 16 ∷ 17 ∷ 18 ∷ 19 ∷ 20 ∷ 21
    ∷ 22 ∷ 23 ∷ 24 ∷ 25 ∷ 26 ∷ 27 ∷ 28 ∷ 29 ∷ []

bytes : All IsByte middle
bytes = (
  omega arith,
  (
    omega arith,
    (
      omega arith,
      (
        omega arith,
        (
          omega arith,
          (
            omega arith,
            (
              omega arith,
              (
                omega arith,
                (
                  omega arith,
                  (
                    omega arith,
                    (
                      omega arith,
                      (
                        omega arith,
                        (
                          omega arith,
                          (
                            omega arith,
                            (
                              omega arith,
                              (
                                omega arith,
                                (
                                  omega arith,
                                  (
                                    omega arith,
                                    (
                                      omega arith,
                                      (
                                        omega arith,
                                        (
                                          omega arith,
                                          (
                                            omega arith,
                                            (
                                              omega arith,
                                              (
                                                omega arith,
                                                (
                                                  omega arith,
                                                  (
                                                    omega arith,
                                                    (omega arith, (omega arith, (omega arith, tt))),
                                                  ),
                                                ),
                                              ),
                                            ),
                                          ),
                                        ),
                                      ),
                                    ),
                                  ),
                                ),
                              ),
                            ),
                          ),
                        ),
                      ),
                    ),
                  ),
                ),
              ),
            ),
          ),
        ),
      ),
    ),
  ),
)

main-seed_of_example :
    (Keygen.main key_tools (value (seed_of 171 (200 ∷ middle) 205)) fresh).0
    ≡ ok (record {
      raw_seed = prefix ++ hex_encode (seed_of 171 (200 ∷ middle) 205);
      ss58 = codes "5F";
      stellar_secret = codes "S" ++ seed_of 171 (200 ∷ middle) 205;
      stellar_address = codes "G";
    })
main-seed_of_example =
    main-seed_of key_tools fresh (λ b. refl) 171 205 (200 ∷ middle)
      (prefix ++ hex_encode (seed_of 171 (200 ∷ middle) 205)) (codes "5F")
      (seed_of 171 (200 ∷ middle) 205) (omega arith) (omega arith, bytes) (omega arith) refl
      (omega arith) (omega arith) refl refl refl

main-panics_example :
    (Keygen.main key_tools (value (seed_of 171 (200 ∷ middle) 208)) fresh).0 ≡ crash
main-panics_example =
    main-panics key_tools fresh (λ b. refl) 171 208 (200 ∷ middle) (omega arith) (omega arith)
      (omega arith) (omega arith) refl
