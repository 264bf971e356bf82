-- ===== src/Tests/Main.antt =====
-- The life of the process of Tests.Program.
use dnp3_bridge.Base.{ℕ, ◌≡◌, refl, true, false, Option, some, List, [], ◌∷◌, ◌++◌, map, arith}
use dnp3_bridge.DataModel.{PointUpdate, good, bad, analog}
use dnp3_bridge.Outstation.Flags.Meaning.{opendnp3_quality}
use dnp3_bridge.Outstation.Updates.Delivery.{content, expected_write}
use dnp3_bridge.Bridge
use dnp3_bridge.Bridge.{enqueue, stop_bridge, wake_thread, flush_update, start_bridge}
use dnp3_bridge.Server
use dnp3_bridge.Server.{build_server, end_wait, stop_server}
use dnp3_bridge.Server.Stopping.{unstopped}
use dnp3_bridge.Program.{launch}
use dnp3_bridge.Program.Main.{
  ended, Process, Event, signal, sigint, sigterm, handle_signal, main_turn, wake, flush_one,
  wait_over, apply_update, built, new_process, shut_outstation, main_step, step, run,
}
use dnp3_bridge.Program.Main.Ending.{rounds, main-ends}
use dnp3_bridge.Program.Main.Hanging.{main-hangs}
use dnp3_bridge.Program.Main.Delivering.{main-delivers}
use dnp3_bridge.Tests.Sample.{whole, defaults, plain}
use dnp3_bridge.Tests.Program.{keyed, environment, read, program, booted}

abbrev early : PointUpdate (Option ℕ)
early = analog (record { index = 3; value = some 9; quality = good })

abbrev late : PointUpdate (Option ℕ)
late = analog (record { index = 3; value = some 10; quality = bad })

-- An update comes, the server is built, and a signal comes.
abbrev signalled : List (Event (Option ℕ))
signalled = apply_update early ∷ built true ∷ signal sigterm ∷ []

main-ends_example :
    let s =
      rounds whole opendnp3_quality 14
        (run whole opendnp3_quality (new_process program) signalled) in
    (s.place ≡ ended)
    × (s.program.bridge.thread ≡ Bridge.returned)
    × (s.program.server.thread ≡ Server.returned)
    × (s.program.bridge.outstation.outstation ≡ false)
unfolding launch run step handle_signal enqueue build_server
main-ends_example =
    main-ends whole opendnp3_quality keyed plain defaults environment read ("file" ∷ []) program
      signalled 14 booted refl ((λ h. absurd (cc)), λ h. absurd (cc)) (omega arith)

-- main goes to its end while one update comes after the flush thread has returned.
abbrev ending : List (Event (Option ℕ))
ending =
    main_turn
    ∷ main_turn
    ∷ main_turn
    ∷ wake
    ∷ flush_one
    ∷ flush_one
    ∷ wake
    ∷ apply_update late
    ∷ main_turn
    ∷ main_turn
    ∷ wait_over
    ∷ main_turn
    ∷ main_turn
    ∷ main_turn
    ∷ main_turn
    ∷ []

abbrev end_state : Process (Option ℕ)
end_state =
    run whole opendnp3_quality (run whole opendnp3_quality (new_process program) signalled) ending

main-delivers_example :
    (more : List (PointUpdate (Option ℕ))) × (end_state.program.bridge.delivered ≡ early ∷ more)
    × (more ++ end_state.program.bridge.queue ≡ late ∷ [])
    × (map content end_state.program.bridge.applied
        ≡ map (expected_write opendnp3_quality) (early ∷ more))
unfolding launch run step handle_signal main_step enqueue build_server end_wait stop_server
    stop_bridge wake_thread flush_update shut_outstation
main-delivers_example =
    main-delivers whole opendnp3_quality keyed plain defaults environment read ("file" ∷ []) program
      signalled ending booted refl refl

-- The signal comes before BuildAndStart returns, and this then fails.
abbrev failing : List (Event (Option ℕ))
failing =
    main_turn
    ∷ wake
    ∷ main_turn
    ∷ main_turn
    ∷ built false
    ∷ main_turn
    ∷ main_turn
    ∷ main_turn
    ∷ main_turn
    ∷ []

main-hangs_example : unstopped Server.building (Server.built false ∷ []) ≡ Server.returned
unfolding launch run step handle_signal main_step build_server end_wait stop_server stop_bridge
    wake_thread flush_update shut_outstation
main-hangs_example =
    main-hangs whole opendnp3_quality keyed plain defaults environment read ("file" ∷ []) program
      (signal sigint ∷ main_turn ∷ []) failing booted refl refl refl
