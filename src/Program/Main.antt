-- ===== src/Program/Main.antt =====
-- The life of the process, src/main.cpp: the main thread from the loop that polls
-- g_shutdown_requested to the end of main, against the signal handler, the flush thread, the gRPC
-- handlers and the thread of GrpcServer::start. A turn of the main thread is one statement, or one
-- look at what it waits for; an event that cannot happen changes nothing. ~Bridge calls stop() once
-- more, which has nothing to join then. Events of the other threads come at any time.
pub mod Invariant
pub mod Moves
pub mod Reachable
pub mod Turns
pub mod Ending
pub mod Hanging
pub mod Deliveries
pub mod Delivering
use dnp3_bridge.Base.{Bool, true, false, List, [], ◌∷◌, if◌then◌else◌}
use dnp3_bridge.Double.{Double}
use dnp3_bridge.DataModel.{PointUpdate}
use dnp3_bridge.Outstation.Flags.{AnalogQuality}
use dnp3_bridge.Outstation.Lifecycle.{shutdown}
use dnp3_bridge.Bridge.{
  Bridge, FlushThread, has_stopped, enqueue, stop_bridge, wake_thread, flush_update,
}
use dnp3_bridge.Server.{ServerThread, returned, GrpcServer, build_server, end_wait, stop_server}
use dnp3_bridge.Program.{Program}

-- The main thread is before this. `joining_bridge` is inside of bridge.stop(); from `joining_server`
-- on the destructors of grpc_thread, server, bridge and outstation run.
pub data Place : Type 0 where
  polling stopping_server stopping_bridge joining_bridge stopping_outstation : Place
  joining_server leaving_server leaving_bridge leaving_outstation ended : Place

-- The signals that main installs a disposition for.
pub data Signal : Type 0 where
  sigpipe sigint sigterm : Signal

-- `requested` is g_shutdown_requested.
pub record Process (D : Type 0) : Type 0 where
  pub requested : Bool
  pub place : Place
  pub program : Program D

-- The handlers call applyUpdate and Python calls them; `built` comes with what BuildAndStart gave.
pub data Event (D : Type 0) : Type 0 where
  main_turn wake flush_one wait_over : Event D
  signal : Signal → Event D
  apply_update : PointUpdate D → Event D
  built : Bool → Event D

abbrev pub new_process : {D : Type 0} → Program D → Process D
new_process p = record { requested = false; place = polling; program = p }

-- After the block of bridge.stop(): the join, or the return if the bridge was not running.
abbrev pub after_stop : Bool → Place
after_stop true = joining_bridge
after_stop false = stopping_outstation

abbrev pub after_join : {D : Type 0} → FlushThread D → Place
after_join t = if has_stopped t then stopping_outstation else joining_bridge

abbrev pub after_server : ServerThread → Place
after_server returned = leaving_server
after_server _ = joining_server

module _ {D : Type 0} where
  abbrev pub signal_handler : Process D → Process D
  signal_handler s = record s { requested = true }

  -- SIGPIPE is ignored.
  unfoldable pub handle_signal : Signal → Process D → Process D
  handle_signal sigpipe s = s
  handle_signal sigint s = signal_handler s
  handle_signal sigterm s = signal_handler s

  abbrev pub set_bridge : Bridge D → Process D → Process D
  set_bridge b s = record s { program = record s.program { bridge = b } }

  abbrev pub set_server : GrpcServer → Process D → Process D
  set_server g s = record s { program = record s.program { server = g } }

  unfoldable pub shut_outstation : Bridge D → Bridge D
  unfolding shutdown
  shut_outstation b = record b { outstation = shutdown b.outstation }

module _ (f : Double) (q : AnalogQuality) where
  open f use {D}

  unfoldable pub main_step : Place → Process D → Process D
  unfolding stop_server stop_bridge shut_outstation
  main_step polling s = if s.requested then record s { place = stopping_server } else s
  main_step stopping_server s =
      set_server (stop_server s.program.server) (record s { place = stopping_bridge })
  main_step stopping_bridge s =
      let next = after_stop s.program.bridge.running in
      set_bridge (stop_bridge f q s.program.bridge) (record s { place = next })
  main_step joining_bridge s = record s { place = after_join s.program.bridge.thread }
  main_step stopping_outstation s =
      set_bridge (shut_outstation s.program.bridge) (record s { place = joining_server })
  main_step joining_server s = record s { place = after_server s.program.server.thread }
  main_step leaving_server s =
      set_server (stop_server s.program.server) (record s { place = leaving_bridge })
  main_step leaving_bridge s =
      set_bridge (stop_bridge f q s.program.bridge) (record s { place = leaving_outstation })
  main_step leaving_outstation s =
      set_bridge (shut_outstation s.program.bridge) (record s { place = ended })
  main_step ended s = s

  unfoldable pub step : Event D → Process D → Process D
  unfolding handle_signal main_step enqueue wake_thread flush_update build_server end_wait
  step (signal number) s = handle_signal number s
  step main_turn s = main_step s.place s
  step (apply_update u) s = set_bridge (enqueue f q u s.program.bridge) s
  step wake s = set_bridge (wake_thread f q s.program.bridge.thread s.program.bridge) s
  step flush_one s = set_bridge (flush_update f q s.program.bridge.thread s.program.bridge) s
  step (built ok) s = set_server (build_server s.program.server.thread ok s.program.server) s
  step wait_over s = set_server (end_wait s.program.server.thread s.program.server) s

  unfoldable pub run : Process D → List (Event D) → Process D
  unfolding step
  run s [] = s
  run s (e ∷ es) = run (step e s) es
