-- ===== src/Server.antt =====
-- src/grpc/GrpcServer.cpp. start() runs on a thread of its own and stop() on the main thread. An
-- event is a part of start() that blocks or reads server_, or a call of stop(); a list of events is
-- one interleaving, and an event that cannot happen changes nothing. As gRPC documents it, Wait()
-- returns only after Shutdown().
pub mod Stopping
use dnp3_bridge.Base.{Bool, true, false, List, [], ◌∷◌, if◌then◌else◌}

-- The thread of start(): before BuildAndStart, in Wait, or returned.
pub data ServerThread : Type 0 where
  building waiting returned : ServerThread

-- `server` tells whether server_ is set, and `shut` whether Shutdown has been called on it.
pub record GrpcServer : Type 0 where
  pub server : Bool
  pub shut : Bool
  pub thread : ServerThread

-- `built` comes with what BuildAndStart gave.
pub data Event : Type 0 where
  built : Bool → Event
  wait_over stop : Event

abbrev pub new_server : GrpcServer
new_server = record { server = false; shut = false; thread = building }

unfoldable pub build_server : ServerThread → Bool → GrpcServer → GrpcServer
build_server building true s = record s { server = true; thread = waiting }
build_server building false s = record s { thread = returned }
build_server _ ok s = s

unfoldable pub end_wait : ServerThread → GrpcServer → GrpcServer
end_wait waiting s = if s.shut then record s { thread = returned } else s
end_wait _ s = s

unfoldable pub stop_server : GrpcServer → GrpcServer
stop_server s = if s.server then record s { shut = true } else s

unfoldable pub step : Event → GrpcServer → GrpcServer
unfolding build_server end_wait stop_server
step (built ok) s = build_server s.thread ok s
step wait_over s = end_wait s.thread s
step stop s = stop_server s

unfoldable pub run : GrpcServer → List Event → GrpcServer
unfolding step
run s [] = s
run s (e ∷ es) = run (step e s) es
