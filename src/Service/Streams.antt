-- ===== src/Service/Streams.antt =====
-- The writer that StreamCommands leaves behind, src/grpc/BridgeServiceImpl.cpp.
use dnp3_bridge.Base.{ℕ, ◌≡◌, ◌≢◌, some, List, ◌↔◌, arith, Option-cases, inl, inr}
use dnp3_bridge.Commands.Dispatcher.{Dispatcher, register_writer, release}
use dnp3_bridge.Service.{in_turn, stream_commands}

-- Whatever other threads do to the dispatcher during a StreamCommands call, when it returns, and its
-- writer is destroyed, the dispatcher does not point to this writer; a writer that another stream has
-- registered meanwhile stays active.
stream_commands-active_writer :
    (writer other : ℕ) (sleeps : List (Dispatcher → Dispatcher)) (d : Dispatcher)
    → let d' = stream_commands writer sleeps d in
      let before = in_turn sleeps (register_writer writer d).0 in
      (d'.active_writer ≢ some writer)
      × ((d'.active_writer ≡ some other) ↔ ((before.active_writer ≡ some other) × (other ≢ writer)))
unfolding stream_commands release
stream_commands-active_writer writer other sleeps d =
    elim (Option-cases (in_turn sleeps (register_writer writer d).0).active_writer) [
      | inl e ↦ ground arith
      | inr (w, e) ↦ ground arith
    ]
