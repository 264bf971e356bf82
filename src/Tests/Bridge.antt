-- ===== src/Tests/Bridge.antt =====
-- Interleavings of the bridge.
use dnp3_bridge.Base.{◌≡◌, refl, true, Option, ℕ, List, [], ◌∷◌, ◌++◌, arith}
use dnp3_bridge.DataModel.{PointUpdate, good}
use dnp3_bridge.Outstation.Flags.Meaning.{opendnp3_quality}
use dnp3_bridge.Outstation.Updates.{drain}
use dnp3_bridge.Bridge.{
  Bridge, Event, apply_update, start, stop, wake, flush_one, returned, new_bridge, enqueue,
  start_bridge, wake_thread, flush_update, step, run,
}
use dnp3_bridge.Bridge.Queue.{batch_of, run-fifo, run-drain}
use dnp3_bridge.Bridge.Shutdown.{flush_rounds, stop-drains}
use dnp3_bridge.Tests.Sample.{whole, up, send, switch}

-- Two updates are taken in one batch, and one comes while the first of them is delivered.
abbrev events : List (Event (Option ℕ))
events =
    start
    ∷ apply_update (send 2 100 good)
    ∷ apply_update (switch 1 true good)
    ∷ wake
    ∷ flush_one
    ∷ apply_update (send 2 103 good)
    ∷ []

abbrev bridge : Bridge (Option ℕ)
bridge = run whole opendnp3_quality (new_bridge whole opendnp3_quality up) events

run-fifo_example :
    bridge.delivered ++ (batch_of bridge.thread ++ bridge.queue)
    ≡ send 2 100 good ∷ switch 1 true good ∷ send 2 103 good ∷ []
run-fifo_example = run-fifo whole opendnp3_quality events up

run-drain_example :
    (us : List (PointUpdate (Option ℕ))) × (us ++ (batch_of bridge.thread ++ bridge.queue)
      ≡ send 2 100 good ∷ switch 1 true good ∷ send 2 103 good ∷ [])
    × (drain whole opendnp3_quality us up ≡ (bridge.outstation, bridge.applied))
run-drain_example = run-drain whole opendnp3_quality events up

stop-drains_example :
    let b' = flush_rounds whole opendnp3_quality 6 (step whole opendnp3_quality stop bridge) in
    (b'.thread ≡ returned)
    × (b'.queue ≡ [])
    × (b'.delivered ≡ send 2 100 good ∷ switch 1 true good ∷ send 2 103 good ∷ [])
unfolding run step enqueue start_bridge wake_thread flush_update
stop-drains_example = stop-drains whole opendnp3_quality 6 bridge refl refl (omega arith)
