-- ===== src/Bridge.antt =====
-- src/bridge/Bridge.cpp: the queue between the gRPC threads and the flush thread. A list of events is
-- one interleaving; each event is what happens under one lock of mutex_, or the visit of one update
-- outside it, and an event that cannot happen changes nothing. cv_ only tells the flush thread when
-- to look again: waking it for nothing changes nothing. std::jthread, the mutex and the condition
-- variable are taken as they are documented.
pub mod Queue
pub mod Shutdown
use dnp3_bridge.Base.{
  Bool, true, false, not, ◌&&◌, Option, none, some, List, [], ◌∷◌, ◌++◌, if◌then◌else◌,
}
use dnp3_bridge.Double.{Double}
use dnp3_bridge.DataModel.{PointUpdate}
use dnp3_bridge.Points.Config.{is_empty}
use dnp3_bridge.Outstation.Flags.{AnalogQuality}
use dnp3_bridge.Outstation.Updates.{OutstationManager, Applied, visit}

-- The flush thread: not there, at the wait, in the inner loop with what is left of its batch, or
-- returned from flushLoop.
pub data FlushThread (D : Type 0) : Type 0 where
  no_thread waiting returned : FlushThread D
  flushing : List (PointUpdate D) → FlushThread D

-- `delivered` and `applied` are the updates that were visited and what Apply received for them, both
-- from the start.
pub record Bridge (D : Type 0) : Type 0 where
  pub queue : List (PointUpdate D)
  pub running : Bool
  pub thread : FlushThread D
  pub outstation : OutstationManager D
  pub delivered : List (PointUpdate D)
  pub applied : List (Applied D)

pub data Event (D : Type 0) : Type 0 where
  apply_update : PointUpdate D → Event D
  start stop wake flush_one : Event D

abbrev pub has_stopped : {D : Type 0} → FlushThread D → Bool
has_stopped no_thread = true
has_stopped returned = true
has_stopped _ = false

module _ (f : Double) (q : AnalogQuality) where
  open f use {D}

  abbrev pub new_bridge : OutstationManager D → Bridge D
  new_bridge m = record {
    queue = [];
    running = false;
    thread = no_thread;
    outstation = m;
    delivered = [];
    applied = [];
  }

  unfoldable pub enqueue : PointUpdate D → Bridge D → Bridge D
  enqueue u b = record b { queue = b.queue ++ u ∷ [] }

  -- The program starts the bridge when no flush thread is left over from before.
  unfoldable pub start_bridge : Bridge D → Bridge D
  start_bridge b =
      if b.running
      then b
      else if has_stopped b.thread
      then record b { running = true; thread = waiting }
      else b

  -- stop() up to the join; the join is over when the thread has returned.
  unfoldable pub stop_bridge : Bridge D → Bridge D
  stop_bridge b = if b.running then record b { running = false } else b

  -- The wait and the block after it: return, take the whole queue, or wait on.
  unfoldable pub wake_thread : FlushThread D → Bridge D → Bridge D
  wake_thread waiting b =
      if not b.running && is_empty b.queue
      then record b { thread = returned }
      else if is_empty b.queue
      then b
      else record b { thread = flushing b.queue; queue = [] }
  wake_thread _ b = b

  -- One round of the inner loop, or its end.
  unfoldable pub flush_update : FlushThread D → Bridge D → Bridge D
  flush_update (flushing []) b = record b { thread = waiting }
  flush_update (flushing (u ∷ batch)) b =
      let (m, now) = visit f q u b.outstation in
      record b {
        thread = flushing batch;
        outstation = m;
        delivered = b.delivered ++ u ∷ [];
        applied = b.applied ++ now;
      }
  flush_update _ b = b

  unfoldable pub step : Event D → Bridge D → Bridge D
  unfolding enqueue start_bridge stop_bridge wake_thread flush_update
  step (apply_update u) b = enqueue u b
  step start b = start_bridge b
  step stop b = stop_bridge b
  step wake b = wake_thread b.thread b
  step flush_one b = flush_update b.thread b

  unfoldable pub run : Bridge D → List (Event D) → Bridge D
  unfolding step
  run b [] = b
  run b (e ∷ es) = run (step e b) es
