-- ===== src/Bridge/Queue.antt =====
-- The order of the updates, src/bridge/Bridge.cpp.
use dnp3_bridge.Base.{◌≡◌, refl, sym, ap, ◌∙◌, List, [], ◌∷◌, ◌++◌, append_assoc, append-nil, arith}
use dnp3_bridge.Double.{Double}
use dnp3_bridge.DataModel.{PointUpdate}
use dnp3_bridge.Outstation.Flags.{AnalogQuality}
use dnp3_bridge.Outstation.Updates.{OutstationManager, visit, drain}
use dnp3_bridge.Bridge.{
  FlushThread, no_thread, waiting, returned, flushing, Bridge, Event, apply_update, start, stop,
  wake, flush_one, new_bridge, enqueue, start_bridge, stop_bridge, wake_thread, flush_update, step,
  run,
}

-- The updates that applyUpdate was called with, in order.
abbrev pub accepted : {D : Type 0} → List (Event D) → List (PointUpdate D)
accepted [] = []
accepted (apply_update u ∷ es) = u ∷ accepted es
accepted (start ∷ es) = accepted es
accepted (stop ∷ es) = accepted es
accepted (wake ∷ es) = accepted es
accepted (flush_one ∷ es) = accepted es

-- What the flush thread holds.
abbrev pub batch_of : {D : Type 0} → FlushThread D → List (PointUpdate D)
batch_of (flushing batch) = batch
batch_of no_thread = []
batch_of waiting = []
batch_of returned = []

module _ (f : Double) (q : AnalogQuality) where
  open f use {D}

  abbrev pub held : Bridge D → List (PointUpdate D)
  held b = b.delivered ++ (batch_of b.thread ++ b.queue)

  pub wake_thread-held :
      (t : FlushThread D) (b : Bridge D) → b.thread ≡ t → held (wake_thread f q t b) ≡ held b
  unfolding wake_thread
  wake_thread-held waiting b h = ground (arith, append-nil b.queue)
  wake_thread-held _ b h = refl

  pub flush_update-held :
      (t : FlushThread D) (b : Bridge D) → b.thread ≡ t → held (flush_update f q t b) ≡ held b
  unfolding flush_update
  flush_update-held (flushing []) b h = ground arith
  flush_update-held (flushing (u ∷ batch)) b h =
      ground (arith, append_assoc b.delivered (u ∷ []) (batch ++ b.queue))
  flush_update-held _ b h = refl

  start_bridge-held : (b : Bridge D) → held (start_bridge f q b) ≡ held b
  unfolding start_bridge
  start_bridge-held b = ground arith

  stop_bridge-held : (b : Bridge D) → held (stop_bridge f q b) ≡ held b
  unfolding stop_bridge
  stop_bridge-held b = ground arith

  pub enqueue-held : (u : PointUpdate D) (b : Bridge D) → held (enqueue f q u b) ≡ held b ++ u ∷ []
  unfolding enqueue
  enqueue-held u b = ground (
    arith,
    append_assoc b.delivered (batch_of b.thread ++ b.queue) (u ∷ []),
    append_assoc (batch_of b.thread) b.queue (u ∷ []),
  )

  step-held : (e : Event D) (b : Bridge D) → held (step f q e b) ≡ held b ++ accepted (e ∷ [])
  unfolding step
  step-held (apply_update u) b = enqueue-held u b
  step-held start b = start_bridge-held b ∙ sym (append-nil _)
  step-held stop b = stop_bridge-held b ∙ sym (append-nil _)
  step-held wake b = wake_thread-held b.thread b refl ∙ sym (append-nil _)
  step-held flush_one b = flush_update-held b.thread b refl ∙ sym (append-nil _)

  accepted-cons :
      (e : Event D) (es : List (Event D)) → accepted (e ∷ es) ≡ accepted (e ∷ []) ++ accepted es
  accepted-cons (apply_update u) es = refl
  accepted-cons start es = refl
  accepted-cons stop es = refl
  accepted-cons wake es = refl
  accepted-cons flush_one es = refl

  run-held : (es : List (Event D)) (b : Bridge D) → held (run f q b es) ≡ held b ++ accepted es
  unfolding run
  run-held [] b = sym (append-nil (held b))
  run-held (e ∷ es) b =
      run-held es (step f q e b)
      ∙ (ap (λ h. h ++ accepted es) (step-held e b)
          ∙ (append_assoc (held b) (accepted (e ∷ [])) (accepted es)
              ∙ ap (λ a. held b ++ a) (sym (accepted-cons e es))))

  -- In every interleaving, what was delivered, then what is left of the flush thread's batch, then
  -- the queue, are together the updates that applyUpdate took, in their order: none is lost, made up,
  -- delivered twice or overtaken.
  pub run-fifo :
      (es : List (Event D)) (m : OutstationManager D)
      → let b = run f q (new_bridge f q m) es in
        b.delivered ++ (batch_of b.thread ++ b.queue) ≡ accepted es
  run-fifo es m = run-held es (new_bridge f q m)

  pub drain-snoc :
      (us : List (PointUpdate D)) (u : PointUpdate D) (m : OutstationManager D)
      → let r = drain f q us m in
        let last = visit f q u r.0 in drain f q (us ++ u ∷ []) m ≡ (last.0, r.1 ++ last.1)
  unfolding drain
  drain-snoc [] u m = ground (arith, append-nil (visit f q u m).1)
  drain-snoc (v ∷ us) u m =
      let first = visit f q v m in
      let r = drain f q us first.0 in
      ground (arith, drain-snoc us u first.0, append_assoc first.1 r.1 (visit f q u r.0).1)

  -- The outstation is as if the delivered updates had been drained at once.
  abbrev pub IsDrained : OutstationManager D → Bridge D → Type 0
  IsDrained m b = drain f q b.delivered m ≡ (b.outstation, b.applied)

  flush_update-IsDrained :
      (m : OutstationManager D) (t : FlushThread D) (b : Bridge D)
      → IsDrained m b
      → IsDrained m (flush_update f q t b)
  unfolding flush_update
  flush_update-IsDrained m (flushing []) b h = h
  flush_update-IsDrained m (flushing (u ∷ batch)) b h = drain-snoc b.delivered u m ∙ rw h refl
  flush_update-IsDrained m _ b h = h

  wake_thread-IsDrained :
      (m : OutstationManager D) (t : FlushThread D) (b : Bridge D)
      → IsDrained m b
      → IsDrained m (wake_thread f q t b)
  unfolding wake_thread
  wake_thread-IsDrained m waiting b h = ground arith
  wake_thread-IsDrained m _ b h = h

  pub step-IsDrained :
      (m : OutstationManager D) (e : Event D) (b : Bridge D)
      → IsDrained m b
      → IsDrained m (step f q e b)
  unfolding step enqueue start_bridge stop_bridge
  step-IsDrained m (apply_update u) b h = h
  step-IsDrained m start b h = ground arith
  step-IsDrained m stop b h = ground arith
  step-IsDrained m wake b h = wake_thread-IsDrained m b.thread b h
  step-IsDrained m flush_one b h = flush_update-IsDrained m b.thread b h

  pub run-IsDrained :
      (m : OutstationManager D) (es : List (Event D)) (b : Bridge D)
      → IsDrained m b
      → IsDrained m (run f q b es)
  unfolding run
  run-IsDrained m [] b h = h
  run-IsDrained m (e ∷ es) b h = run-IsDrained m es (step f q e b) (step-IsDrained m e b h)

  pub new_bridge-IsDrained : (m : OutstationManager D) → IsDrained m (new_bridge f q m)
  unfolding drain
  new_bridge-IsDrained m = refl

  -- In every interleaving the outstation's state, and all that its Apply has received, are those of
  -- visiting one after another, from the start, exactly the updates that applyUpdate took and that
  -- are neither in the flush thread's batch nor in the queue.
  pub run-drain :
      (es : List (Event D)) (m : OutstationManager D)
      → let b = run f q (new_bridge f q m) es in
        (us : List (PointUpdate D)) × (us ++ (batch_of b.thread ++ b.queue) ≡ accepted es)
        × (drain f q us m ≡ (b.outstation, b.applied))
  run-drain es m =
      let b = run f q (new_bridge f q m) es in
      (b.delivered, run-fifo es m, run-IsDrained m es (new_bridge f q m) (new_bridge-IsDrained m))
