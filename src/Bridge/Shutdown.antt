-- ===== src/Bridge/Shutdown.antt =====
-- stop() and the flush thread's last rounds, src/bridge/Bridge.cpp.
use dnp3_bridge.Base.{
  ℕ, zero, suc, ◌+◌, ◌-◌, ◌≤◌, ◌≡◌, refl, sym, ap, subst, ◌∙◌, true, false, List, [], ◌∷◌, ◌++◌,
  append-nil, length, arith,
}
use dnp3_bridge.Double.{Double}
use dnp3_bridge.DataModel.{PointUpdate}
use dnp3_bridge.Outstation.Flags.{AnalogQuality}
use dnp3_bridge.Bridge.{
  FlushThread, no_thread, waiting, returned, flushing, Bridge, Event, wake, flush_one, has_stopped,
  stop, wake_thread, flush_update, stop_bridge, step,
}
use dnp3_bridge.Bridge.Queue.{batch_of, held, wake_thread-held, flush_update-held}

-- The flush thread's next event.
abbrev pub turn : {D : Type 0} → FlushThread D → Event D
turn (flushing batch) = flush_one
turn _ = wake

module _ {D : Type 0} where
  -- The rounds from the wait to the return, once running_ is false.
  abbrev pub wait_rounds : List (PointUpdate D) → ℕ
  wait_rounds [] = 1
  wait_rounds (u ∷ queue) = length (u ∷ queue) + 3

  abbrev pub rounds_left : FlushThread D → List (PointUpdate D) → ℕ
  rounds_left waiting queue = wait_rounds queue
  rounds_left (flushing batch) queue = length batch + 1 + wait_rounds queue
  rounds_left _ queue = 0

  -- A thread that has returned left the queue empty.
  abbrev pub IsClean : FlushThread D → List (PointUpdate D) → Type 0
  IsClean no_thread queue = ⊥
  IsClean returned queue = queue ≡ []
  IsClean _ queue = Unit {0}

  alive-IsClean :
      (t : FlushThread D) (queue : List (PointUpdate D)) → has_stopped t ≡ false → IsClean t queue
  alive-IsClean no_thread queue h = cc
  alive-IsClean returned queue h = cc
  alive-IsClean waiting queue h = tt
  alive-IsClean (flushing batch) queue h = tt

module _ (f : Double) (q : AnalogQuality) where
  open f use {D}

  abbrev pub flush_rounds : ℕ → Bridge D → Bridge D
  flush_rounds zero b = b
  flush_rounds (suc n) b = flush_rounds n (step f q (turn b.thread) b)

  -- One round of a stopping bridge.
  abbrev Round : FlushThread D → List (PointUpdate D) → Bridge D → Type 0
  Round t queue b' =
      (b'.running ≡ false)
      × (rounds_left b'.thread b'.queue ≤ rounds_left t queue - 1)
      × IsClean b'.thread b'.queue

  wake-Round :
      (queue : List (PointUpdate D)) (b : Bridge D)
      → b.running ≡ false
      → b.queue ≡ queue
      → Round waiting queue (wake_thread f q waiting b)
  unfolding wake_thread
  wake-Round [] b r e = ground arith
  wake-Round (u ∷ queue) b r e = ground arith

  flush-Round :
      (batch queue : List (PointUpdate D)) (b : Bridge D)
      → b.running ≡ false
      → b.queue ≡ queue
      → Round (flushing batch) queue (flush_update f q (flushing batch) b)
  unfolding flush_update
  flush-Round [] queue b r e = ground arith
  flush-Round (u ∷ batch) queue b r e = ground arith

  abbrev next : FlushThread D → Bridge D → Bridge D
  next (flushing batch) b = flush_update f q (flushing batch) b
  next no_thread b = wake_thread f q no_thread b
  next waiting b = wake_thread f q waiting b
  next returned b = wake_thread f q returned b

  step-next : (t : FlushThread D) (b : Bridge D) → b.thread ≡ t → step f q (turn t) b ≡ next t b
  unfolding step
  step-next (flushing batch) b e = ap (λ t. flush_update f q t b) e
  step-next no_thread b e = ap (λ t. wake_thread f q t b) e
  step-next waiting b e = ap (λ t. wake_thread f q t b) e
  step-next returned b e = ap (λ t. wake_thread f q t b) e

  next-Round :
      (t : FlushThread D) (b : Bridge D)
      → b.thread ≡ t
      → b.running ≡ false
      → IsClean t b.queue
      → Round t b.queue (next t b) × (held f q (next t b) ≡ held f q b)
  unfolding wake_thread
  next-Round no_thread b e r c = absurd c
  next-Round returned b e r c = (
    (r, omega (arith, ap (λ t. rounds_left t b.queue) e), subst (λ t. IsClean t b.queue) (sym e) c),
    refl,
  )
  next-Round waiting b e r c = (wake-Round b.queue b r refl, wake_thread-held f q waiting b e)
  next-Round (flushing batch) b e r c =
      (flush-Round batch b.queue b r refl, flush_update-held f q (flushing batch) b e)

  any-Round :
      (b : Bridge D)
      → b.running ≡ false
      → IsClean b.thread b.queue
      → let b' = step f q (turn b.thread) b in
        Round b.thread b.queue b' × (held f q b' ≡ held f q b)
  any-Round b r c =
      subst (λ b'. Round b.thread b.queue b' × (held f q b' ≡ held f q b))
        (sym (step-next b.thread b refl)) (next-Round b.thread b refl r c)

  wait_rounds-pos : (queue : List (PointUpdate D)) → 1 ≤ wait_rounds queue
  wait_rounds-pos [] = omega arith
  wait_rounds-pos (u ∷ queue) = omega arith

  ended :
      (t : FlushThread D) (b : Bridge D)
      → b.thread ≡ t
      → IsClean t b.queue
      → rounds_left t b.queue ≤ 0
      → (b.thread ≡ returned) × (b.queue ≡ []) × (b.delivered ≡ held f q b)
  ended no_thread b e c h = absurd c
  ended waiting b e c h = absurd (omega (arith, wait_rounds-pos b.queue))
  ended (flushing batch) b e c h = absurd (omega arith)
  ended returned b e c h = (e, c, ground (arith, append-nil b.delivered))

  -- Once running_ is false and its thread is still there, the flush thread needs no more rounds than
  -- this to return, and when it has, the queue is empty and everything that was in its batch or in
  -- the queue has been delivered, in order, behind what had been before.
  pub flush_rounds-end :
      (n : ℕ) (b : Bridge D)
      → b.running ≡ false
      → IsClean b.thread b.queue
      → rounds_left b.thread b.queue ≤ n
      → let b' = flush_rounds n b in
        (b'.thread ≡ returned) × (b'.queue ≡ []) × (b'.delivered ≡ held f q b)
  flush_rounds-end zero b r c h = ended b.thread b refl c h
  flush_rounds-end (suc n) b r c h =
      let ((r', less, c'), same) = any-Round b r c in
      let (done, empty, all) =
        flush_rounds-end n (step f q (turn b.thread) b) r' c' (omega arith) in
      (done, empty, all ∙ same)

  -- When stop() is called on a bridge whose flush thread waits or flushes, the thread returns after
  -- finitely many rounds of its own, so that the join ends; by then the queue is empty and all that
  -- was in the batch or the queue has been delivered, in order.
  pub stop-drains :
      (n : ℕ) (b : Bridge D)
      → b.running ≡ true
      → has_stopped b.thread ≡ false
      → rounds_left b.thread b.queue ≤ n
      → let b' = flush_rounds n (step f q stop b) in
        (b'.thread ≡ returned)
        × (b'.queue ≡ [])
        × (b'.delivered ≡ b.delivered ++ (batch_of b.thread ++ b.queue))
  unfolding step stop_bridge
  stop-drains n b r alive h = rw r (
      flush_rounds-end n (record b { running = false }) refl (alive-IsClean b.thread b.queue alive)
        h)
