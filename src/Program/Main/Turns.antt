-- ===== src/Program/Main/Turns.antt =====
-- The turns of the threads of src/main.cpp, and how far main is from its end.
use dnp3_bridge.Base.{
  ℕ, suc, ◌+◌, ◌≤◌, ◌≡◌, ◌≢◌, refl, ◌⊎◌, inl, inr, true, false, List, [], ◌∷◌, arith,
}
use dnp3_bridge.Double.{Double}
use dnp3_bridge.DataModel.{PointUpdate}
use dnp3_bridge.Outstation.Flags.{AnalogQuality}
use dnp3_bridge.Bridge.{
  Bridge, FlushThread, no_thread, flushing, has_stopped, wake_thread, flush_update, stop_bridge,
}
use dnp3_bridge.Bridge
use dnp3_bridge.Bridge.Shutdown.{rounds_left}
use dnp3_bridge.Server.{
  ServerThread, building, waiting, returned, GrpcServer, end_wait, stop_server,
}
use dnp3_bridge.Program.Main.{
  Place, polling, stopping_server, stopping_bridge, joining_bridge, stopping_outstation,
  joining_server, leaving_server, leaving_bridge, leaving_outstation, ended, Process, Event, wake,
  flush_one, main_step, after_join, after_server,
}
use dnp3_bridge.Program.Main.Invariant.{has_asked_server, ServerAt}
use dnp3_bridge.Program.Main.Reachable.{Inv}

-- The flush thread's next event.
abbrev pub turn : {D : Type 0} → FlushThread D → Event D
turn (flushing batch) = flush_one
turn _ = wake

-- The server has been built or has failed, and if server.stop() has run while it was up, the stop was
-- not lost.
abbrev pub CanEnd : Place → GrpcServer → Type 0
CanEnd p s =
    (s.thread ≢ building) × (has_asked_server p ≡ true → s.thread ≡ waiting → s.shut ≡ true)

abbrev pub places_left : Place → ℕ
places_left polling = 9
places_left stopping_server = 8
places_left stopping_bridge = 7
places_left joining_bridge = 6
places_left stopping_outstation = 5
places_left joining_server = 4
places_left leaving_server = 3
places_left leaving_bridge = 2
places_left leaving_outstation = 1
places_left ended = 0

abbrev pub server_left : ServerThread → ℕ
server_left returned = 0
server_left _ = 1

-- The rounds that main needs to its end, once the signal has come.
abbrev pub left : {D : Type 0} → Process D → ℕ
left s =
    places_left s.place
    + rounds_left s.program.bridge.thread s.program.bridge.queue
    + server_left s.program.server.thread

pub end_wait-left :
    (t : ServerThread) (s : GrpcServer)
    → s.thread ≡ t
    → (server_left (end_wait t s).thread ≤ server_left t)
      × (t ≡ waiting → s.shut ≡ true → server_left (end_wait t s).thread ≡ 0)
unfolding end_wait
end_wait-left waiting s e = ground arith
end_wait-left building s e = ground arith
end_wait-left returned s e = ground arith

module _ (f : Double) (q : AnalogQuality) where
  open f use {D}

  -- One round of the flush thread.
  abbrev pub flush_turn : FlushThread D → Bridge D → Bridge D
  flush_turn (flushing batch) b = flush_update f q (flushing batch) b
  flush_turn t b = wake_thread f q t b

  pub flush_turn-left :
      (t : FlushThread D) (queue : List (PointUpdate D)) (b : Bridge D)
      → b.thread ≡ t
      → b.queue ≡ queue
      → let b' = flush_turn t b in
        (rounds_left b'.thread b'.queue ≤ rounds_left t queue)
        × (b.running ≡ false
            → has_stopped t ≡ false
            → suc (rounds_left b'.thread b'.queue) ≤ rounds_left t queue)
  unfolding wake_thread flush_update
  flush_turn-left no_thread queue b e k = ground arith
  flush_turn-left Bridge.returned queue b e k = ground arith
  flush_turn-left Bridge.waiting [] b e k = ground arith
  flush_turn-left Bridge.waiting (u ∷ queue) b e k = ground arith
  flush_turn-left (flushing []) queue b e k = ground arith
  flush_turn-left (flushing (u ∷ batch)) queue b e k = ground arith

  -- A turn of the main thread leaves the other threads where they are.
  pub main_step-threads :
      (p : Place) (s : Process D)
      → let s' = main_step f q p s in
        (s'.program.bridge.thread ≡ s.program.bridge.thread)
        × (s'.program.bridge.queue ≡ s.program.bridge.queue)
        × (s'.program.server.thread ≡ s.program.server.thread)
        × (s'.requested ≡ s.requested)
  unfolding main_step stop_bridge stop_server
  main_step-threads polling s = ground arith
  main_step-threads stopping_server s = ground arith
  main_step-threads stopping_bridge s = ground arith
  main_step-threads leaving_server s = ground arith
  main_step-threads leaving_bridge s = ground arith
  main_step-threads _ s = ground arith

  -- The main thread goes on, or waits for a thread that is about to return.
  abbrev pub Progress : Place → Process D → Type 0
  Progress p s =
      (suc (places_left s.place) ≤ places_left p)
      ⊎ ((places_left s.place ≤ places_left p)
          × (((s.program.bridge.running ≡ false) × (has_stopped s.program.bridge.thread ≡ false))
              ⊎ ((s.program.server.thread ≡ waiting) × (s.program.server.shut ≡ true))
              ⊎ (p ≡ ended)))

  join-Progress :
      (t : FlushThread D) (s : Process D)
      → s.program.bridge.thread ≡ t
      → s.program.bridge.running ≡ false
      → Progress joining_bridge (record s { place = after_join t })
  join-Progress no_thread s e r = inl (ground arith)
  join-Progress Bridge.returned s e r = inl (ground arith)
  join-Progress Bridge.waiting s e r = inr (ground arith)
  join-Progress (flushing batch) s e r = inr (ground arith)

  join_server-Progress :
      (t : ServerThread) (s : Process D)
      → s.program.server.thread ≡ t
      → CanEnd joining_server s.program.server
      → Progress joining_server (record s { place = after_server t })
  join_server-Progress returned s e c = inl (ground arith)
  join_server-Progress building s e c = absurd (c.0 e)
  join_server-Progress waiting s e c = inr (omega arith, inr (inl (e, c.1 refl e)))

  pub main_step-Progress :
      (p : Place) (s : Process D)
      → s.place ≡ p
      → Inv p s
      → s.requested ≡ true
      → CanEnd p s.program.server
      → Progress p (main_step f q p s)
  unfolding main_step
  main_step-Progress polling s e i r c = inl (ground arith)
  main_step-Progress stopping_server s e i r c = inl (ground arith)
  main_step-Progress stopping_bridge s e i r c = inl (ground (arith, i.bridge.runs))
  main_step-Progress joining_bridge s e i r c =
      join-Progress s.program.bridge.thread s refl i.bridge.runs
  main_step-Progress stopping_outstation s e i r c = inl (ground arith)
  main_step-Progress joining_server s e i r c =
      join_server-Progress s.program.server.thread s refl c
  main_step-Progress leaving_server s e i r c = inl (ground arith)
  main_step-Progress leaving_bridge s e i r c = inl (ground arith)
  main_step-Progress leaving_outstation s e i r c = inl (ground arith)
  main_step-Progress ended s e i r c = inr (ground arith)

  stop_server-CanEnd :
      (s : GrpcServer) (p p' : Place) → ServerAt p s → CanEnd p s → CanEnd p' (stop_server s)
  unfolding stop_server
  stop_server-CanEnd s p p' i (b, c) = ground (arith, i.set)

  pub main_step-CanEnd :
      (p : Place) (s : Process D)
      → s.place ≡ p
      → Inv p s
      → CanEnd p s.program.server
      → let s' = main_step f q p s in CanEnd s'.place s'.program.server
  unfolding main_step
  main_step-CanEnd polling s e i c = ground arith
  main_step-CanEnd stopping_server s e i c =
      stop_server-CanEnd s.program.server stopping_server stopping_bridge i.server c
  main_step-CanEnd stopping_bridge s e i c = (c.0, λ h. c.1 refl)
  main_step-CanEnd joining_bridge s e i c = (c.0, λ h. c.1 refl)
  main_step-CanEnd stopping_outstation s e i c = c
  main_step-CanEnd joining_server s e i c = (c.0, λ h. c.1 refl)
  main_step-CanEnd leaving_server s e i c =
      stop_server-CanEnd s.program.server leaving_server leaving_bridge i.server c
  main_step-CanEnd leaving_bridge s e i c = c
  main_step-CanEnd leaving_outstation s e i c = c
  main_step-CanEnd ended s e i c = ground arith
