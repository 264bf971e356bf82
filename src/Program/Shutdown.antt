-- ===== src/Program/Shutdown.antt =====
-- The shutdown, src/main.cpp.
use dnp3_bridge.Base.{
  ℕ, zero, suc, ◌≤◌, ◌≡◌, refl, sym, ap, ◌∙◌, subst, String, true, false, List, [], ◌∷◌, map, All,
  arith,
}
use dnp3_bridge.Double.{Double}
use dnp3_bridge.Config.{AppConfig}
use dnp3_bridge.Config.Loader.{Json, FileContents, Environment}
use dnp3_bridge.Points.Database.{PointDefaults}
use dnp3_bridge.Points.Validate.{Formatting}
use dnp3_bridge.Outstation.Flags.{AnalogQuality}
use dnp3_bridge.Outstation.Updates.{OutstationManager, drain}
use dnp3_bridge.Outstation.Updates.Delivery.{content, expected_write, drain-content}
use dnp3_bridge.Outstation.Lifecycle.{new_manager, start as start_outstation, shutdown}
use dnp3_bridge.Bridge.{
  FlushThread, no_thread, waiting, returned, flushing, Bridge, Event, apply_update, start, stop,
  wake, flush_one, has_stopped, new_bridge, enqueue, start_bridge, wake_thread, flush_update, step,
  run,
}
use dnp3_bridge.Bridge.Queue.{
  accepted, run-fifo, run-IsDrained, new_bridge-IsDrained, IsDrained, step-IsDrained,
}
use dnp3_bridge.Bridge.Shutdown.{turn, flush_rounds, rounds_left, stop-drains}
use dnp3_bridge.Program.{Program, up, launch, boot, shut_down}
use dnp3_bridge.Program.Launching.{boot-up}

-- What happens to the bridge between its start and its stop.
abbrev pub IsBetween : {D : Type 0} → Event D → Type 0
IsBetween (apply_update u) = Unit {0}
IsBetween start = ⊥
IsBetween stop = ⊥
IsBetween wake = Unit {0}
IsBetween flush_one = Unit {0}

module _ (f : Double) (q : AnalogQuality) where
  open f use {D}

  abbrev IsAlive : Bridge D → Type 0
  IsAlive b = (b.running ≡ true) × (has_stopped b.thread ≡ false)

  wake_thread-IsAlive :
      (t : FlushThread D) (b : Bridge D) → IsAlive b → b.thread ≡ t → IsAlive (wake_thread f q t b)
  unfolding wake_thread
  wake_thread-IsAlive waiting b (r, a) e = ground arith
  wake_thread-IsAlive no_thread b v e = v
  wake_thread-IsAlive returned b v e = v
  wake_thread-IsAlive (flushing batch) b v e = v

  flush_update-IsAlive :
      (t : FlushThread D) (b : Bridge D) → IsAlive b → b.thread ≡ t → IsAlive (flush_update f q t b)
  unfolding flush_update
  flush_update-IsAlive (flushing []) b (r, a) e = (r, refl)
  flush_update-IsAlive (flushing (u ∷ batch)) b (r, a) e = (r, refl)
  flush_update-IsAlive waiting b v e = v
  flush_update-IsAlive no_thread b v e = v
  flush_update-IsAlive returned b v e = v

  run-IsAlive :
      (es : List (Event D)) (b : Bridge D) → All IsBetween es → IsAlive b → IsAlive (run f q b es)
  unfolding run step enqueue
  run-IsAlive [] b h v = v
  run-IsAlive (apply_update u ∷ es) b h v = run-IsAlive es (enqueue f q u b) h.1 v
  run-IsAlive (start ∷ es) b h v = absurd h.0
  run-IsAlive (stop ∷ es) b h v = absurd h.0
  run-IsAlive (wake ∷ es) b h v =
      run-IsAlive es (wake_thread f q b.thread b) h.1 (wake_thread-IsAlive b.thread b v refl)
  run-IsAlive (flush_one ∷ es) b h v =
      run-IsAlive es (flush_update f q b.thread b) h.1 (flush_update-IsAlive b.thread b v refl)

  flush_rounds-IsDrained :
      (n : ℕ) (m : OutstationManager D) (b : Bridge D)
      → IsDrained f q m b
      → IsDrained f q m (flush_rounds f q n b)
  flush_rounds-IsDrained zero m b d = d
  flush_rounds-IsDrained (suc n) m b d =
      flush_rounds-IsDrained n m (step f q (turn b.thread) b)
        (step-IsDrained f q m (turn b.thread) b d)

  abbrev stopped : ℕ → Bridge D → Bridge D
  stopped n b = flush_rounds f q n (step f q stop b)

  -- From the start of the bridge to the join.
  lifetime :
      (n : ℕ) (m : OutstationManager D) (es : List (Event D))
      → m.outstation ≡ true
      → All IsBetween es
      → let b = run f q (start_bridge f q (new_bridge f q m)) es in
        rounds_left b.thread b.queue ≤ n
        → ((stopped n b).thread ≡ returned)
          × ((stopped n b).queue ≡ [])
          × (map content (stopped n b).applied ≡ map (expected_write q) (accepted es))
  unfolding start_bridge step run drain
  lifetime n m es on between enough =
      let b₀ = start_bridge f q (new_bridge f q m) in
      let b = run f q b₀ es in
      let (r, alive) = run-IsAlive es b₀ between (refl, refl) in
      let (ended, empty, all) = stop-drains f q n b r alive enough in
      let fifo = run-fifo f q (start ∷ es) m in
      let drained : IsDrained f q m (stopped n b) = flush_rounds-IsDrained n m (step f q stop b) (
        step-IsDrained f q m stop b
          (run-IsDrained f q m (start ∷ es) (new_bridge f q m) (new_bridge-IsDrained f q m))) in
      (
        ended,
        empty,
        ap (λ p. map content p.1) (sym drained)
            ∙ (drain-content f q (stopped n b).delivered m on
                ∙ ap (map (expected_write q)) (all ∙ fifo)),
      )

module _ (f : Double) (q : AnalogQuality) (json : Json f.D) (l : Formatting)
    (defaults : PointDefaults f.D) where
  open f use {D}
  open json use {J}

  launch-bridge :
      (p : Program D)
      → p ≡ launch f q json l defaults p.config
      → p.bridge
        ≡ start_bridge f q (new_bridge f q (start_outstation defaults p.config new_manager).0)
  unfolding launch
  launch-bridge p same = ap (λ r. r.bridge) same

  started : (cfg : AppConfig D) → (start_outstation defaults cfg new_manager).0.outstation ≡ true
  unfolding start_outstation
  started cfg = refl

  -- If the program comes up, and then any events of the bridge happen except another start or stop,
  -- and the flush thread gets at least rounds_left rounds after bridge.stop(): at the end that thread
  -- has returned, the queue is empty, every update that applyUpdate took has been handed to the
  -- outstation, in order, with its value and the flags of its quality, and the outstation is down.
  shut_down-delivers :
      (env : Environment) (read : String → FileContents J) (args : List String) (p : Program D)
      (es : List (Event D)) (n : ℕ)
      → boot f q json l defaults env read args ≡ up p
      → All IsBetween es
      → rounds_left (run f q p.bridge es).thread (run f q p.bridge es).queue ≤ n
      → let p' = shut_down f q json l defaults n (record p { bridge = run f q p.bridge es }) in
        (p'.bridge.thread ≡ returned)
        × (p'.bridge.queue ≡ [])
        × (map content p'.bridge.applied ≡ map (expected_write q) (accepted es))
        × (p'.bridge.outstation.outstation ≡ false)
  unfolding shut_down shutdown step
  shut_down-delivers env read args p es n h between enough =
      let (e, valid, same) = boot-up f q json l defaults env read args p h in
      let m = (start_outstation defaults p.config new_manager).0 in
      let bridge = launch-bridge p same in
      let (ended, empty, all) =
        subst
          (λ b.
            rounds_left (run f q b es).thread (run f q b es).queue ≤ n
            → ((stopped f q n (run f q b es)).thread ≡ returned)
              × ((stopped f q n (run f q b es)).queue ≡ [])
              × (map content (stopped f q n (run f q b es)).applied
                  ≡ map (expected_write q) (accepted es)))
          (sym bridge) (lifetime f q n m es (started p.config) between) enough in
      (ended, empty, all, refl)
