-- ===== src/Program/Main/Ending.antt =====
-- That main comes to its end.
use dnp3_bridge.Base.{
  ℕ, zero, suc, ◌+◌, ◌-◌, ◌≤◌, ◌≡◌, refl, ap, ◌∙◌, subst, String, inl, inr, true, false, List, [],
  ◌∷◌, arith,
}
use dnp3_bridge.Double.{Double}
use dnp3_bridge.Config.Loader.{Json, FileContents, Environment}
use dnp3_bridge.Points.Database.{PointDefaults}
use dnp3_bridge.Points.Validate.{Formatting}
use dnp3_bridge.Outstation.Flags.{AnalogQuality}
use dnp3_bridge.Bridge.{
  Bridge, FlushThread, no_thread, flushing, has_stopped, wake_thread, flush_update,
}
use dnp3_bridge.Bridge
use dnp3_bridge.Bridge.Shutdown.{rounds_left}
use dnp3_bridge.Server.{ServerThread, building, waiting, returned, GrpcServer, end_wait}
use dnp3_bridge.Program.{Program, up, boot}
use dnp3_bridge.Program.Main.{
  Place, ended, Process, Event, main_turn, wait_over, new_process, main_step, set_bridge, step, run,
}
use dnp3_bridge.Program.Main.Reachable.{Inv, run-Inv, boot-Inv}
use dnp3_bridge.Program.Main.Turns.{
  turn, CanEnd, places_left, server_left, left, end_wait-left, flush_turn, flush_turn-left,
  main_step-threads, Progress, main_step-Progress, main_step-CanEnd,
}

places_left-ended : (p : Place) → places_left p ≤ 0 → p ≡ ended
places_left-ended ended h = refl
places_left-ended _ h = absurd (omega arith)

module _ (f : Double) (q : AnalogQuality) where
  open f use {D}

  -- A turn of each thread.
  abbrev pub round : Process D → Process D
  round s =
      let s₁ = step f q main_turn s in run f q s₁ (turn s₁.program.bridge.thread ∷ wait_over ∷ [])

  abbrev pub rounds : ℕ → Process D → Process D
  rounds zero s = s
  rounds (suc n) s = rounds n (round s)

  turn-flush_turn :
      (t : FlushThread D) (s : Process D)
      → s.program.bridge.thread ≡ t
      → step f q (turn t) s ≡ set_bridge (flush_turn f q t s.program.bridge) s
  unfolding step
  turn-flush_turn (flushing batch) s e =
      ap (λ t. set_bridge (flush_update f q t s.program.bridge) s) e
  turn-flush_turn no_thread s e = ap (λ t. set_bridge (wake_thread f q t s.program.bridge) s) e
  turn-flush_turn Bridge.waiting s e = ap (λ t. set_bridge (wake_thread f q t s.program.bridge) s) e
  turn-flush_turn Bridge.returned s e =
      ap (λ t. set_bridge (wake_thread f q t s.program.bridge) s) e

  end_wait-CanEnd :
      (p : Place) (t : ServerThread) (s : GrpcServer)
      → s.thread ≡ t
      → CanEnd p s
      → CanEnd p (end_wait t s)
  unfolding end_wait
  end_wait-CanEnd p waiting s e c = ground (arith, c.0, c.1)
  end_wait-CanEnd p building s e c = c
  end_wait-CanEnd p returned s e c = c

  -- The flush thread and the server's thread take their turns.
  others-left :
      (s : Process D)
      → let s' = step f q wait_over (step f q (turn s.program.bridge.thread) s) in
        (s'.place ≡ s.place)
        × (s'.requested ≡ s.requested)
        × (left s' ≤ left s)
        × (s.program.bridge.running ≡ false
            → has_stopped s.program.bridge.thread ≡ false
            → suc (left s') ≤ left s)
        × (s.program.server.thread ≡ waiting
            → s.program.server.shut ≡ true
            → suc (left s') ≤ left s)
        × (CanEnd s.place s.program.server → CanEnd s'.place s'.program.server)
  unfolding step end_wait
  others-left s = rw (turn-flush_turn s.program.bridge.thread s refl) (
      let b = s.program.bridge in
      let (less, strict) = flush_turn-left f q b.thread b.queue b refl refl in
      let (fewer, over) = end_wait-left s.program.server.thread s.program.server refl in
      (
        refl,
        refl,
        omega arith,
        (λ r h. let k = strict r h in omega arith),
        (λ w h. let k = over w h in let j = ap server_left w in omega arith),
        end_wait-CanEnd s.place s.program.server.thread s.program.server refl,
      ))

  -- What main waits for, it gets.
  round-less :
      (n : ℕ) (p : Place) (s : Process D)
      → Progress f q p s
      → (p ≡ ended → left s ≡ 0)
      → n ≤ left s
      → (s.program.bridge.running ≡ false
          → has_stopped s.program.bridge.thread ≡ false
          → suc n ≤ left s)
      → (s.program.server.thread ≡ waiting → s.program.server.shut ≡ true → suc n ≤ left s)
      → n
        ≤ places_left p
          + rounds_left s.program.bridge.thread s.program.bridge.queue
          + server_left s.program.server.thread
          - 1
  round-less n p s (inl h) z less flushed over = omega arith
  round-less n p s (inr (h, inl (r, alive))) z less flushed over =
      let k = flushed r alive in omega arith
  round-less n p s (inr (h, inr (inl (w, shut)))) z less flushed over =
      let k = over w shut in omega arith
  round-less n p s (inr (h, inr (inr e))) z less flushed over = let k = z e in omega arith

  ended-left :
      (p : Place) (s : Process D) → s.place ≡ p → Inv p s → p ≡ ended → left (main_step f q p s) ≡ 0
  unfolding main_step
  ended-left ended s e i h = rw (e, i.bridge.joined refl, i.server.over refl) refl
  ended-left _ s e i h = absurd (cc)

  round-left :
      (s : Process D)
      → Inv s.place s
      → s.requested ≡ true
      → CanEnd s.place s.program.server
      → let s' = round s in
        (s'.requested ≡ true) × CanEnd s'.place s'.program.server × (left s' ≤ left s - 1)
  unfolding run step
  round-left s i r c =
      let s₁ = main_step f q s.place s in
      let (thread, queue, server, asked) = main_step-threads f q s.place s in
      let (place, same, less, flushed, over, can) = others-left s₁ in
      (
        same ∙ (asked ∙ r),
        can (main_step-CanEnd f q s.place s refl i c),
        (let fewer =
              round-less (left (round s)) s.place s₁ (main_step-Progress f q s.place s refl i r c)
                (ended-left s.place s refl i) less flushed over in
            let e : rounds_left s₁.program.bridge.thread s₁.program.bridge.queue
                ≡ rounds_left s.program.bridge.thread s.program.bridge.queue =
              rw (thread, queue) refl in
            let k = ap server_left server in omega arith),
      )

  rounds-end :
      (n : ℕ) (s : Process D)
      → Inv s.place s
      → s.requested ≡ true
      → CanEnd s.place s.program.server
      → left s ≤ n
      → let s' = rounds n s in (s'.place ≡ ended) × Inv s'.place s'
  unfolding run
  rounds-end zero s i r c h = (places_left-ended s.place (omega arith), i)
  rounds-end (suc n) s i r c h =
      let (r', c', less) = round-left s i r c in
      rounds-end n (round s) (run-Inv f q (main_turn ∷ turn _ ∷ wait_over ∷ []) s i) r' c'
        (omega arith)

  module _ (json : Json f.D) (l : Formatting) (defaults : PointDefaults f.D) where
    open json use {J}

    -- After any events of a program that has come up, if a signal has come, the server is not being
    -- built, and server.stop(), if it has run, was not lost: `left` rounds of the threads bring main
    -- to its end. Then the flush thread and the thread of the server have returned, and the
    -- outstation is down.
    pub main-ends :
        (env : Environment) (read : String → FileContents J) (args : List String) (p : Program D)
        (es : List (Event D)) (n : ℕ)
        → boot f q json l defaults env read args ≡ up p
        → let s = run f q (new_process p) es in
          s.requested ≡ true
          → CanEnd s.place s.program.server
          → left s ≤ n
          → let s' = rounds n s in
            (s'.place ≡ ended)
            × (s'.program.bridge.thread ≡ Bridge.returned)
            × (s'.program.server.thread ≡ returned)
            × (s'.program.bridge.outstation.outstation ≡ false)
    main-ends env read args p es n h r c enough =
        let s = run f q (new_process p) es in
        let (e, i) =
          rounds-end n s
            (run-Inv f q es (new_process p) (boot-Inv f q json l defaults env read args p h)) r c
            enough in
        let at : Inv ended (rounds n s) = subst (λ q. Inv q (rounds n s)) e i in
        (e, at.bridge.joined refl, at.server.over refl, at.bridge.off refl)
