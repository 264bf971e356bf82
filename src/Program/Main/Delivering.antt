-- ===== src/Program/Main/Delivering.antt =====
-- What becomes of the updates that applyUpdate takes, src/main.cpp and src/bridge/Bridge.cpp.
use dnp3_bridge.Base.{
  ◌≡◌, refl, sym, ap, ◌∙◌, subst, String, true, List, [], ◌∷◌, ◌++◌, append_assoc, append-nil, map,
}
use dnp3_bridge.Double.{Double}
use dnp3_bridge.DataModel.{PointUpdate}
use dnp3_bridge.Outstation.Flags.{AnalogQuality}
use dnp3_bridge.Outstation.Updates.{OutstationManager, drain}
use dnp3_bridge.Config.{AppConfig}
use dnp3_bridge.Config.Loader.{Json, FileContents, Environment}
use dnp3_bridge.Points.Database.{PointDefaults}
use dnp3_bridge.Points.Validate.{Formatting}
use dnp3_bridge.Outstation.Updates.Delivery.{content, expected_write, drain-content}
use dnp3_bridge.Outstation.Lifecycle.{start, new_manager}
use dnp3_bridge.Bridge.{new_bridge, start_bridge}
use dnp3_bridge.Program.{Program, up, launch, boot}
use dnp3_bridge.Program.Launching.{boot-up}
use dnp3_bridge.Program.Main.Deliveries.{
  Delivers, if-elim, enqueue-Delivers, wake_thread-Delivers, flush_update-Delivers,
  stop_bridge-Delivers, shut_outstation-Delivers, from-here,
}
use dnp3_bridge.Program.Main.{
  new_process, Place, polling, stopping_bridge, stopping_outstation, leaving_bridge,
  leaving_outstation, ended, Process, Event, signal, sigpipe, sigint, sigterm, handle_signal,
  main_turn, wake, flush_one, apply_update, main_step, step, run,
}
use dnp3_bridge.Program.Main.Reachable.{Inv, step-Inv, run-Inv, boot-Inv}

-- The updates that applyUpdate is called with.
abbrev pub taken : {D : Type 0} → List (Event D) → List (PointUpdate D)
taken [] = []
taken (apply_update u ∷ es) = u ∷ taken es
taken (_ ∷ es) = taken es

module _ (f : Double) (q : AnalogQuality) where
  open f use {D}

  module _ (m : OutstationManager D) where
    main_step-Delivers :
        {base us : List (PointUpdate D)} (p : Place) (s : Process D)
        → Inv p s
        → Delivers f q m base us s.program.bridge
        → Delivers f q m base us (main_step f q p s).program.bridge
    unfolding main_step
    main_step-Delivers {base} {us} polling s v i =
        if-elim {X = Process D} (λ s. Delivers f q m base us s.program.bridge) s.requested (λ h. i)
          (λ h. i)
    main_step-Delivers stopping_bridge s v i = stop_bridge-Delivers f q m s.program.bridge i
    main_step-Delivers stopping_outstation s v i =
        shut_outstation-Delivers f q m s.program.bridge (v.bridge.joined refl) i
    main_step-Delivers leaving_bridge s v i = stop_bridge-Delivers f q m s.program.bridge i
    main_step-Delivers leaving_outstation s v i =
        shut_outstation-Delivers f q m s.program.bridge (v.bridge.joined refl) i
    main_step-Delivers _ s v i = i

    step-Delivers :
        {base us : List (PointUpdate D)} (e : Event D) (s : Process D)
        → Inv s.place s
        → Delivers f q m base us s.program.bridge
        → Delivers f q m base (us ++ taken (e ∷ [])) (step f q e s).program.bridge
    unfolding step handle_signal
    step-Delivers (apply_update u) s v i = enqueue-Delivers f q m u s.program.bridge i
    step-Delivers {base} {us} main_turn s v i =
        rw (append-nil us) (main_step-Delivers s.place s v i)
    step-Delivers {base} {us} wake s v i =
        rw (append-nil us)
          (wake_thread-Delivers f q m s.program.bridge.thread s.program.bridge refl i)
    step-Delivers {base} {us} flush_one s v i =
        rw (append-nil us)
          (flush_update-Delivers f q m s.program.bridge.thread s.program.bridge refl i)
    step-Delivers {base} {us} (signal sigpipe) s v i = rw (append-nil us) i
    step-Delivers {base} {us} (signal sigint) s v i = rw (append-nil us) i
    step-Delivers {base} {us} (signal sigterm) s v i = rw (append-nil us) i
    step-Delivers {base} {us} _ s v i = rw (append-nil us) i

    taken-cons : (e : Event D) (es : List (Event D)) → taken (e ∷ es) ≡ taken (e ∷ []) ++ taken es
    taken-cons (apply_update u) es = refl
    taken-cons _ es = refl

    run-Delivers :
        {base : List (PointUpdate D)} (es : List (Event D)) (us : List (PointUpdate D))
        (s : Process D)
        → Inv s.place s
        → Delivers f q m base us s.program.bridge
        → Delivers f q m base (us ++ taken es) (run f q s es).program.bridge
    unfolding run
    run-Delivers {base} [] us s v i = rw (append-nil us) i
    run-Delivers {base} (e ∷ es) us s v i =
        subst (λ vs. Delivers f q m base vs (run f q (step f q e s) es).program.bridge)
          (append_assoc us (taken (e ∷ [])) (taken es)
            ∙ ap (λ vs. us ++ vs) (sym (taken-cons e es)))
          (run-Delivers es (us ++ taken (e ∷ [])) (step f q e s) (step-Inv f q e s v)
            (step-Delivers e s v i))

    -- Nothing has been taken when the program is up.
    new-Delivers : Delivers f q m [] [] (start_bridge f q (new_bridge f q m))
    unfolding start_bridge drain
    new-Delivers = record {
      applied = refl;
      outstation = λ h. refl;
      all = λ h. refl;
      rest = λ h. absurd (cc);
    }

  module _ (json : Json f.D) (l : Formatting) (defaults : PointDefaults f.D) where
    open json use {J}

    launched :
        (cfg : AppConfig D)
        → let m = (start defaults cfg new_manager).0 in
          (m.outstation ≡ true) × Delivers f q m [] [] (launch f q json l defaults cfg).bridge
    unfolding launch start
    launched cfg = (refl, new-Delivers _)

    -- If a program that has come up takes updates while main polls, and more of them afterwards, and
    -- main comes to its end: all of the former have been delivered, and of the latter those up to
    -- some point, in the order in which they were taken; the rest of them is in the queue. What the
    -- outstation's Apply received are the writes of the delivered updates, each with its value and
    -- the flags of its quality.
    pub main-delivers :
        (env : Environment) (read : String → FileContents J) (args : List String) (p : Program D)
        (es fs : List (Event D))
        → boot f q json l defaults env read args ≡ up p
        → let s = run f q (new_process p) es in
          s.place ≡ polling
          → let s' = run f q s fs in
            s'.place ≡ ended
            → (more : List (PointUpdate D)) × (s'.program.bridge.delivered ≡ taken es ++ more)
              × (more ++ s'.program.bridge.queue ≡ taken fs)
              × (map content s'.program.bridge.applied ≡ map (expected_write q) (taken es ++ more))
    main-delivers env read args p es fs h at e =
        let (c, v, same) = boot-up f q json l defaults env read args p h in
        let m = (start defaults p.config new_manager).0 in
        let (on, new) = launched p.config in
        let up : Delivers f q m [] [] p.bridge =
          subst (λ r. Delivers f q m [] [] r.bridge) (sym same) new in
        let s = run f q (new_process p) es in
        let first = boot-Inv f q json l defaults env read args p h in
        let i = run-Inv f q es (new_process p) first in
        let polled : Delivers f q m (taken es) [] s.program.bridge =
          from-here f q m s.program.bridge (i.bridge.alive (rw at refl))
            (run-Delivers m es [] (new_process p) first up) in
        let last = run-Delivers m fs [] s i polled in
        let (more, delivered, rest) = last.rest ((run-Inv f q fs s i).bridge.joined (rw e refl)) in
        (
          more,
          delivered,
          rest,
          ap (map content) (sym last.applied)
              ∙ (drain-content f q _ m on ∙ ap (map (expected_write q)) delivered),
        )
