-- ===== src/Program/Main/Reachable.antt =====
-- The invariant of the process in every state that it reaches.
use dnp3_bridge.Base.{◌≡◌, refl, sym, subst, Bool, true, false, List, [], ◌∷◌, if◌then◌else◌, arith}
use dnp3_bridge.Double.{Double}
use dnp3_bridge.Outstation.Flags.{AnalogQuality}
use dnp3_bridge.Bridge.{Bridge, start_bridge, stop_bridge}
use dnp3_bridge.Base.{String}
use dnp3_bridge.Config.{AppConfig}
use dnp3_bridge.Config.Loader.{Json, FileContents, Environment}
use dnp3_bridge.Points.Database.{PointDefaults}
use dnp3_bridge.Points.Validate.{Formatting}
use dnp3_bridge.Program.{Program, up, launch, boot}
use dnp3_bridge.Program.Launching.{boot-up}
use dnp3_bridge.Program.Main.{
  new_process, Place, polling, stopping_server, stopping_bridge, joining_bridge,
  stopping_outstation, joining_server, leaving_server, leaving_bridge, leaving_outstation, ended,
  Process, Event, signal, sigpipe, sigint, sigterm, main_turn, wake, flush_one, wait_over,
  apply_update, built, after_stop, handle_signal, main_step, step, run,
}
use dnp3_bridge.Program.Main.Invariant.{
  is_polling, BridgeAt, ServerAt, build_server-ServerAt, end_wait-ServerAt, stop_server-ServerAt,
  enqueue-BridgeAt, wake_thread-BridgeAt, flush_update-BridgeAt,
}
use dnp3_bridge.Program.Main.Moves.{
  move-BridgeAt, move-ServerAt, shut_outstation-BridgeAt, joined-BridgeAt, after_join-elim,
  after_server-elim,
}

pub record Inv {D : Type 0} (p : Place) (s : Process D) : Type 0 where
  pub bridge : BridgeAt p s.program.bridge
  pub server : ServerAt p s.program.server
  pub asked : is_polling p ≡ false → s.requested ≡ true

poll-Inv :
    {D : Type 0} (r : Bool) (s : Process D)
    → s.requested ≡ r
    → s.place ≡ polling
    → Inv polling s
    → let s' = if r then record s { place = stopping_server } else s in Inv s'.place s'
poll-Inv true s r e i = record {
  bridge = move-BridgeAt refl refl refl i.bridge;
  server = move-ServerAt refl i.server;
  asked = λ h. r;
}
poll-Inv false s r e i = subst (λ p. Inv p s) (sym e) i

module _ (f : Double) (q : AnalogQuality) where
  open f use {D}

  asked-BridgeAt :
      (b : Bridge D)
      → BridgeAt stopping_bridge b
      → let r = b.running in BridgeAt (after_stop b.running) (stop_bridge f q b)
  unfolding stop_bridge
  asked-BridgeAt b i = rw (i.runs) (record {
    runs = refl;
    there = i.there;
    alive = λ h. absurd (cc);
    joined = λ h. absurd (cc);
    off = λ h. absurd (cc);
  })

  pub stop_bridge-stopped : (b : Bridge D) → b.running ≡ false → stop_bridge f q b ≡ b
  unfolding stop_bridge
  stop_bridge-stopped b h = ground arith

  main_step-Inv :
      (p : Place) (s : Process D)
      → s.place ≡ p
      → Inv p s
      → let s' = main_step f q p s in Inv s'.place s'
  unfolding main_step
  main_step-Inv polling s e i = poll-Inv s.requested s refl e i
  main_step-Inv stopping_server s e i = record {
    bridge = move-BridgeAt refl refl refl i.bridge;
    server = move-ServerAt refl (stop_server-ServerAt stopping_server s.program.server i.server);
    asked = i.asked;
  }
  main_step-Inv stopping_bridge s e i = record {
    bridge = asked-BridgeAt s.program.bridge i.bridge;
    server = rw (i.bridge.runs) (move-ServerAt refl i.server);
    asked = λ h. i.asked refl;
  }
  main_step-Inv joining_bridge s e i =
      after_join-elim (λ p. Inv p (record s { place = p })) s.program.bridge.thread
        (λ h. record {
          bridge = joined-BridgeAt i.bridge h;
          server = move-ServerAt refl i.server;
          asked = i.asked;
        })
        (record { bridge = i.bridge; server = i.server; asked = i.asked })
  main_step-Inv stopping_outstation s e i = record {
    bridge = shut_outstation-BridgeAt stopping_outstation joining_server _ refl refl i.bridge;
    server = move-ServerAt refl i.server;
    asked = i.asked;
  }
  main_step-Inv joining_server s e i =
      after_server-elim (λ p. Inv p (record s { place = p })) s.program.server.thread
        (λ h. record {
          bridge = move-BridgeAt refl refl refl i.bridge;
          server = record { unbuilt = i.server.unbuilt; set = i.server.set; over = λ k. h };
          asked = i.asked;
        })
        (record { bridge = i.bridge; server = i.server; asked = i.asked })
  main_step-Inv leaving_server s e i = record {
    bridge = move-BridgeAt refl refl refl i.bridge;
    server = move-ServerAt refl (stop_server-ServerAt leaving_server s.program.server i.server);
    asked = i.asked;
  }
  main_step-Inv leaving_bridge s e i = record {
    bridge =
        subst (BridgeAt leaving_outstation)
          (sym (stop_bridge-stopped s.program.bridge i.bridge.runs))
          (move-BridgeAt refl refl refl i.bridge);
    server = move-ServerAt refl i.server;
    asked = i.asked;
  }
  main_step-Inv leaving_outstation s e i = record {
    bridge = shut_outstation-BridgeAt leaving_outstation ended _ refl refl i.bridge;
    server = move-ServerAt refl i.server;
    asked = i.asked;
  }
  main_step-Inv ended s e i = subst (λ p. Inv p s) (sym e) i

  pub step-Inv :
      (e : Event D) (s : Process D) → Inv s.place s → let s' = step f q e s in Inv s'.place s'
  unfolding step handle_signal
  step-Inv (signal sigpipe) s i = i
  step-Inv (signal sigint) s i = record { bridge = i.bridge; server = i.server; asked = λ h. refl }
  step-Inv (signal sigterm) s i = record { bridge = i.bridge; server = i.server; asked = λ h. refl }
  step-Inv main_turn s i = main_step-Inv s.place s refl i
  step-Inv (apply_update u) s i = record {
    bridge = enqueue-BridgeAt f q u s.place s.program.bridge i.bridge;
    server = i.server;
    asked = i.asked;
  }
  step-Inv wake s i = record {
    bridge =
        wake_thread-BridgeAt f q s.program.bridge.thread s.place s.program.bridge refl i.bridge;
    server = i.server;
    asked = i.asked;
  }
  step-Inv flush_one s i = record {
    bridge =
        flush_update-BridgeAt f q s.program.bridge.thread s.place s.program.bridge refl i.bridge;
    server = i.server;
    asked = i.asked;
  }
  step-Inv (built ok) s i = record {
    bridge = i.bridge;
    server =
        build_server-ServerAt s.program.server.thread ok s.place s.program.server refl i.server;
    asked = i.asked;
  }
  step-Inv wait_over s i = record {
    bridge = i.bridge;
    server = end_wait-ServerAt s.program.server.thread s.place s.program.server refl i.server;
    asked = i.asked;
  }

  pub run-Inv :
      (es : List (Event D)) (s : Process D)
      → Inv s.place s
      → let s' = run f q s es in Inv s'.place s'
  unfolding run
  run-Inv [] s i = i
  run-Inv (e ∷ es) s i = run-Inv es (step f q e s) (step-Inv e s i)

  module _ (json : Json f.D) (l : Formatting) (defaults : PointDefaults f.D) where
    open json use {J}

    launch-Inv : (cfg : AppConfig D) → Inv polling (new_process (launch f q json l defaults cfg))
    unfolding launch start_bridge
    launch-Inv cfg = record {
      bridge = record {
        runs = refl;
        there = refl;
        alive = λ h. refl;
        joined = λ h. absurd (cc);
        off = λ h. absurd (cc);
      };
      server = record { unbuilt = λ h. refl; set = λ h. absurd (cc); over = λ h. absurd (cc) };
      asked = λ h. absurd (cc);
    }

    pub boot-Inv :
        (env : Environment) (read : String → FileContents J) (args : List String) (p : Program D)
        → boot f q json l defaults env read args ≡ up p
        → Inv polling (new_process p)
    boot-Inv env read args p h =
        let (e, valid, same) = boot-up f q json l defaults env read args p h in
        subst (λ r. Inv polling (new_process r)) (sym same) (launch-Inv p.config)
