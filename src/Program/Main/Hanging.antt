-- ===== src/Program/Main/Hanging.antt =====
-- A stop that comes while the server is being built, src/main.cpp.
use dnp3_bridge.Base.{
  ◌≡◌, refl, sym, ap, ◌∙◌, subst, String, Bool, true, false, List, [], ◌∷◌, arith,
}
use dnp3_bridge.Double.{Double}
use dnp3_bridge.Config.Loader.{Json, FileContents, Environment}
use dnp3_bridge.Points.Database.{PointDefaults}
use dnp3_bridge.Points.Validate.{Formatting}
use dnp3_bridge.Outstation.Flags.{AnalogQuality}
use dnp3_bridge.Server.{
  ServerThread, building, waiting, returned, GrpcServer, build_server, end_wait, stop_server,
}
use dnp3_bridge.Server
use dnp3_bridge.Server.Stopping.{
  unstopped, server_at, thread-server_at, unstopped-cons, unstopped-nil, build_server-unstopped,
  end_wait-unstopped, stop_server-returned,
}
use dnp3_bridge.Program.{Program, up, boot}
use dnp3_bridge.Program.Main.{
  Place, polling, stopping_server, stopping_bridge, joining_bridge, stopping_outstation,
  joining_server, leaving_server, leaving_bridge, leaving_outstation, ended, Process, Event, signal,
  sigpipe, sigint, sigterm, handle_signal, main_turn, wake, flush_one, wait_over, apply_update,
  built, new_process, main_step, after_stop, step, run,
}
use dnp3_bridge.Program.Main.Invariant.{has_asked_server, has_joined_server}
use dnp3_bridge.Program.Main.Reachable.{Inv, run-Inv, boot-Inv}
use dnp3_bridge.Program.Main.Moves.{after_join-elim, after_server-elim}

-- What the thread of the server sees.
abbrev pub server_events : {D : Type 0} → List (Event D) → List Server.Event
server_events [] = []
server_events (built ok ∷ es) = Server.built ok ∷ server_events es
server_events (wait_over ∷ es) = Server.wait_over ∷ server_events es
server_events (_ ∷ es) = server_events es

-- The stop was lost: the server is where it would be without it, and main cannot get past the join.
record LostAt (t : ServerThread) (p : Place) (s : GrpcServer) : Type 0 where
  pub same : s ≡ server_at t
  pub asked : has_asked_server p ≡ true
  pub joined : has_joined_server p ≡ true → t ≡ returned

after_stop-elim :
    (A : Place → Type 0) (b : Bool) → A joining_bridge → A stopping_outstation → A (after_stop b)
after_stop-elim A true x y = x
after_stop-elim A false x y = y

module _ (f : Double) (q : AnalogQuality) where
  open f use {D}

  main_step-LostAt :
      (t : ServerThread) (p : Place) (s : Process D)
      → s.place ≡ p
      → LostAt t p s.program.server
      → let s' = main_step f q p s in LostAt t s'.place s'.program.server
  unfolding main_step
  main_step-LostAt t polling s e i = absurd (ground (arith, i.asked))
  main_step-LostAt t stopping_server s e i = absurd (ground (arith, i.asked))
  main_step-LostAt t stopping_bridge s e i =
      after_stop-elim (λ p. LostAt t p s.program.server) s.program.bridge.running
        (record { same = i.same; asked = refl; joined = λ h. absurd (cc) })
        (record { same = i.same; asked = refl; joined = λ h. absurd (cc) })
  main_step-LostAt t joining_bridge s e i =
      after_join-elim (λ p. LostAt t p s.program.server) s.program.bridge.thread
        (λ h. record { same = i.same; asked = refl; joined = λ h. absurd (cc) }) i
  main_step-LostAt t stopping_outstation s e i = record {
    same = i.same;
    asked = refl;
    joined = λ h. absurd (cc);
  }
  main_step-LostAt t joining_server s e i =
      after_server-elim (λ p. LostAt t p s.program.server) s.program.server.thread
        (λ h. record {
          same = i.same;
          asked = refl;
          joined = λ k. sym (thread-server_at t) ∙ (sym (ap (λ s. s.thread) i.same) ∙ h);
        })
        i
  main_step-LostAt t leaving_server s e i = record {
    same =
        ap stop_server i.same
        ∙ subst (λ u. stop_server (server_at u) ≡ server_at u) (sym (i.joined refl))
            stop_server-returned;
    asked = refl;
    joined = λ h. i.joined refl;
  }
  main_step-LostAt t leaving_bridge s e i = record {
    same = i.same;
    asked = refl;
    joined = λ h. i.joined refl;
  }
  main_step-LostAt t leaving_outstation s e i = record {
    same = i.same;
    asked = refl;
    joined = λ h. i.joined refl;
  }
  main_step-LostAt t ended s e i = subst (λ p. LostAt t p s.program.server) (sym e) i

  -- Where the server's thread is after an event.
  abbrev pub unstopped_by : ServerThread → Event D → ServerThread
  unstopped_by t e = unstopped t (server_events (e ∷ []))

  step-LostAt :
      (e : Event D) (t : ServerThread) (s : Process D)
      → LostAt t s.place s.program.server
      → let s' = step f q e s in LostAt (unstopped_by t e) s'.place s'.program.server
  unfolding step handle_signal
  step-LostAt (built ok) t s i = record {
    same =
        ap (λ g. build_server g.thread ok g) i.same
        ∙ (ap (λ u. build_server u ok (server_at t)) (thread-server_at t)
            ∙ build_server-unstopped ok t);
    asked = i.asked;
    joined = λ h. ap (λ u. unstopped u (Server.built ok ∷ [])) (i.joined h);
  }
  step-LostAt wait_over t s i = record {
    same =
        ap (λ g. end_wait g.thread g) i.same
        ∙ (ap (λ u. end_wait u (server_at t)) (thread-server_at t) ∙ end_wait-unstopped t);
    asked = i.asked;
    joined = λ h. ap (λ u. unstopped u (Server.wait_over ∷ [])) (i.joined h);
  }
  step-LostAt main_turn t s i = rw (unstopped-nil t) (main_step-LostAt t s.place s refl i)
  step-LostAt (signal sigpipe) t s i = rw (unstopped-nil t) i
  step-LostAt (signal sigint) t s i = rw (unstopped-nil t) i
  step-LostAt (signal sigterm) t s i = rw (unstopped-nil t) i
  step-LostAt wake t s i = rw (unstopped-nil t) i
  step-LostAt flush_one t s i = rw (unstopped-nil t) i
  step-LostAt (apply_update u) t s i = rw (unstopped-nil t) i

  unstopped_by-cons :
      (e : Event D) (t : ServerThread) (es : List (Event D))
      → unstopped t (server_events (e ∷ es)) ≡ unstopped (unstopped_by t e) (server_events es)
  unstopped_by-cons (built ok) t es = unstopped-cons (Server.built ok) t (server_events es)
  unstopped_by-cons wait_over t es = unstopped-cons Server.wait_over t (server_events es)
  unstopped_by-cons _ t es = rw (unstopped-nil t) refl

  run-LostAt :
      (es : List (Event D)) (t : ServerThread) (s : Process D)
      → LostAt t s.place s.program.server
      → let s' = run f q s es in LostAt (unstopped t (server_events es)) s'.place s'.program.server
  unfolding run
  run-LostAt [] t s i = rw (unstopped-nil t) i
  run-LostAt (e ∷ es) t s i =
      rw (unstopped_by-cons e t es)
        (run-LostAt es (unstopped_by t e) (step f q e s) (step-LostAt e t s i))

  stop-LostAt :
      (s : Process D)
      → s.place ≡ stopping_server
      → s.program.server.thread ≡ building
      → Inv s.place s
      → let s' = step f q main_turn s in LostAt building s'.place s'.program.server
  unfolding step main_step stop_server
  stop-LostAt s e h i = rw e (record {
    same = ap stop_server (i.server.unbuilt h);
    asked = refl;
    joined = λ k. absurd (cc);
  })

  module _ (json : Json f.D) (l : Formatting) (defaults : PointDefaults f.D) where
    open json use {J}

    -- If a program that has come up gets to server.stop() while BuildAndStart has not returned,
    -- then, whatever happens afterwards, main comes to its end only if the next thing that
    -- BuildAndStart returns is a failure: if it returns a server, main hangs in the join.
    pub main-hangs :
        (env : Environment) (read : String → FileContents J) (args : List String) (p : Program D)
        (es fs : List (Event D))
        → boot f q json l defaults env read args ≡ up p
        → let s = run f q (new_process p) es in
          s.place ≡ stopping_server
          → s.program.server.thread ≡ building
          → (run f q s (main_turn ∷ fs)).place ≡ ended
          → unstopped building (server_events fs) ≡ returned
    unfolding run
    main-hangs env read args p es fs h at b e =
        let s = run f q (new_process p) es in
        let i = run-LostAt fs building (step f q main_turn s) (
          stop-LostAt s at b
            (run-Inv f q es (new_process p) (boot-Inv f q json l defaults env read args p h))) in
        i.joined (rw e refl)
