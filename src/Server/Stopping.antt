-- ===== src/Server/Stopping.antt =====
-- stop() and the thread of start(), src/grpc/GrpcServer.cpp.
use dnp3_bridge.Base.{◌≡◌, refl, ◌∙◌, ap, Bool, true, false, List, [], ◌∷◌, ◌++◌, All}
use dnp3_bridge.Server.{
  ServerThread, building, waiting, returned, GrpcServer, Event, built, wait_over, stop, new_server,
  build_server, end_wait, stop_server, step, run,
}

abbrev pub IsNotStop : Event → Type 0
IsNotStop stop = ⊥
IsNotStop (built ok) = Unit {0}
IsNotStop wait_over = Unit {0}

-- Where the thread of start() is without a stop(): the first result of BuildAndStart decides.
abbrev pub unstopped : ServerThread → List Event → ServerThread
unstopped waiting es = waiting
unstopped returned es = returned
unstopped building [] = building
unstopped building (built true ∷ es) = waiting
unstopped building (built false ∷ es) = returned
unstopped building (wait_over ∷ es) = unstopped building es
unstopped building (stop ∷ es) = unstopped building es

-- The end of a thread that was in the given place when stop() came.
abbrev pub stopped : ServerThread → List Event → ServerThread
stopped waiting es = returned
stopped returned es = returned
stopped building es = unstopped building es

-- The server before a stop(), by where the thread is.
abbrev pub server_at : ServerThread → GrpcServer
server_at building = new_server
server_at waiting = record { server = true; shut = false; thread = waiting }
server_at returned = record { server = false; shut = false; thread = returned }

run-unstopped :
    (t : ServerThread) (es : List Event)
    → All IsNotStop es
    → run (server_at t) es ≡ server_at (unstopped t es)
unfolding run step build_server end_wait
run-unstopped building [] h = refl
run-unstopped building (built true ∷ es) h = run-unstopped waiting es h.1
run-unstopped building (built false ∷ es) h = run-unstopped returned es h.1
run-unstopped building (wait_over ∷ es) h = run-unstopped building es h.1
run-unstopped building (stop ∷ es) h = absurd h.0
run-unstopped waiting [] h = refl
run-unstopped waiting (built ok ∷ es) h = run-unstopped waiting es h.1
run-unstopped waiting (wait_over ∷ es) h = run-unstopped waiting es h.1
run-unstopped waiting (stop ∷ es) h = absurd h.0
run-unstopped returned [] h = refl
run-unstopped returned (built ok ∷ es) h = run-unstopped returned es h.1
run-unstopped returned (wait_over ∷ es) h = run-unstopped returned es h.1
run-unstopped returned (stop ∷ es) h = absurd h.0

run-append : (s : GrpcServer) (es fs : List Event) → run s (es ++ fs) ≡ run (run s es) fs
unfolding run
run-append s [] fs = refl
run-append s (e ∷ es) fs = run-append (step e s) es fs

abbrev shut_at : ServerThread → GrpcServer
shut_at t = record { server = true; shut = true; thread = t }

run-returned : (es : List Event) → All IsNotStop es → run (shut_at returned) es ≡ shut_at returned
unfolding run step build_server end_wait
run-returned [] h = refl
run-returned (built ok ∷ es) h = run-returned es h.1
run-returned (wait_over ∷ es) h = run-returned es h.1
run-returned (stop ∷ es) h = absurd h.0

run-shut :
    (es : List Event)
    → All IsNotStop es
    → run (shut_at waiting) (es ++ wait_over ∷ []) ≡ shut_at returned
unfolding run step build_server end_wait
run-shut [] h = refl
run-shut (built ok ∷ es) h = run-shut es h.1
run-shut (wait_over ∷ es) h =
    run-append (shut_at returned) es (wait_over ∷ []) ∙ ap (step wait_over) (run-returned es h.1)
run-shut (stop ∷ es) h = absurd h.0

unstopped-last :
    (es : List Event) → unstopped building (es ++ wait_over ∷ []) ≡ unstopped building es
unstopped-last [] = refl
unstopped-last (built true ∷ es) = refl
unstopped-last (built false ∷ es) = refl
unstopped-last (wait_over ∷ es) = unstopped-last es
unstopped-last (stop ∷ es) = unstopped-last es

All-last : (es : List Event) → All IsNotStop es → All IsNotStop (es ++ wait_over ∷ [])
All-last [] h = (tt, tt)
All-last (e ∷ es) h = (h.0, All-last es h.1)

pub thread-server_at : (t : ServerThread) → (server_at t).thread ≡ t
thread-server_at building = refl
thread-server_at waiting = refl
thread-server_at returned = refl

step-stopped :
    (t : ServerThread) (fs : List Event)
    → All IsNotStop fs
    → (run (step stop (server_at t)) (fs ++ wait_over ∷ [])).thread ≡ stopped t fs
unfolding step stop_server
step-stopped waiting fs h = ap (λ s. s.thread) (run-shut fs h)
step-stopped returned fs h = ap (λ s. s.thread) (run-unstopped returned _ (All-last fs h))
step-stopped building fs h =
    ap (λ s. s.thread) (run-unstopped building (fs ++ wait_over ∷ []) (All-last fs h))
    ∙ (thread-server_at _ ∙ unstopped-last fs)

pub unstopped-cons :
    (e : Event) (t : ServerThread) (es : List Event)
    → unstopped t (e ∷ es) ≡ unstopped (unstopped t (e ∷ [])) es
unstopped-cons (built true) building es = refl
unstopped-cons (built false) building es = refl
unstopped-cons wait_over building es = refl
unstopped-cons stop building es = refl
unstopped-cons e waiting es = refl
unstopped-cons e returned es = refl

pub unstopped-nil : (t : ServerThread) → unstopped t [] ≡ t
unstopped-nil building = refl
unstopped-nil waiting = refl
unstopped-nil returned = refl

pub build_server-unstopped :
    (ok : Bool) (t : ServerThread)
    → build_server t ok (server_at t) ≡ server_at (unstopped t (built ok ∷ []))
unfolding build_server
build_server-unstopped true building = refl
build_server-unstopped false building = refl
build_server-unstopped ok waiting = refl
build_server-unstopped ok returned = refl

pub end_wait-unstopped :
    (t : ServerThread) → end_wait t (server_at t) ≡ server_at (unstopped t (wait_over ∷ []))
unfolding end_wait
end_wait-unstopped building = refl
end_wait-unstopped waiting = refl
end_wait-unstopped returned = refl

pub stop_server-returned : stop_server (server_at returned) ≡ server_at returned
unfolding stop_server
stop_server-returned = refl

-- However the one stop() meets the thread of start(), and with Wait looked at once more at the end:
-- if the server was up when stop() came, or had failed to start, the thread has returned; if it was
-- still being built, stop() is lost, and the thread is where it would be without it: it waits for
-- ever if BuildAndStart succeeds.
run-stop :
    (es fs : List Event)
    → All IsNotStop es
    → All IsNotStop fs
    → (run new_server (es ++ stop ∷ (fs ++ wait_over ∷ []))).thread
      ≡ stopped (unstopped building es) fs
unfolding run
run-stop es fs h k =
    ap (λ s. s.thread)
      (run-append new_server es (stop ∷ (fs ++ wait_over ∷ []))
        ∙ ap (λ s. run (step stop s) (fs ++ wait_over ∷ [])) (run-unstopped building es h))
    ∙ step-stopped (unstopped building es) fs k
