-- ===== src/Program/Main/Invariant.antt =====
-- What holds of the bridge and of the server at each place of the main thread.
use dnp3_bridge.Base.{◌≡◌, refl, ap, Bool, true, false, not, [], ◌∷◌, arith}
use dnp3_bridge.Double.{Double}
use dnp3_bridge.DataModel.{PointUpdate}
use dnp3_bridge.Outstation.Flags.{AnalogQuality}
use dnp3_bridge.Bridge.{
  FlushThread, no_thread, Bridge, has_stopped, enqueue, stop_bridge, wake_thread, flush_update,
}
use dnp3_bridge.Bridge
use dnp3_bridge.Server.{
  ServerThread, building, waiting, returned, GrpcServer, new_server, build_server, end_wait,
  stop_server,
}
use dnp3_bridge.Program.Main.{
  Place, polling, stopping_server, stopping_bridge, joining_bridge, stopping_outstation,
  joining_server,
}

-- Whether bridge.stop() has cleared running_.
abbrev pub has_asked : Place → Bool
has_asked polling = false
has_asked stopping_server = false
has_asked stopping_bridge = false
has_asked _ = true

abbrev pub has_joined : Place → Bool
has_joined joining_bridge = false
has_joined p = has_asked p

-- Whether outstation.shutdown() has run.
abbrev pub is_shut_down : Place → Bool
is_shut_down stopping_outstation = false
is_shut_down p = has_joined p

-- Whether grpc_thread has been joined.
abbrev pub has_joined_server : Place → Bool
has_joined_server joining_server = false
has_joined_server p = is_shut_down p

abbrev pub is_polling : Place → Bool
is_polling polling = true
is_polling _ = false

-- Whether server.stop() has returned.
abbrev pub has_asked_server : Place → Bool
has_asked_server polling = false
has_asked_server stopping_server = false
has_asked_server _ = true

abbrev pub is_there : {D : Type 0} → FlushThread D → Bool
is_there no_thread = false
is_there _ = true

pub record BridgeAt {D : Type 0} (p : Place) (b : Bridge D) : Type 0 where
  pub runs : b.running ≡ not (has_asked p)
  pub there : is_there b.thread ≡ true
  pub alive : has_asked p ≡ false → has_stopped b.thread ≡ false
  pub joined : has_joined p ≡ true → b.thread ≡ Bridge.returned
  pub off : is_shut_down p ≡ true → b.outstation.outstation ≡ false

pub record ServerAt (p : Place) (s : GrpcServer) : Type 0 where
  pub unbuilt : s.thread ≡ building → s ≡ new_server
  pub set : s.thread ≡ waiting → s.server ≡ true
  pub over : has_joined_server p ≡ true → s.thread ≡ returned

shut_down-joined : (p : Place) → is_shut_down p ≡ true → has_joined p ≡ true
shut_down-joined stopping_outstation h = absurd (cc)
shut_down-joined _ h = h

joined_server-shut_down : (p : Place) → has_joined_server p ≡ true → is_shut_down p ≡ true
joined_server-shut_down joining_server h = absurd (cc)
joined_server-shut_down _ h = h

pub build_server-ServerAt :
    (t : ServerThread) (ok : Bool) (p : Place) (s : GrpcServer)
    → s.thread ≡ t
    → ServerAt p s
    → ServerAt p (build_server t ok s)
unfolding build_server
build_server-ServerAt building true p s e i = record {
  unbuilt = λ h. absurd (cc);
  set = λ h. refl;
  over = λ h. absurd (ground (arith, i.over h));
}
build_server-ServerAt building false p s e i = record {
  unbuilt = λ h. absurd (cc);
  set = λ h. absurd (cc);
  over = λ h. refl;
}
build_server-ServerAt _ ok p s e i = i

pub end_wait-ServerAt :
    (t : ServerThread) (p : Place) (s : GrpcServer)
    → s.thread ≡ t
    → ServerAt p s
    → ServerAt p (end_wait t s)
unfolding end_wait
end_wait-ServerAt waiting p s e i = record {
  unbuilt = λ h. absurd (ground (arith, e));
  set = λ h. ground (arith, i.set e);
  over = λ h. ground (arith, i.over h);
}
end_wait-ServerAt _ p s e i = i

pub stop_server-ServerAt : (p : Place) (s : GrpcServer) → ServerAt p s → ServerAt p (stop_server s)
unfolding stop_server
stop_server-ServerAt p s i = record {
  unbuilt = λ h. ap stop_server (i.unbuilt (ground arith));
  set = λ h. ground (arith, i.set);
  over = λ h. ground (arith, i.over h);
}

module _ (f : Double) (q : AnalogQuality) where
  open f use {D}

  pub enqueue-BridgeAt :
      (u : PointUpdate D) (p : Place) (b : Bridge D) → BridgeAt p b → BridgeAt p (enqueue f q u b)
  unfolding enqueue
  enqueue-BridgeAt u p b i = record {
    runs = i.runs;
    there = i.there;
    alive = i.alive;
    joined = i.joined;
    off = i.off;
  }

  pub wake_thread-BridgeAt :
      (t : FlushThread D) (p : Place) (b : Bridge D)
      → b.thread ≡ t
      → BridgeAt p b
      → BridgeAt p (wake_thread f q t b)
  unfolding wake_thread
  wake_thread-BridgeAt Bridge.waiting p b e i = record {
    runs = ground (arith, i.runs);
    there = ground (arith, i.there);
    alive = λ h. ground (arith, i.alive h, i.runs);
    joined = λ h. ground (arith, i.joined h);
    off = λ h. ground (arith, i.off h);
  }
  wake_thread-BridgeAt _ p b e i = i

  pub flush_update-BridgeAt :
      (t : FlushThread D) (p : Place) (b : Bridge D)
      → b.thread ≡ t
      → BridgeAt p b
      → BridgeAt p (flush_update f q t b)
  unfolding flush_update
  flush_update-BridgeAt (Bridge.flushing []) p b e i = record {
    runs = i.runs;
    there = refl;
    alive = λ h. refl;
    joined = λ h. ground (arith, i.joined h);
    off = i.off;
  }
  flush_update-BridgeAt (Bridge.flushing (u ∷ batch)) p b e i = record {
    runs = i.runs;
    there = refl;
    alive = λ h. refl;
    joined = λ h. ground (arith, i.joined h);
    off = λ h. absurd (ground (arith, i.joined (shut_down-joined p h)));
  }
  flush_update-BridgeAt _ p b e i = i
