-- ===== src/Program/Main/Moves.antt =====
-- What the moves of the main thread leave as it is, src/main.cpp.
use dnp3_bridge.Base.{◌≡◌, refl, ◌∙◌, true, arith}
use dnp3_bridge.Outstation.Lifecycle.{shutdown}
use dnp3_bridge.Bridge.{Bridge, FlushThread, no_thread, has_stopped, start_bridge, stop_bridge}
use dnp3_bridge.Bridge
use dnp3_bridge.Server.{ServerThread, building, waiting, returned, GrpcServer}
use dnp3_bridge.Program.Main.{
  Place, joining_bridge, stopping_outstation, joining_server, leaving_server, after_join,
  after_server, shut_outstation,
}
use dnp3_bridge.Program.Main.Invariant.{
  has_asked, has_joined, is_shut_down, has_joined_server, BridgeAt, ServerAt, is_there,
}

pub move-BridgeAt :
    {D : Type 0} {p p' : Place} {b : Bridge D}
    → has_asked p ≡ has_asked p'
    → has_joined p ≡ has_joined p'
    → is_shut_down p ≡ is_shut_down p'
    → BridgeAt p b
    → BridgeAt p' b
move-BridgeAt a j d i = record {
  runs = ground (arith, i.runs);
  there = i.there;
  alive = λ h. i.alive (a ∙ h);
  joined = λ h. i.joined (j ∙ h);
  off = λ h. i.off (d ∙ h);
}

pub move-ServerAt :
    {p p' : Place} {s : GrpcServer}
    → has_joined_server p ≡ has_joined_server p'
    → ServerAt p s
    → ServerAt p' s
move-ServerAt j i = record { unbuilt = i.unbuilt; set = i.set; over = λ h. i.over (j ∙ h) }

pub shut_outstation-BridgeAt :
    {D : Type 0} (p p' : Place) (b : Bridge D)
    → has_asked p ≡ has_asked p'
    → has_joined p ≡ has_joined p'
    → BridgeAt p b
    → BridgeAt p' (shut_outstation b)
unfolding shut_outstation shutdown
shut_outstation-BridgeAt p p' b a j i = record {
  runs = ground (arith, i.runs);
  there = i.there;
  alive = λ h. i.alive (a ∙ h);
  joined = λ h. i.joined (j ∙ h);
  off = λ h. refl;
}

-- Where the main thread goes from a join.
pub after_join-elim :
    {D : Type 0} (A : Place → Type 0) (t : FlushThread D)
    → (has_stopped t ≡ true → A stopping_outstation)
    → A joining_bridge
    → A (after_join t)
after_join-elim A no_thread x y = x refl
after_join-elim A Bridge.returned x y = x refl
after_join-elim A Bridge.waiting x y = y
after_join-elim A (Bridge.flushing batch) x y = y

pub after_server-elim :
    (A : Place → Type 0) (t : ServerThread)
    → (t ≡ returned → A leaving_server)
    → A joining_server
    → A (after_server t)
after_server-elim A returned x y = x refl
after_server-elim A building x y = y
after_server-elim A waiting x y = y

stopped-returned :
    {D : Type 0} (t : FlushThread D)
    → is_there t ≡ true
    → has_stopped t ≡ true
    → t ≡ Bridge.returned
stopped-returned no_thread h k = absurd (cc)
stopped-returned Bridge.returned h k = refl
stopped-returned Bridge.waiting h k = absurd (cc)
stopped-returned (Bridge.flushing batch) h k = absurd (cc)

pub joined-BridgeAt :
    {D : Type 0} {b : Bridge D}
    → BridgeAt joining_bridge b
    → has_stopped b.thread ≡ true
    → BridgeAt stopping_outstation b
joined-BridgeAt {b} i k = record {
  runs = i.runs;
  there = i.there;
  alive = i.alive;
  joined = λ h. stopped-returned b.thread i.there k;
  off = λ h. absurd (cc);
}
