-- ===== src/Program/Main/Deliveries.antt =====
-- The updates that a bridge has taken and delivered, src/bridge/Bridge.cpp.
use dnp3_bridge.Base.{
  ◌≡◌, refl, sym, ap, ◌∙◌, Bool, true, false, not, ◌&&◌, List, [], ◌∷◌, ◌++◌, append_assoc,
  append-nil, arith, if◌then◌else◌,
}
use dnp3_bridge.Double.{Double}
use dnp3_bridge.DataModel.{PointUpdate}
use dnp3_bridge.Outstation.Flags.{AnalogQuality}
use dnp3_bridge.Outstation.Updates.{OutstationManager, visit, drain}
use dnp3_bridge.Points.Config.{is_empty}
use dnp3_bridge.Bridge.{
  FlushThread, waiting, returned, flushing, Bridge, has_stopped, enqueue, stop_bridge, wake_thread,
  flush_update,
}
use dnp3_bridge.Bridge.Queue.{held, drain-snoc, enqueue-held, flush_update-held}
use dnp3_bridge.Program.Main.{shut_outstation}

pub if-elim {ℓ} :
    {X : Type ℓ} {x y : X} (A : X → Type ℓ) (c : Bool)
    → (c ≡ true → A x)
    → (c ≡ false → A y)
    → A (if c then x else y)
if-elim A true h k = h refl
if-elim A false h k = k refl

module _ (f : Double) (q : AnalogQuality) (m : OutstationManager f.D) where
  open f use {D}

  -- From a state in which `base` had been taken to one in which `us` have been taken since.
  pub record Delivers (base us : List (PointUpdate D)) (b : Bridge D) : Type 0 where
    pub applied : (drain f q b.delivered m).1 ≡ b.applied
    pub outstation : has_stopped b.thread ≡ false → (drain f q b.delivered m).0 ≡ b.outstation
    pub all : has_stopped b.thread ≡ false → held f q b ≡ base ++ us
    pub rest :
        b.thread ≡ returned
        → (more : List (PointUpdate D)) × (b.delivered ≡ base ++ more) × (more ++ b.queue ≡ us)

  pub enqueue-Delivers :
      {base us : List (PointUpdate D)} (u : PointUpdate D) (b : Bridge D)
      → Delivers base us b
      → Delivers base (us ++ u ∷ []) (enqueue f q u b)
  unfolding enqueue
  enqueue-Delivers {base} {us} u b i = record {
    applied = i.applied;
    outstation = i.outstation;
    all = λ h.
        enqueue-held f q u b ∙ (ap (λ vs. vs ++ u ∷ []) (i.all h) ∙ append_assoc base us (u ∷ []));
    rest = λ h.
        let (more, e, k) = i.rest h in
        (more, e, sym (append_assoc more b.queue (u ∷ [])) ∙ ap (λ vs. vs ++ u ∷ []) k);
  }

  return-Delivers :
      {base us : List (PointUpdate D)} (b : Bridge D)
      → b.thread ≡ waiting
      → b.queue ≡ []
      → Delivers base us b
      → Delivers base us (record b { thread = returned })
  return-Delivers {base} {us} b e k i = record {
    applied = i.applied;
    outstation = λ h. absurd (cc);
    all = λ h. absurd (cc);
    rest = λ h. (us, ground (arith, i.all, append-nil b.delivered), ground (arith, append-nil us));
  }

  take-Delivers :
      {base us : List (PointUpdate D)} (b : Bridge D)
      → b.thread ≡ waiting
      → Delivers base us b
      → Delivers base us (record b { thread = flushing b.queue; queue = [] })
  take-Delivers b e i = record {
    applied = i.applied;
    outstation = λ h. i.outstation (ground arith);
    all = λ h. ground (arith, i.all, append-nil b.queue);
    rest = λ h. absurd (cc);
  }

  pub wake_thread-Delivers :
      {base us : List (PointUpdate D)} (t : FlushThread D) (b : Bridge D)
      → b.thread ≡ t
      → Delivers base us b
      → Delivers base us (wake_thread f q t b)
  unfolding wake_thread
  wake_thread-Delivers {base} {us} waiting b e i =
      if-elim (Delivers base us) (not b.running && is_empty b.queue)
        (λ h. return-Delivers b e (ground arith) i)
        (λ h. if-elim (Delivers base us) (is_empty b.queue) (λ k. i) (λ k. take-Delivers b e i))
  wake_thread-Delivers _ b e i = i

  pub flush_update-Delivers :
      {base us : List (PointUpdate D)} (t : FlushThread D) (b : Bridge D)
      → b.thread ≡ t
      → Delivers base us b
      → Delivers base us (flush_update f q t b)
  unfolding flush_update
  flush_update-Delivers (flushing []) b e i = record {
    applied = i.applied;
    outstation = λ h. i.outstation (ground arith);
    all = λ h. flush_update-held f q (flushing []) b e ∙ i.all (ground arith);
    rest = λ h. absurd (cc);
  }
  flush_update-Delivers {base} {us} (flushing (u ∷ batch)) b e i =
      let state = i.outstation (ground arith) in
      let last = drain-snoc f q b.delivered u m in
      record {
        applied = ap (λ r. r.1) last ∙ rw (i.applied, state) refl;
        outstation = λ h. ap (λ r. r.0) last ∙ ap (λ s. (visit f q u s).0) state;
        all = λ h. flush_update-held f q (flushing (u ∷ batch)) b e ∙ i.all (ground arith);
        rest = λ h. absurd (cc);
      }
  flush_update-Delivers _ b e i = i

  pub stop_bridge-Delivers :
      {base us : List (PointUpdate D)} (b : Bridge D)
      → Delivers base us b
      → Delivers base us (stop_bridge f q b)
  unfolding stop_bridge
  stop_bridge-Delivers {base} {us} b i =
      if-elim (Delivers base us) b.running
        (λ h. record { applied = i.applied; outstation = i.outstation; all = i.all; rest = i.rest })
        (λ h. i)

  pub shut_outstation-Delivers :
      {base us : List (PointUpdate D)} (b : Bridge D)
      → b.thread ≡ returned
      → Delivers base us b
      → Delivers base us (shut_outstation b)
  unfolding shut_outstation
  shut_outstation-Delivers b e i = record {
    applied = i.applied;
    outstation = λ h. absurd (ground (arith, e));
    all = λ h. absurd (ground (arith, e));
    rest = i.rest;
  }

  -- From a state of the running bridge on, the updates are counted anew.
  pub from-here :
      {us : List (PointUpdate D)} (b : Bridge D)
      → has_stopped b.thread ≡ false
      → Delivers [] us b
      → Delivers us [] b
  from-here {us} b h i = record {
    applied = i.applied;
    outstation = i.outstation;
    all = λ k. i.all k ∙ sym (append-nil us);
    rest = λ k. absurd (ground arith);
  }
