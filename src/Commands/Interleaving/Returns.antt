-- ===== src/Commands/Interleaving/Returns.antt =====
-- Every call of dispatch returns, whatever the other threads do.
use dnp3_bridge.Base.{
  ◌^◌, ◌+◌, ◌≢◌, ℕ, suc, ◌≤◌, ◌<◌, ◌≡◌, refl, inl, inr, Option, Option-cases, none, some, List, [],
  ◌∷◌, ◌++◌, arith, nat_eq, beq_refl,
}
use dnp3_bridge.Commands.Message.{CommandStatus, CommandRequest, success, timeout}
use dnp3_bridge.Commands.Dispatcher.{Dispatcher, WriteOutcome, store_promise, give_up}
use dnp3_bridge.Commands.Interleaving.{
  Phase, begin, initial, begin_call, idle, numbered, stored, awaiting, expired, threw, returned,
  System, Event, store, write, ready, expire, abandon, set_phase, store_call, after_write,
  write_call, collect_call, expire_call, abandon_call, step, run,
}
use dnp3_bridge.Commands.Interleaving.Pending.{store-never_throws}
use dnp3_bridge.Commands.Interleaving.Progress.{
  rank, rank-awaiting, rank-answer, IsPast, run-IsPast,
}

module _ {D : Type 0} (t : ℕ) where
  set_phase-own :
      (n : ℕ) (p : Phase) (d : Dispatcher) (s : System D)
      → t < s.started
      → n ≤ rank p (s.calls t).answer
      → IsPast t n (set_phase t p (record s { dispatcher = d }))
  set_phase-own n p d s begun h = (begun, ground (arith, beq_refl t))

  store_call-own :
      (p : Phase) (s : System D)
      → (s.calls t).phase ≡ p
      → IsPast t 1 s
      → IsPast t 2 (store_call p t s)
  unfolding store_call
  store_call-own numbered s e (begun, h) =
      elim (Option-cases (store_promise (s.calls t).request.command_id t s.dispatcher)) [
        | inl taken ↦
            rw (taken, store_call) (set_phase-own 2 threw s.dispatcher s begun (omega arith))
        | inr (d, kept) ↦ rw (kept, store_call) (set_phase-own 2 stored d s begun (omega arith))
      ]
  store_call-own idle s e (begun, h) = ground arith
  store_call-own stored s e (begun, h) = ground arith
  store_call-own awaiting s e (begun, h) = ground arith
  store_call-own expired s e (begun, h) = ground arith
  store_call-own threw s e (begun, h) = ground arith
  store_call-own (returned status) s e (begun, h) = ground arith

  after_write-own :
      (r : Dispatcher × Option CommandStatus) (s : System D)
      → t < s.started
      → IsPast t 3 (after_write t r s)
  after_write-own (d, none) s begun =
      set_phase-own 3 awaiting d s begun (rank-awaiting (s.calls t).answer)
  after_write-own (d, some status) s begun =
      set_phase-own 3 (returned status) d s begun (omega arith)

  write_call-own :
      (p : Phase) (o : WriteOutcome) (s : System D)
      → (s.calls t).phase ≡ p
      → IsPast t 2 s
      → IsPast t 3 (write_call p t o s)
  unfolding write_call
  write_call-own stored o s e (begun, h) = after_write-own _ s begun
  write_call-own idle o s e (begun, h) = ground arith
  write_call-own numbered o s e (begun, h) = ground arith
  write_call-own awaiting o s e (begun, h) =
      (begun, ground (arith, rank-awaiting (s.calls t).answer))
  write_call-own expired o s e (begun, h) = ground arith
  write_call-own threw o s e (begun, h) = ground arith
  write_call-own (returned status) o s e (begun, h) = ground arith

  collect_call-own :
      (p : Phase) (a : Option CommandStatus) (s : System D)
      → (s.calls t).phase ≡ p
      → (s.calls t).answer ≡ a
      → IsPast t 4 s
      → IsPast t 5 (collect_call p a t s)
  unfolding collect_call
  collect_call-own awaiting (some status) s e k (begun, h) =
      set_phase-own 5 (returned status) s.dispatcher s begun (omega arith)
  collect_call-own awaiting none s e k (begun, h) = ground arith
  collect_call-own idle a s e k (begun, h) = ground arith
  collect_call-own numbered a s e k (begun, h) = ground arith
  collect_call-own stored a s e k (begun, h) = ground arith
  collect_call-own expired a s e k (begun, h) = ground arith
  collect_call-own threw a s e k (begun, h) = ground arith
  collect_call-own (returned status) a s e k (begun, h) = ground arith

  expire_call-own :
      (p : Phase) (a : Option CommandStatus) (s : System D)
      → (s.calls t).phase ≡ p
      → (s.calls t).answer ≡ a
      → IsPast t 3 s
      → IsPast t 4 (expire_call p a t s)
  unfolding expire_call
  expire_call-own awaiting none s e k (begun, h) =
      set_phase-own 4 expired s.dispatcher s begun (omega arith)
  expire_call-own awaiting (some status) s e k (begun, h) = ground arith
  expire_call-own idle a s e k (begun, h) = ground arith
  expire_call-own numbered a s e k (begun, h) = ground arith
  expire_call-own stored a s e k (begun, h) = ground arith
  expire_call-own expired a s e k (begun, h) = ground arith
  expire_call-own threw a s e k (begun, h) = ground arith
  expire_call-own (returned status) a s e k (begun, h) = ground arith

  abandon_call-own :
      (p : Phase) (s : System D)
      → (s.calls t).phase ≡ p
      → IsPast t 5 s
      → IsPast t 6 (abandon_call p t s)
  unfolding abandon_call give_up
  abandon_call-own expired s e (begun, h) =
      set_phase-own 6 (returned timeout) (give_up (s.calls t).request.command_id s.dispatcher).0 s
        begun (omega arith)
  abandon_call-own idle s e (begun, h) = ground arith
  abandon_call-own numbered s e (begun, h) = ground arith
  abandon_call-own stored s e (begun, h) = ground arith
  abandon_call-own awaiting s e (begun, h) =
      absurd (ground (arith, rank-answer awaiting (s.calls t).answer success))
  abandon_call-own threw s e (begun, h) = ground arith
  abandon_call-own (returned status) s e (begun, h) = ground arith

  run-append : (es fs : List (Event D)) (s : System D) → run s (es ++ fs) ≡ run (run s es) fs
  unfolding run
  run-append [] fs s = refl
  run-append (e ∷ es) fs s = run-append es fs (step e s)

  -- Anything happens, and then this call has a turn.
  turn :
      (n : ℕ) (es fs : List (Event D)) (e : Event D) (s : System D)
      → ((s' : System D) → IsPast t n s' → IsPast t (suc n) (step e s'))
      → (IsPast t (suc n) (step e (run s es)) → IsPast t 6 (run (step e (run s es)) fs))
      → IsPast t n s
      → IsPast t 6 (run s (es ++ e ∷ fs))
  unfolding run
  turn n es fs e s own after h =
      rw (run-append es (e ∷ fs) s) (after (own (run s es) (run-IsPast t n es s h)))

  -- The turns that the call itself needs, in order, with what happens in between.
  abbrev pub turns : (f0 f1 f2 f3 f4 : List (Event D)) → WriteOutcome → List (Event D)
  turns f0 f1 f2 f3 f4 o =
      f0
      ++ store t ∷ (f1 ++ write t o ∷ (f2 ++ expire t ∷ (f3 ++ ready t ∷ (f4 ++ abandon t ∷ []))))

  turns-IsPast :
      (f0 f1 f2 f3 f4 : List (Event D)) (o : WriteOutcome) (s : System D)
      → IsPast t 1 s
      → IsPast t 6 (run s (turns f0 f1 f2 f3 f4 o))
  unfolding step run
  turns-IsPast f0 f1 f2 f3 f4 o s =
      let last = f4 ++ abandon t ∷ [] in
      let collecting = f3 ++ ready t ∷ last in
      let expiring = f2 ++ expire t ∷ collecting in
      let writing = f1 ++ write t o ∷ expiring in
      turn 1 f0 writing (store t) s (λ s'. store_call-own (s'.calls t).phase s' refl)
        (turn 2 f1 expiring (write t o) _ (λ s'. write_call-own (s'.calls t).phase o s' refl)
          (turn 3 f2 collecting (expire t) _
            (λ s'. expire_call-own (s'.calls t).phase (s'.calls t).answer s' refl refl)
            (turn 4 f3 last (ready t) _
              (λ s'. collect_call-own (s'.calls t).phase (s'.calls t).answer s' refl refl)
              (turn 5 f4 [] (abandon t) _ (λ s'. abandon_call-own (s'.calls t).phase s' refl)
                (λ h. h)))))

finished-returned :
    (p : Phase) (a : Option CommandStatus)
    → 6 ≤ rank p a
    → p ≢ threw
    → (status : CommandStatus) × (p ≡ returned status)
finished-returned (returned status) a h other = (status, refl)
finished-returned threw a h other = absurd (other refl)
finished-returned idle a h other = absurd (omega arith)
finished-returned numbered a h other = absurd (omega arith)
finished-returned stored a h other = absurd (omega arith)
finished-returned awaiting none h other = absurd (omega arith)
finished-returned awaiting (some status) h other = absurd (omega arith)
finished-returned expired a h other = absurd (omega arith)

module _ {D : Type 0} where
  begin_call-IsPast :
      (request : CommandRequest D) (s : System D) → IsPast s.started 1 (step (begin request) s)
  unfolding step begin_call
  begin_call-IsPast request s = (omega arith, ground (arith, beq_refl s.started))

  -- In every interleaving of fewer than 2^64 - 1 calls: a call of dispatch that begins at any point
  -- returns a status to the SCADA once its own thread has had its turns, to store the promise, to
  -- write, whatever Write returns, to end the wait at the deadline, to get the answer and to clean
  -- up, whatever the other calls, Python and the streams do before, between and meanwhile.
  pub dispatch-returns :
      (es f0 f1 f2 f3 f4 : List (Event D)) (request : CommandRequest D) (o : WriteOutcome)
      → (run {D = D} initial
            (es ++ begin request ∷ turns (run {D = D} initial es).started f0 f1 f2 f3 f4 o)).started
          + 1
        < 2 ^ 64
      → let t = (run {D = D} initial es).started in
        let s = run {D = D} initial (es ++ begin request ∷ turns t f0 f1 f2 f3 f4 o) in
        (status : CommandStatus) × ((s.calls t).phase ≡ returned status)
  unfolding run
  dispatch-returns es f0 f1 f2 f3 f4 request o few =
      let s : System D = run initial es in
      let t = s.started in
      let rest = turns t f0 f1 f2 f3 f4 o in
      let past =
        turns-IsPast t f0 f1 f2 f3 f4 o (step (begin request) s) (begin_call-IsPast request s) in
      let end : IsPast t 6 (run initial (es ++ begin request ∷ rest)) =
        rw (run-append t es (begin request ∷ rest) initial) past in
      finished-returned _ _ end.1 (store-never_throws (es ++ begin request ∷ rest) few t)
