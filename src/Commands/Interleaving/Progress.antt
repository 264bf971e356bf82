-- ===== src/Commands/Interleaving/Progress.antt =====
-- No call of dispatch goes back, whatever the other threads do.
use dnp3_bridge.Base.{
  ℕ, ◌≤◌, ◌<◌, ◌≡◌, refl, inl, inr, Option, Option-cases, none, some, List, [], ◌∷◌, arith, nat_eq,
}
use dnp3_bridge.Commands.Message.{CommandStatus, timeout}
use dnp3_bridge.Commands.Dispatcher.{Dispatcher, WriteOutcome, store_promise, fulfill, give_up}
use dnp3_bridge.Commands.Interleaving.{
  Phase, idle, numbered, stored, awaiting, expired, threw, returned, Call, System, Event, begin,
  store, write, ready, expire, abandon, respond, open_stream, close_stream, set_call, set_phase,
  begin_call, store_call, after_write, write_call, collect_call, expire_call, abandon_call, deliver,
  respond_call, step, run,
}

-- How far a call has come; a call that has returned or thrown is at 6.
abbrev pub rank : Phase → Option CommandStatus → ℕ
rank idle answer = 0
rank numbered answer = 1
rank stored answer = 2
rank awaiting none = 3
rank awaiting (some status) = 4
rank expired answer = 5
rank threw answer = 6
rank (returned status) answer = 6

pub rank-awaiting : (answer : Option CommandStatus) → 3 ≤ rank awaiting answer
rank-awaiting none = omega arith
rank-awaiting (some status) = omega arith

-- An answer does not take a call back.
pub rank-answer :
    (p : Phase) (answer : Option CommandStatus) (status : CommandStatus)
    → rank p answer ≤ rank p (some status)
rank-answer idle answer status = omega arith
rank-answer numbered answer status = omega arith
rank-answer stored answer status = omega arith
rank-answer awaiting none status = omega arith
rank-answer awaiting (some old) status = omega arith
rank-answer expired answer status = omega arith
rank-answer threw answer status = omega arith
rank-answer (returned old) answer status = omega arith

module _ {D : Type 0} (t : ℕ) where
  abbrev pub rank_of : System D → ℕ
  rank_of s = rank (s.calls t).phase (s.calls t).answer

  -- The call has begun and is at least this far.
  abbrev pub IsPast : ℕ → System D → Type 0
  IsPast n s = (t < s.started) × (n ≤ rank_of s)

  set_call-rank :
      (u : ℕ) (c : Call D) (calls : ℕ → Call D)
      → rank (calls u).phase (calls u).answer ≤ rank c.phase c.answer
      → rank (calls t).phase (calls t).answer
        ≤ rank (set_call u c calls t).phase (set_call u c calls t).answer
  set_call-rank u c calls h = ground arith

  -- No call goes back when call `u` goes on to phase `p`.
  set_phase-IsPast :
      (n u : ℕ) (p : Phase) (d : Dispatcher) (s : System D)
      → rank (s.calls u).phase (s.calls u).answer ≤ rank p (s.calls u).answer
      → IsPast n s
      → IsPast n (set_phase u p (record s { dispatcher = d }))
  set_phase-IsPast n u p d s h (begun, past) =
      (begun, ground (arith, set_call-rank u (record (s.calls u) { phase = p }) s.calls h))

  store_call-IsPast :
      (n u : ℕ) (p : Phase) (s : System D)
      → (s.calls u).phase ≡ p
      → IsPast n s
      → IsPast n (store_call p u s)
  unfolding store_call
  store_call-IsPast n u numbered s e h =
      elim (Option-cases (store_promise (s.calls u).request.command_id u s.dispatcher)) [
        | inl taken ↦
            rw (taken, store_call)
              (set_phase-IsPast n u threw s.dispatcher s (rw e (omega arith)) h)
        | inr (d, kept) ↦
            rw (kept, store_call) (set_phase-IsPast n u stored d s (rw e (omega arith)) h)
      ]
  store_call-IsPast n u _ s e h = h

  after_write-IsPast :
      (n u : ℕ) (r : Dispatcher × Option CommandStatus) (s : System D)
      → (s.calls u).phase ≡ stored
      → IsPast n s
      → IsPast n (after_write u r s)
  after_write-IsPast n u (d, none) s e h =
      set_phase-IsPast n u awaiting d s (ground (arith, rank-awaiting (s.calls u).answer)) h
  after_write-IsPast n u (d, some status) s e h =
      set_phase-IsPast n u (returned status) d s (rw e (omega arith)) h

  write_call-IsPast :
      (n u : ℕ) (p : Phase) (o : WriteOutcome) (s : System D)
      → (s.calls u).phase ≡ p
      → IsPast n s
      → IsPast n (write_call p u o s)
  unfolding write_call
  write_call-IsPast n u stored o s e h = after_write-IsPast n u _ s e h
  write_call-IsPast n u _ o s e h = h

  collect_call-IsPast :
      (n u : ℕ) (p : Phase) (a : Option CommandStatus) (s : System D)
      → (s.calls u).phase ≡ p
      → (s.calls u).answer ≡ a
      → IsPast n s
      → IsPast n (collect_call p a u s)
  unfolding collect_call
  collect_call-IsPast n u awaiting (some status) s e k h =
      set_phase-IsPast n u (returned status) s.dispatcher s (rw (e, k) (omega arith)) h
  collect_call-IsPast n u _ a s e k h = h

  expire_call-IsPast :
      (n u : ℕ) (p : Phase) (a : Option CommandStatus) (s : System D)
      → (s.calls u).phase ≡ p
      → (s.calls u).answer ≡ a
      → IsPast n s
      → IsPast n (expire_call p a u s)
  unfolding expire_call
  expire_call-IsPast n u awaiting none s e k h =
      set_phase-IsPast n u expired s.dispatcher s (rw (e, k) (omega arith)) h
  expire_call-IsPast n u _ a s e k h = h

  abandon_call-IsPast :
      (n u : ℕ) (p : Phase) (s : System D)
      → (s.calls u).phase ≡ p
      → IsPast n s
      → IsPast n (abandon_call p u s)
  unfolding abandon_call give_up
  abandon_call-IsPast n u expired s e h =
      set_phase-IsPast n u (returned timeout)
        (give_up (s.calls u).request.command_id s.dispatcher).0 s (rw e (omega arith)) h
  abandon_call-IsPast n u _ s e h = h

  deliver-IsPast :
      (n : ℕ) (status : CommandStatus) (r : Dispatcher × Option ℕ) (s : System D)
      → IsPast n s
      → IsPast n (deliver status r s)
  deliver-IsPast n status (d, none) s h = h
  deliver-IsPast n status (d, some u) s (begun, h) = (
    begun,
    ground (
      arith,
      set_call-rank u (record (s.calls u) { answer = some status }) s.calls
          (rank-answer (s.calls u).phase (s.calls u).answer status),
    ),
  )

  step-IsPast : (n : ℕ) (e : Event D) (s : System D) → IsPast n s → IsPast n (step e s)
  unfolding step begin_call respond_call
  step-IsPast n (begin request) s (begun, h) = (omega arith, ground arith)
  step-IsPast n (store u) s h = store_call-IsPast n u (s.calls u).phase s refl h
  step-IsPast n (write u o) s h = write_call-IsPast n u (s.calls u).phase o s refl h
  step-IsPast n (ready u) s h =
      collect_call-IsPast n u (s.calls u).phase (s.calls u).answer s refl refl h
  step-IsPast n (expire u) s h =
      expire_call-IsPast n u (s.calls u).phase (s.calls u).answer s refl refl h
  step-IsPast n (abandon u) s h = abandon_call-IsPast n u (s.calls u).phase s refl h
  step-IsPast n (respond id status) s h = deliver-IsPast n status (fulfill id s.dispatcher) s h
  step-IsPast n (open_stream writer) s h = h
  step-IsPast n (close_stream writer) s h = h

  pub run-IsPast : (n : ℕ) (es : List (Event D)) (s : System D) → IsPast n s → IsPast n (run s es)
  unfolding run
  run-IsPast n [] s h = h
  run-IsPast n (e ∷ es) s h = run-IsPast n es (step e s) (step-IsPast n e s h)
