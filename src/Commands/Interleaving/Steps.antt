-- ===== src/Commands/Interleaving/Steps.antt =====
-- The invariant under one event and under many, src/dnp3/CommandDispatcher.cpp.
use dnp3_bridge.Base.{
  ℕ, ◌+◌, ◌^◌, ◌≤◌, ◌<◌, refl, inl, inr, Option, none, some, List, [], ◌∷◌, arith, find, nat_eq,
  Bool-cases,
}
use dnp3_bridge.Commands.Message.{CommandStatus}
use dnp3_bridge.Commands.Dispatcher.{Dispatcher, write_request, is_writer}
use dnp3_bridge.Commands.Interleaving.{
  System, Event, begin, store, write, ready, expire, abandon, respond, open_stream, close_stream,
  initial, begin_call, store_call, after_write, write_call, collect_call, expire_call, abandon_call,
  deliver, respond_call, step, run,
}
use dnp3_bridge.Commands.Interleaving.Invariant.{Inv}
use dnp3_bridge.Commands.Interleaving.Blocks.{
  store_call-Inv, write_call-Inv, collect_call-Inv, expire_call-Inv, abandon_call-Inv,
  respond_call-Inv, begin_call-Inv, writer-Inv,
}

module _ {D : Type 0} where
  -- Each event keeps the invariant while fewer than 2^64 - 1 calls have begun.
  pub step-Inv :
      (e : Event D) (s : System D) → Inv s → (step e s).started + 1 < 2 ^ 64 → Inv (step e s)
  unfolding step
  step-Inv (begin request) s v h =
      begin_call-Inv request s v (unfold begin_call in omega (arith, h))
  step-Inv (store t) s v h = store_call-Inv _ t s refl v
  step-Inv (write t outcome) s v h = write_call-Inv _ t outcome s refl v
  step-Inv (ready t) s v h = collect_call-Inv _ _ t s refl refl v
  step-Inv (expire t) s v h = expire_call-Inv _ _ t s refl v
  step-Inv (abandon t) s v h = abandon_call-Inv _ t s refl v
  step-Inv (respond id status) s v h = respond_call-Inv id status s v
  step-Inv (open_stream writer) s v h = writer-Inv (some writer) s v
  step-Inv (close_stream writer) s v h =
      elim (Bool-cases (is_writer s.dispatcher.active_writer writer)) [
        | inl e ↦ rw e (writer-Inv none s v)
        | inr e ↦ rw e v
      ]

  deliver-started :
      (status : CommandStatus) (r : Dispatcher × Option ℕ) (s : System D)
      → s.started ≤ (deliver status r s).started
  deliver-started status (d, none) s = omega arith
  deliver-started status (d, some t) s = omega arith

  after_write-started :
      (t : ℕ) (r : Dispatcher × Option CommandStatus) (s : System D)
      → s.started ≤ (after_write t r s).started
  after_write-started t (d, none) s = omega arith
  after_write-started t (d, some status) s = omega arith

  pub step-started : (e : Event D) (s : System D) → s.started ≤ (step e s).started
  unfolding step begin_call store_call write_call collect_call expire_call abandon_call respond_call
  step-started (begin request) s = omega arith
  step-started (write t outcome) s = ground (
    arith,
    after_write-started t (write_request (s.calls t).request.command_id outcome s.dispatcher) s,
  )
  step-started (respond id status) s = deliver-started status _ s
  step-started _ s = ground arith

  pub run-started : (es : List (Event D)) (s : System D) → s.started ≤ (run s es).started
  unfolding run
  run-started [] s = omega arith
  run-started (e ∷ es) s = omega (arith, step-started e s, run-started es (step e s))

  pub run-Inv :
      (es : List (Event D)) (s : System D)
      → Inv s
      → (run s es).started + 1 < 2 ^ 64
      → Inv (run s es)
  unfolding run
  run-Inv [] s v h = v
  run-Inv (e ∷ es) s v h =
      run-Inv es (step e s) (step-Inv e s v (omega (arith, run-started es (step e s)))) h

  pub initial-Inv : Inv {D = D} initial
  unfolding find
  initial-Inv = record {
    counter = refl;
    owner = λ id t h. absurd (cc);
    coherent = λ t. record {
      idle = λ h. refl;
      started = λ h. omega arith;
      numbered = inl refl;
      unset = λ h. refl;
      kept = λ o a. absurd (cc);
      justified = tt;
    };
  }

  -- Every interleaving from the start, with fewer than 2^64 - 1 calls, keeps the invariant.
  pub run-initial-Inv :
      (es : List (Event D))
      → (run {D = D} initial es).started + 1 < 2 ^ 64
      → Inv (run {D = D} initial es)
  run-initial-Inv es h = run-Inv es initial initial-Inv h
