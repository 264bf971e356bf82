-- ===== src/Commands/Interleaving/AnswerSteps.antt =====
-- What one event does to the answers of the calls.
use dnp3_bridge.Base.{
  ℕ, suc, ◌≡◌, refl, sym, ap, ◌⊎◌, inl, inr, true, false, Option, none, some, arith, find, nat_eq,
  eqb, eqb_iff, Bool-cases, Option-cases,
}
use dnp3_bridge.Commands.Message.{CommandStatus, CommandRequest}
use dnp3_bridge.Commands.Dispatcher.{
  Dispatcher, store_promise, WriteOutcome, write_request, give_up, fulfill, forget,
}
use dnp3_bridge.Commands.Interleaving.{
  Phase, numbered, stored, awaiting, expired, returned, threw, System, Event, begin, store, write,
  ready, expire, abandon, respond, open_stream, close_stream, set_phase, begin_call, store_call,
  after_write, write_call, collect_call, expire_call, abandon_call, deliver, respond_call, step,
}
use dnp3_bridge.Commands.Interleaving.Invariant.{is_idle, is_unstored, Inv}

idle_unstored : (ph : Phase) → is_idle ph ≡ true → is_unstored ph ≡ true
idle_unstored ph h = ground arith

pub fulfill-find :
    (id : ℕ) (d : Dispatcher) (t : ℕ) → (fulfill id d).1 ≡ some t → find id d.pending ≡ some t
unfolding fulfill
fulfill-find id d t h = ground arith

module _ {D : Type 0} where
  -- A call that has begun carries its number as its id.
  pub not_idle-numbered :
      {s : System D}
      → Inv s
      → (t : ℕ) → is_idle (s.calls t).phase ≡ false
      → (s.calls t).request.command_id ≡ suc t
  not_idle-numbered v t h = ground (arith, (v.coherent t).numbered)

  abbrev pub answer_of : System D → ℕ → Option CommandStatus
  answer_of s t = (s.calls t).answer

  set_phase-answer :
      (u : ℕ) (ph : Phase) (s : System D) (t : ℕ) → answer_of (set_phase u ph s) t ≡ answer_of s t
  set_phase-answer u ph s t = elim (Bool-cases (eqb u t)) [
    | inl e ↦ rw (e, answer_of) (ap (answer_of s) ((eqb_iff u t).0 e))
    | inr e ↦ rw (e, answer_of) refl
  ]

  store_call-answer :
      (ph : Phase) (u : ℕ) (s : System D) (t : ℕ) → answer_of (store_call ph u s) t ≡ answer_of s t
  unfolding store_call
  store_call-answer numbered u s t =
      elim (Option-cases (store_promise (s.calls u).request.command_id u s.dispatcher)) [
        | inl e ↦ rw (e, store_call) (set_phase-answer u threw s t)
        | inr (d, e) ↦
            rw (e, store_call) (set_phase-answer u stored (record s { dispatcher = d }) t)
      ]
  store_call-answer _ u s t = refl

  after_write-answer :
      (u : ℕ) (r : Dispatcher × Option CommandStatus) (s : System D) (t : ℕ)
      → answer_of (after_write u r s) t ≡ answer_of s t
  after_write-answer u (d, none) s t = set_phase-answer u awaiting (record s { dispatcher = d }) t
  after_write-answer u (d, some status) s t =
      set_phase-answer u (returned status) (record s { dispatcher = d }) t

  write_call-answer :
      (ph : Phase) (u : ℕ) (o : WriteOutcome) (s : System D) (t : ℕ)
      → answer_of (write_call ph u o s) t ≡ answer_of s t
  unfolding write_call
  write_call-answer stored u o s t =
      after_write-answer u (write_request (s.calls u).request.command_id o s.dispatcher) s t
  write_call-answer _ u o s t = refl

  collect_call-answer :
      (ph : Phase) (a : Option CommandStatus) (u : ℕ) (s : System D) (t : ℕ)
      → answer_of (collect_call ph a u s) t ≡ answer_of s t
  unfolding collect_call
  collect_call-answer awaiting (some status) u s t = set_phase-answer u (returned status) s t
  collect_call-answer _ _ u s t = refl

  expire_call-answer :
      (ph : Phase) (a : Option CommandStatus) (u : ℕ) (s : System D) (t : ℕ)
      → answer_of (expire_call ph a u s) t ≡ answer_of s t
  unfolding expire_call
  expire_call-answer awaiting none u s t = set_phase-answer u expired s t
  expire_call-answer _ _ u s t = refl

  abandon_call-answer :
      (ph : Phase) (u : ℕ) (s : System D) (t : ℕ)
      → answer_of (abandon_call ph u s) t ≡ answer_of s t
  unfolding abandon_call
  abandon_call-answer expired u s t =
      set_phase-answer u _
        (record s { dispatcher = (give_up (s.calls u).request.command_id s.dispatcher).0 }) t
  abandon_call-answer _ u s t = refl

  begin_call-answer :
      (request : CommandRequest D) (s : System D) (t : ℕ)
      → Inv s
      → answer_of (begin_call request s) t ≡ answer_of s t
  unfolding begin_call
  begin_call-answer request s t v = elim (Bool-cases (eqb s.started t)) [
    | inl e ↦
        rw (e, answer_of)
          (sym ((v.coherent t).unset (idle_unstored _ ((v.coherent t).idle (ground arith)))))
    | inr e ↦ rw (e, answer_of) refl
  ]

  deliver-answer :
      (status : CommandStatus) (d : Dispatcher) (u : ℕ) (s : System D) (t : ℕ)
      → (answer_of (deliver status (d, some u) s) t ≡ answer_of s t)
        ⊎ ((u ≡ t) × (answer_of (deliver status (d, some u) s) t ≡ some status))
  deliver-answer status d u s t = elim (Bool-cases (eqb u t)) [
    | inl e ↦ inr ((eqb_iff u t).0 e, rw (e, answer_of) refl)
    | inr e ↦ inl (rw (e, answer_of) refl)
  ]

  respond_call-answer :
      (id : ℕ) (status : CommandStatus) (s : System D) (t : ℕ)
      → Inv s
      → (answer_of (respond_call id status s) t ≡ answer_of s t)
        ⊎ ((id ≡ suc t)
            × (answer_of s t ≡ none)
            × (answer_of (respond_call id status s) t ≡ some status))
  unfolding respond_call fulfill
  respond_call-answer id status s t v = elim (Option-cases (find id s.dispatcher.pending)) [
    | inl e ↦ inl (rw (e, respond_call, fulfill) refl)
    | inr (u, e) ↦ elim (deliver-answer status (forget id s.dispatcher) u s t) [
      | inl same ↦ inl (rw (e, respond_call, fulfill) same)
      | inr (at, after) ↦ inr (
        rw (← at) (v.owner id u e).0,
        rw (← at) (v.owner id u e).2,
        rw (e, respond_call, fulfill) after,
      )
    ]
  ]

  -- What an event does to a call's answer: nothing, or it is the answer to its id, the first.
  abbrev AnswerStep : Event D → System D → ℕ → Type 0
  AnswerStep e s t =
      (answer_of (step e s) t ≡ answer_of s t)
      ⊎ ((status : CommandStatus) × (e ≡ respond (suc t) status)
          × (answer_of s t ≡ none)
          × (answer_of (step e s) t ≡ some status))

  pub step-AnswerStep : (e : Event D) (s : System D) (t : ℕ) → Inv s → AnswerStep e s t
  unfolding step
  step-AnswerStep (begin request) s t v = inl (begin_call-answer request s t v)
  step-AnswerStep (store u) s t v = inl (store_call-answer _ u s t)
  step-AnswerStep (write u o) s t v = inl (write_call-answer _ u o s t)
  step-AnswerStep (ready u) s t v = inl (collect_call-answer _ _ u s t)
  step-AnswerStep (expire u) s t v = inl (expire_call-answer _ _ u s t)
  step-AnswerStep (abandon u) s t v = inl (abandon_call-answer _ u s t)
  step-AnswerStep (respond id status) s t v = elim (respond_call-answer id status s t v) [
    | inl e ↦ inl e
    | inr (e, before, after) ↦ inr (status, rw e refl, before, after)
  ]
  step-AnswerStep (open_stream w) s t v = inl refl
  step-AnswerStep (close_stream w) s t v = inl refl
