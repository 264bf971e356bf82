-- ===== src/Commands/Locks/Settled.antt =====
-- The dispatcher of Commands.Interleaving that a state of the threads stands for.
use dnp3_bridge.Base.{
  eqb, true, find, eqb_iff, nat_eq, ◌≢◌, ℕ, ◌≡◌, refl, ap, ◌∙◌, inl, inr, Bool-cases, Option, none,
  some, List, [], ◌∷◌, ◌++◌, arith, nat_eq,
}
use dnp3_bridge.Commands.Message.{CommandStatus, CommandRequest}
use dnp3_bridge.Commands.Dispatcher.{
  fulfill, number_request, Dispatcher, forget, written, refused, release, write_request, is_writer,
}
use dnp3_bridge.Commands.Interleaving
use dnp3_bridge.Commands.Interleaving.{
  begin_call, respond_call, deliver, after_write, set_phase, returned, Phase, numbered, stored,
  awaiting, expired, System, Event, initial, store_call, write_call, collect_call, expire_call,
  abandon_call, step, run, open_stream, close_stream,
}
use dnp3_bridge.Commands.Locks.{
  Thread, dispatching, answering, streaming, Failure, no_writer, not_written, failure_status,
  AnswerPc, erasing, in_forget, Locked, set_pc,
}
use dnp3_bridge.Commands.Locks.Invariant.{IsFresh}

pub run-append :
    {D : Type 0} (es fs : List (Event D)) (s : System D) → run s (es ++ fs) ≡ run (run s es) fs
unfolding run
run-append [] fs s = refl
run-append (e ∷ es) fs s = run-append es fs (step e s)

write_request-true :
    (w id : ℕ) (d : Dispatcher) → d.active_writer ≡ some w → write_request id written d ≡ (d, none)
unfolding write_request
write_request-true w id d h = ground arith

pub write_request-fails :
    (e : Failure) (id : ℕ) (d : Dispatcher)
    → IsFresh (in_forget e) d.active_writer
    → write_request id refused d ≡ (forget id d, some (failure_status e))
unfolding write_request
write_request-fails no_writer id d h = ground arith
write_request-fails (not_written w) id d h = ground arith

pub collect_call-some :
    {D : Type 0} {p : Phase} {a : Option CommandStatus} {status : CommandStatus} (t : ℕ)
    (s : System D)
    → p ≡ awaiting
    → a ≡ some status
    → collect_call p a t s ≡ set_phase t (returned status) s
unfolding collect_call
collect_call-some t s h k = rw (h, k) refl

pub expire_call-none :
    {D : Type 0} {p : Phase} {a : Option CommandStatus} (t : ℕ) (s : System D)
    → p ≡ awaiting
    → a ≡ none
    → expire_call p a t s ≡ set_phase t expired s
unfolding expire_call
expire_call-none t s h k = rw (h, k) refl

-- What fulfill has left to erase.
abbrev pub unerased : AnswerPc → Option ℕ
unerased (erasing id) = some id
unerased _ = none

abbrev pub unerased_by : Option Thread → (ℕ → AnswerPc) → Option ℕ
unerased_by (some (answering n)) answers = unerased (answers n)
unerased_by _ answers = none

pub unerased_by-others :
    (x : Option Thread) (n : ℕ) (p : AnswerPc) (answers : ℕ → AnswerPc)
    → x ≢ some (answering n)
    → unerased_by x (set_pc n p answers) ≡ unerased_by x answers
unerased_by-others none n p answers h = refl
unerased_by-others (some (dispatching t)) n p answers h = refl
unerased_by-others (some (streaming w)) n p answers h = refl
unerased_by-others (some (answering m)) n p answers h = elim (Bool-cases (eqb n m)) [
  | inl same ↦ absurd (h (ground (arith, eqb_iff n m)))
  | inr other ↦ rw other refl
]

module _ {D : Type 0} where
  abbrev pub settle : Option ℕ → System D → System D
  settle none s = s
  settle (some id) s = record s { dispatcher = forget id s.dispatcher }

  -- The dispatcher once the answer that has set its value has also erased the entry.
  abbrev pub settled : Locked D → System D
  settled s = settle (unerased_by s.pending_mutex s.answers) s.system

  pub begin_call-settle :
      (o : Option ℕ) (r : CommandRequest D) (s : System D)
      → begin_call r (settle o s) ≡ settle o (begin_call r s)
  unfolding begin_call number_request
  begin_call-settle none r s = refl
  begin_call-settle (some id) r s = refl

  pub set_phase-settle :
      (o : Option ℕ) (t : ℕ) (p : Phase) (s : System D)
      → set_phase t p (settle o s) ≡ settle o (set_phase t p s)
  set_phase-settle none t p s = refl
  set_phase-settle (some id) t p s = refl

  pub set_writer-settle :
      (o : Option ℕ) (w : Option ℕ) (s : System D)
      → record (settle o s) { dispatcher = record (settle o s).dispatcher { active_writer = w } }
        ≡ settle o (record s { dispatcher = record s.dispatcher { active_writer = w } })
  set_writer-settle none w s = refl
  set_writer-settle (some id) w s = refl

  pub settle-same :
      (o : Option ℕ) (s : System D)
      → ((settle o s).calls ≡ s.calls)
        × ((settle o s).dispatcher.active_writer ≡ s.dispatcher.active_writer)
  settle-same none s = (refl, refl)
  settle-same (some id) s = (refl, refl)

  pub settled-held :
      (s : Locked D) (t : ℕ) → s.pending_mutex ≡ some (dispatching t) → settled s ≡ s.system
  settled-held s t h = ap (λ x. settle (unerased_by x s.answers) s.system) h

  pub settled-free : (s : Locked D) → s.pending_mutex ≡ none → settled s ≡ s.system
  settled-free s h = ap (λ x. settle (unerased_by x s.answers) s.system) h

  pub settled-answering :
      (s : Locked D) (n : ℕ) (p : AnswerPc)
      → s.pending_mutex ≡ some (answering n)
      → s.answers n ≡ p
      → settled s ≡ settle (unerased p) s.system
  settled-answering s n p h e =
      ap (λ x. settle (unerased_by x s.answers) s.system) h
      ∙ ap (λ p. settle (unerased p) s.system) e

  pub write_call-written :
      (t w : ℕ) (s : System D)
      → (s.calls t).phase ≡ stored
      → s.dispatcher.active_writer ≡ some w
      → step (Interleaving.write t written) s ≡ set_phase t awaiting s
  unfolding step
  write_call-written t w s e h =
      rw e (unfold write_call in ap (λ r. after_write t r s) (write_request-true w _ _ h))

  pub release-own :
      (w : ℕ) (s : System D)
      → is_writer s.dispatcher.active_writer w ≡ true
      → step (close_stream w) s
        ≡ record s { dispatcher = record s.dispatcher { active_writer = none } }
  unfolding step release
  release-own w s h = rw h refl

  pub respond_call-missing :
      (id : ℕ) (status : CommandStatus) (s : System D)
      → find id s.dispatcher.pending ≡ none
      → respond_call id status s ≡ s
  unfolding respond_call fulfill
  respond_call-missing id status s h = ground (arith, h)

  pub respond_call-found :
      (id call : ℕ) (status : CommandStatus) (s : System D)
      → find id s.dispatcher.pending ≡ some call
      → respond_call id status s ≡ settle (some id) (deliver status (s.dispatcher, some call) s)
  unfolding respond_call fulfill
  respond_call-found id call status s h = ground (arith, h)
