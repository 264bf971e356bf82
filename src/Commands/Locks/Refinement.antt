-- ===== src/Commands/Locks/Refinement.antt =====
-- The threads with their locks against the interleavings of whole blocks (Commands.Interleaving).
use dnp3_bridge.Base.{
  true, false, ◌≢◌, beq_refl, ℕ, ◌≡◌, refl, sym, ap, ◌∙◌, subst, none, some, List, [], ◌∷◌, ◌++◌,
  arith, nat_eq,
}
use dnp3_bridge.Commands.Dispatcher.{written, refused, register_writer, is_writer}
use dnp3_bridge.Commands.Interleaving
use dnp3_bridge.Commands.Interleaving.{
  after_write, set_phase, returned, Phase, numbered, stored, awaiting, expired, System, Event,
  initial, store_call, respond_call, write_call, collect_call, expire_call, abandon_call, step, run,
  open_stream, close_stream,
}
use dnp3_bridge.Commands.Locks.{
  Thread, dispatching, answering, CallerPc, StreamPc, AnswerPc, Locked, answers_to, CallerMove,
  begin, lock_store, insert, unlock_store, unlock_threw, write_true, lock_forget, forgets,
  unlock_forget, gets, times_out, lock_erase, erases, unlock_erase, StreamMove, registers,
  lock_open, clears, AnswerMove, respond, lock_fulfill, finds, misses, sets_value, erases_entry,
  unlock_fulfill, Step, step_caller, step_stream, step_answer, Reach, next, in_store, leave_store,
  leave_threw, waiting, in_erase, leave_erase, in_forget, leave_forget, writing, Steps, no_step,
  more, no_answer, in_fulfill, found, erasing, leave_fulfill,
}
use dnp3_bridge.Commands.Locks.Invariant.{
  has_pending, answer_has_pending, IsAt, IsFresh, IsFound, IsOwn, Inv,
}
use dnp3_bridge.Commands.Locks.Settled.{
  run-append, write_request-fails, collect_call-some, expire_call-none, unerased, unerased_by,
  unerased_by-others, settle, settled, begin_call-settle, set_phase-settle, set_writer-settle,
  settle-same, settled-held, settled-free, settled-answering, write_call-written, release-own,
  respond_call-found,
}
use dnp3_bridge.Commands.Locks.Reachable.{Reach-Inv}

module _ {D : Type 0} where
  -- The block that a move ends, if it ends one.
  abbrev caller_events :
      {s : Locked D} {t : ℕ} {p : CallerPc} {s' : Locked D} → CallerMove s t p s' → List (Event D)
  caller_events (begin r e) = Interleaving.begin r ∷ []
  caller_events {t} (insert s' e) = Interleaving.store t ∷ []
  caller_events {t} write_true = Interleaving.write t written ∷ []
  caller_events {t} forgets = Interleaving.write t refused ∷ []
  caller_events {t} (gets status e) = Interleaving.ready t ∷ []
  caller_events {t} (times_out e) = Interleaving.expire t ∷ []
  caller_events {t} erases = Interleaving.abandon t ∷ []
  caller_events _ = []

  abbrev stream_events :
      {s : Locked D} {w : ℕ} {p : StreamPc} {s' : Locked D} → StreamMove s w p s' → List (Event D)
  stream_events {w} registers = open_stream w ∷ []
  stream_events {w} clears = close_stream w ∷ []
  stream_events _ = []

  abbrev answer_events :
      {s : Locked D} {n : ℕ} {p : AnswerPc} {s' : Locked D} → AnswerMove s n p s' → List (Event D)
  answer_events (sets_value {command_id} {status}) = Interleaving.respond command_id status ∷ []
  answer_events _ = []

  module _ {s : Locked D} (inv : Inv s) (t : ℕ) where
    phase-IsAt : (p : CallerPc) → s.callers t ≡ p → IsAt p (s.system.calls t).phase
    phase-IsAt p at = subst (λ q. IsAt q (s.system.calls t).phase) at (inv.phases t)

    caller-IsFresh : (p : CallerPc) → s.callers t ≡ p → IsFresh p s.system.dispatcher.active_writer
    caller-IsFresh p at = subst (λ q. IsFresh q s.system.dispatcher.active_writer) at (inv.fresh t)

    mutex_at :
        (p : CallerPc)
        → s.callers t ≡ p
        → has_pending p ≡ true
        → s.pending_mutex ≡ some (dispatching t)
    mutex_at p at h = (inv.pending_callers t).0 (ap has_pending at ∙ h)

    held_at : (p : CallerPc) → s.callers t ≡ p → has_pending p ≡ true → settled s ≡ s.system
    held_at p at h = settled-held s t (mutex_at p at h)

    -- A block that runs while this call is inside of pending_mutex_.
    held-run :
        (p : CallerPc) (e : Event D) (i : System D)
        → s.callers t ≡ p
        → has_pending p ≡ true
        → step e s.system ≡ i
        → step e (settled s) ≡ settle (unerased_by s.pending_mutex s.answers) i
    held-run p e i at h now =
        ap (step e) (held_at p at h)
        ∙ (now ∙ sym (settled-held (record s { system = i }) t (mutex_at p at h)))

    phase-settled : (p : CallerPc) → s.callers t ≡ p → IsAt p ((settled s).calls t).phase
    phase-settled p at =
        subst (λ c. IsAt p (c t).phase) (sym (settle-same _ s.system).0) (phase-IsAt p at)

    caller_events-run :
        {p : CallerPc} {s' : Locked D} (mv : CallerMove s t p s')
        → s.callers t ≡ p
        → run (settled s) (caller_events mv) ≡ settled s'
    unfolding run step
    caller_events-run (begin r e) at = begin_call-settle _ r s.system
    caller_events-run (lock_store h) at = settled-free s h
    caller_events-run (insert s' e) at =
        held-run in_store (Interleaving.store t) _ at refl
          (unfold step in rw (phase-IsAt in_store at, sym e) refl)
    caller_events-run unlock_store at = held_at leave_store at refl
    caller_events-run unlock_threw at = held_at leave_threw at refl
    caller_events-run (write_true {w}) at =
        write_call-written t w (settled s) (phase-settled (writing w) at)
          ((settle-same _ s.system).1 ∙ caller-IsFresh (writing w) at)
        ∙ set_phase-settle _ t awaiting s.system
    caller_events-run (lock_forget h) at = settled-free s h
    caller_events-run (forgets {e}) at =
        held-run (in_forget e) (Interleaving.write t refused) _ at refl (
          unfold step in
          rw (phase-IsAt (in_forget e) at) (
            unfold write_call in
            ap (λ r. after_write t r s.system)
              (write_request-fails e _ _ (caller-IsFresh (in_forget e) at))))
    caller_events-run unlock_forget at = held_at leave_forget at refl
    caller_events-run (gets status e) at =
        collect_call-some t (settled s) (phase-settled waiting at)
          (ap (λ c. (c t).answer) (settle-same _ s.system).0 ∙ e)
        ∙ set_phase-settle _ t (returned status) s.system
    caller_events-run (times_out e) at =
        expire_call-none t (settled s) (phase-settled waiting at)
          (ap (λ c. (c t).answer) (settle-same _ s.system).0 ∙ e)
        ∙ set_phase-settle _ t expired s.system
    caller_events-run (lock_erase h) at = settled-free s h
    caller_events-run erases at =
        held-run in_erase (Interleaving.abandon t) _ at refl
          (unfold step in rw (phase-IsAt in_erase at) refl)
    caller_events-run unlock_erase at = held_at leave_erase at refl
    caller_events-run mv at = refl

  stream_events-run :
      {s : Locked D} (inv : Inv s) (w : ℕ) {p : StreamPc} {s' : Locked D} (mv : StreamMove s w p s')
      → s.streams w ≡ p
      → run (settled s) (stream_events mv) ≡ settled s'
  unfolding run step register_writer
  stream_events-run {s} inv w registers at = set_writer-settle _ (some w) s.system
  stream_events-run {s} inv w clears at =
      release-own w (settled s) (
        ap (λ a. is_writer a w) (settle-same _ s.system).1
        ∙ subst (λ p. IsOwn w p s.system.dispatcher.active_writer) at (inv.own w))
      ∙ set_writer-settle _ none s.system
  stream_events-run inv w (lock_open h) at = refl
  stream_events-run inv w mv at = refl

  module _ {s : Locked D} (inv : Inv s) (n : ℕ) where
    answer_mutex :
        (p : AnswerPc)
        → s.answers n ≡ p
        → answer_has_pending p ≡ true
        → s.pending_mutex ≡ some (answering n)
    answer_mutex p at h = (inv.pending_answers n).0 (ap answer_has_pending at ∙ h)

    answer_free :
        (p : AnswerPc)
        → s.answers n ≡ p
        → answer_has_pending p ≡ false
        → s.pending_mutex ≢ some (answering n)
    answer_free p at h k = absurd (ground (arith, (inv.pending_answers n).1 k))

    -- Where an answer that keeps the lock takes the dispatcher.
    moved-settled :
        (p p' : AnswerPc) (i : System D)
        → s.answers n ≡ p
        → answer_has_pending p ≡ true
        → settled (answers_to n p' (record s { system = i })) ≡ settle (unerased p') i
    moved-settled p p' i at h =
        settled-answering (answers_to n p' (record s { system = i })) n p' (answer_mutex p at h)
          (ground (arith, beq_refl n))

    answer_events-run :
        {p : AnswerPc} {s' : Locked D} (mv : AnswerMove s n p s')
        → s.answers n ≡ p
        → run (settled s) (answer_events mv) ≡ settled s'
    unfolding run step
    answer_events-run (respond id status) at =
        ap (λ o. settle o s.system)
          (sym (unerased_by-others s.pending_mutex n _ s.answers (answer_free no_answer at refl)))
    answer_events-run (lock_fulfill {command_id = id} {status = status} h) at =
        settled-free s h
        ∙ sym (
            settled-answering
              (answers_to n (in_fulfill id status)
                (record s { pending_mutex = some (answering n) }))
              n (in_fulfill id status) refl (ground (arith, beq_refl n)))
    answer_events-run (finds {command_id = id} {status = status} call k) at =
        settled-answering s n _ (answer_mutex _ at refl) at
        ∙ sym (moved-settled (in_fulfill id status) (found id status call) s.system at refl)
    answer_events-run (misses {command_id = id} {status = status} k) at =
        settled-answering s n _ (answer_mutex _ at refl) at
        ∙ sym (moved-settled (in_fulfill id status) leave_fulfill s.system at refl)
    answer_events-run (sets_value {command_id = id} {status = status} {call = call}) at =
        ap (respond_call id status) (settled-answering s n _ (answer_mutex _ at refl) at)
        ∙ (respond_call-found id call status s.system
              (subst (λ p. IsFound p s.system.dispatcher.pending) at (inv.founds n))
            ∙ sym (moved-settled (found id status call) (erasing id) _ at refl))
    answer_events-run (erases_entry {command_id = id}) at =
        settled-answering s n _ (answer_mutex _ at refl) at
        ∙ sym (moved-settled (erasing id) leave_fulfill _ at refl)
    answer_events-run unlock_fulfill at = settled-answering s n _ (answer_mutex _ at refl) at

  Step-events :
      {s s' : Locked D} {x : Thread}
      → Inv s
      → Step s x s'
      → (es : List (Event D)) × (run (settled s) es ≡ settled s')
  Step-events inv (step_caller t mv) = (_, caller_events-run inv t mv refl)
  Step-events inv (step_stream w mv) = (_, stream_events-run inv w mv refl)
  Step-events inv (step_answer n mv) = (_, answer_events-run inv n mv refl)

  Steps-settled :
      {s s' : Locked D}
      → Reach s
      → Steps s s'
      → Reach s' × (es : List (Event D)) × (run (settled s) es ≡ settled s')
  unfolding run
  Steps-settled r no_step = (r, [], refl)
  Steps-settled {s} r (more sts st) =
      let (r', es, before) = Steps-settled r sts in
      let (fs, after) = Step-events (Reach-Inv r') st in
      (next r' st, es ++ fs, run-append es fs (settled s) ∙ (ap (λ i. run i fs) before ∙ after))

  -- However the threads of the dispatcher take and leave its two locks: between two moments of one run
  -- at which no thread is inside of pending_mutex_, what they do to the dispatcher and to the calls,
  -- with the answers and the results of these, is what some sequence of whole blocks does from
  -- the first of the moments on; from the start of the program to any such moment in particular.
  pub Reach-interleaved :
      {s s' : Locked D}
      → Reach s
      → Steps s s'
      → s.pending_mutex ≡ none
      → s'.pending_mutex ≡ none
      → (es : List (Event D)) × (run s.system es ≡ s'.system)
  Reach-interleaved {s} {s'} r sts free free' =
      let (r', es, e) = Steps-settled r sts in
      (es, ap (λ i. run i es) (sym (settled-free s free)) ∙ (e ∙ settled-free s' free'))
