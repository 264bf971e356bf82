-- ===== src/Commands/Locks/Progress.antt =====
-- The two locks do not lock each other out: writer_mutex_ is never taken inside of pending_mutex_.
use dnp3_bridge.Base.{
  find, nat_eq, Bool-cases, ℕ, ◌≡◌, refl, sym, subst, Bool, true, false, ◌||◌, none, some,
  Option-cases, inl, inr, arith,
}
use dnp3_bridge.Commands.Dispatcher.{is_writer}
use dnp3_bridge.Commands.Interleaving.{Phase, stored, threw}
use dnp3_bridge.Commands.Locks.{
  Thread, dispatching, answering, streaming, CallerPc, want_store, in_store, inserted, leave_store,
  leave_threw, want_write, in_write, leave_write, want_erase, in_erase, leave_erase, writing,
  want_forget, in_forget, leave_forget, failed, StreamPc, want_open, in_open, leave_open,
  want_close, in_close, clearing, leave_close, AnswerPc, want_fulfill, in_fulfill, found, erasing,
  leave_fulfill, Locked, Step, step_caller, step_stream, step_answer, Reach, CallerMove, lock_store,
  insert, get_future, future_throws, unlock_store, unlock_threw, lock_write, read_writer, read_none,
  write_true, unlock_write, lock_forget, forgets, unlock_forget, unlock_failed, lock_erase, erases,
  unlock_erase, StreamMove, lock_open, registers, unlock_open, lock_close, finds_own, finds_other,
  clears, unlock_close, AnswerMove, lock_fulfill, finds, misses, sets_value, erases_entry,
  unlock_fulfill,
}
use dnp3_bridge.Commands.Locks.Invariant.{
  is_placed, IsAt, Inv, has_writer, has_pending, stream_has_writer, answer_has_pending,
}
use dnp3_bridge.Commands.Locks.Reachable.{Reach-Inv}

abbrev caller_waits : CallerPc → Bool
caller_waits want_store = true
caller_waits want_write = true
caller_waits want_erase = true
caller_waits (want_forget e) = true
caller_waits _ = false

abbrev stream_waits : StreamPc → Bool
stream_waits want_open = true
stream_waits want_close = true
stream_waits _ = false

abbrev answer_waits : AnswerPc → Bool
answer_waits (want_fulfill command_id status) = true
answer_waits _ = false

module _ {D : Type 0} (s : Locked D) where
  -- The thread waits for a lock.
  abbrev pub is_waiting : Thread → Bool
  is_waiting (dispatching t) = caller_waits (s.callers t)
  is_waiting (streaming w) = stream_waits (s.streams w)
  is_waiting (answering n) = answer_waits (s.answers n)

  -- The thread is inside of a lock.
  abbrev pub has_lock : Thread → Bool
  has_lock (dispatching t) = has_writer (s.callers t) || has_pending (s.callers t)
  has_lock (streaming w) = stream_has_writer (s.streams w)
  has_lock (answering n) = answer_has_pending (s.answers n)

  -- Some thread that waits for a lock or is inside of one can go on.
  abbrev pub CanGoOn : Type 0
  CanGoOn = (y : Thread) × (s' : Locked D) × ((is_waiting y || has_lock y) ≡ true) × Step s y s'

  module _ (inv : Inv s) where
    caller_goes :
        (t : ℕ) (p : CallerPc) {s' : Locked D}
        → s.callers t ≡ p
        → (caller_waits p || (has_writer p || has_pending p)) ≡ true
        → CallerMove s t p s'
        → CanGoOn
    caller_goes t p {s'} e busy mv = (
      dispatching t,
      s',
      ground arith,
      step_caller t (subst (λ q. CallerMove s t q s') (sym e) mv),
    )

    stream_goes :
        (w : ℕ) (p : StreamPc) {s' : Locked D}
        → s.streams w ≡ p
        → (stream_waits p || stream_has_writer p) ≡ true
        → StreamMove s w p s'
        → CanGoOn
    stream_goes w p {s'} e busy mv =
        (streaming w, s', ground arith, step_stream w (subst (λ q. StreamMove s w q s') (sym e) mv))

    answer_goes :
        (n : ℕ) (p : AnswerPc) {s' : Locked D}
        → s.answers n ≡ p
        → (answer_waits p || answer_has_pending p) ≡ true
        → AnswerMove s n p s'
        → CanGoOn
    answer_goes n p {s'} e busy mv =
        (answering n, s', ground arith, step_answer n (subst (λ q. AnswerMove s n q s') (sym e) mv))

    -- Who is inside of pending_mutex_ can go on.
    inserted_goes :
        (t : ℕ) (p : Phase)
        → (s.system.calls t).phase ≡ p
        → is_placed p ≡ true
        → s.callers t ≡ inserted
        → CanGoOn
    inserted_goes t stored k h e = caller_goes t inserted e refl (get_future k)
    inserted_goes t threw k h e = caller_goes t inserted e refl (future_throws k)
    inserted_goes t _ k h e = absurd (ground arith)

    pending_caller : (t : ℕ) (p : CallerPc) → s.callers t ≡ p → has_pending p ≡ true → CanGoOn
    pending_caller t in_store e h = caller_goes t in_store e refl (insert _ refl)
    pending_caller t inserted e h =
        inserted_goes t (s.system.calls t).phase refl
          (subst (λ p. IsAt p (s.system.calls t).phase) e (inv.phases t)) e
    pending_caller t leave_store e h = caller_goes t leave_store e refl unlock_store
    pending_caller t leave_threw e h = caller_goes t leave_threw e refl unlock_threw
    pending_caller t (in_forget f) e h = caller_goes t (in_forget f) e refl forgets
    pending_caller t leave_forget e h = caller_goes t leave_forget e refl unlock_forget
    pending_caller t in_erase e h = caller_goes t in_erase e refl erases
    pending_caller t leave_erase e h = caller_goes t leave_erase e refl unlock_erase
    pending_caller t _ e h = absurd (ground arith)

    pending_answer :
        (n : ℕ) (p : AnswerPc) → s.answers n ≡ p → answer_has_pending p ≡ true → CanGoOn
    pending_answer n (in_fulfill id status) e h =
        elim (Option-cases (find id s.system.dispatcher.pending)) [
          | inl k ↦ answer_goes n (in_fulfill id status) e refl (misses k)
          | inr (call, k) ↦ answer_goes n (in_fulfill id status) e refl (finds call k)
        ]
    pending_answer n (found id status call) e h =
        answer_goes n (found id status call) e refl sets_value
    pending_answer n (erasing id) e h = answer_goes n (erasing id) e refl erases_entry
    pending_answer n leave_fulfill e h = answer_goes n leave_fulfill e refl unlock_fulfill
    pending_answer n _ e h = absurd (ground arith)

    pending_goes : (y : Thread) → s.pending_mutex ≡ some y → CanGoOn
    pending_goes (dispatching t) h =
        pending_caller t (s.callers t) refl ((inv.pending_callers t).1 h)
    pending_goes (answering n) h = pending_answer n (s.answers n) refl ((inv.pending_answers n).1 h)
    pending_goes (streaming w) h = absurd (inv.pending_streams w h)

    -- pending_mutex_ is free, or its holder can go on.
    wants_pending : (s.pending_mutex ≡ none → CanGoOn) → CanGoOn
    wants_pending free = elim (Option-cases s.pending_mutex) [
      | inl e ↦ free e
      | inr (y, e) ↦ pending_goes y e
    ]

    writer_caller : (t : ℕ) (p : CallerPc) → s.callers t ≡ p → has_writer p ≡ true → CanGoOn
    writer_caller t in_write e h = elim (Option-cases s.system.dispatcher.active_writer) [
      | inl k ↦ caller_goes t in_write e refl (read_none k)
      | inr (w, k) ↦ caller_goes t in_write e refl (read_writer w k)
    ]
    writer_caller t (writing w) e h = caller_goes t (writing w) e refl write_true
    writer_caller t (want_forget f) e h =
        wants_pending (λ k. caller_goes t (want_forget f) e refl (lock_forget k))
    writer_caller t leave_write e h = caller_goes t leave_write e refl unlock_write
    writer_caller t (in_forget f) e h = caller_goes t (in_forget f) e refl forgets
    writer_caller t leave_forget e h = caller_goes t leave_forget e refl unlock_forget
    writer_caller t failed e h = caller_goes t failed e refl unlock_failed
    writer_caller t _ e h = absurd (ground arith)

    writer_stream : (w : ℕ) (p : StreamPc) → s.streams w ≡ p → stream_has_writer p ≡ true → CanGoOn
    writer_stream w in_open e h = stream_goes w in_open e refl registers
    writer_stream w leave_open e h = stream_goes w leave_open e refl unlock_open
    writer_stream w in_close e h =
        elim (Bool-cases (is_writer s.system.dispatcher.active_writer w)) [
          | inl k ↦ stream_goes w in_close e refl (finds_own k)
          | inr k ↦ stream_goes w in_close e refl (finds_other k)
        ]
    writer_stream w clearing e h = stream_goes w clearing e refl clears
    writer_stream w leave_close e h = stream_goes w leave_close e refl unlock_close
    writer_stream w _ e h = absurd (ground arith)

    writer_goes : (y : Thread) → s.writer_mutex ≡ some y → CanGoOn
    writer_goes (dispatching t) h = writer_caller t (s.callers t) refl ((inv.writer_callers t).1 h)
    writer_goes (streaming w) h = writer_stream w (s.streams w) refl ((inv.writer_streams w).1 h)
    writer_goes (answering n) h = absurd (inv.writer_answers n h)

    wants_writer : (s.writer_mutex ≡ none → CanGoOn) → CanGoOn
    wants_writer free = elim (Option-cases s.writer_mutex) [
      | inl e ↦ free e
      | inr (y, e) ↦ writer_goes y e
    ]

    caller_waiting : (t : ℕ) (p : CallerPc) → s.callers t ≡ p → caller_waits p ≡ true → CanGoOn
    caller_waiting t want_store e h =
        wants_pending (λ k. caller_goes t want_store e refl (lock_store k))
    caller_waiting t want_write e h =
        wants_writer (λ k. caller_goes t want_write e refl (lock_write k))
    caller_waiting t want_erase e h =
        wants_pending (λ k. caller_goes t want_erase e refl (lock_erase k))
    caller_waiting t (want_forget f) e h =
        wants_pending (λ k. caller_goes t (want_forget f) e refl (lock_forget k))
    caller_waiting t _ e h = absurd (ground arith)

    stream_waiting : (w : ℕ) (p : StreamPc) → s.streams w ≡ p → stream_waits p ≡ true → CanGoOn
    stream_waiting w want_open e h =
        wants_writer (λ k. stream_goes w want_open e refl (lock_open k))
    stream_waiting w want_close e h =
        wants_writer (λ k. stream_goes w want_close e refl (lock_close k))
    stream_waiting w _ e h = absurd (ground arith)

    answer_waiting : (n : ℕ) (p : AnswerPc) → s.answers n ≡ p → answer_waits p ≡ true → CanGoOn
    answer_waiting n (want_fulfill id status) e h =
        wants_pending (λ k. answer_goes n (want_fulfill id status) e refl (lock_fulfill k))
    answer_waiting n _ e h = absurd (ground arith)

  -- No deadlock: in every state that the threads can reach in which some thread waits for a lock, a
  -- thread that waits for a lock or is inside of one can go on.
  pub no_deadlock : (x : Thread) → Reach s → is_waiting x ≡ true → CanGoOn
  no_deadlock (dispatching t) r h = caller_waiting (Reach-Inv r) t (s.callers t) refl h
  no_deadlock (streaming w) r h = stream_waiting (Reach-Inv r) w (s.streams w) refl h
  no_deadlock (answering n) r h = answer_waiting (Reach-Inv r) n (s.answers n) refl h
