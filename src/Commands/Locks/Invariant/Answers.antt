-- ===== src/Commands/Locks/Invariant/Answers.antt =====
-- A step of RespondToCommand keeps the invariant.
use dnp3_bridge.Base.{
  Dict, false, inl, inr, Bool-cases, eqb, ℕ, ◌≡◌, ◌≢◌, ◌↔◌, true, some, arith, nat_eq,
}
use dnp3_bridge.Commands.Locks.{
  dispatching, answering, streaming, AnswerPc, Locked, AnswerMove, lock_fulfill, finds, sets_value,
  erases_entry, AnswerPc, no_answer, want_fulfill, in_fulfill, found, erasing, leave_fulfill,
}
use dnp3_bridge.Commands.Locks.Invariant.{
  has_writer, has_pending, stream_has_writer, answer_has_pending, is_live, IsAt, IsFresh, IsFound,
  IsOwn, Inv,
}

IsFound-others :
    (p : AnswerPc) (pending : Dict ℕ ℕ) → answer_has_pending p ≡ false → IsFound p pending
IsFound-others (found id status call) pending h = absurd (cc)
IsFound-others no_answer pending h = tt
IsFound-others leave_fulfill pending h = tt
IsFound-others (want_fulfill id status) pending h = tt
IsFound-others (in_fulfill id status) pending h = tt
IsFound-others (erasing id) pending h = tt

module _ {D : Type 0} where
  module _ {s : Locked D} (inv : Inv s) where
    open inv use {
      writer_callers, writer_streams, writer_answers, pending_callers, pending_answers,
      pending_streams, phases, fresh, live, founds, own,
    }

    module _ (n : ℕ) where
      AnswerMove-answers :
          {p : AnswerPc} {s' : Locked D}
          → AnswerMove s n p s'
          → s.answers n ≡ p
          → ((t : ℕ)
              → (has_pending (s'.callers t) ≡ true) ↔ (s'.pending_mutex ≡ some (dispatching t)))
            × ((m : ℕ)
                → (answer_has_pending (s'.answers m) ≡ true)
                  ↔ (s'.pending_mutex ≡ some (answering m)))
            × ((w : ℕ) → s'.pending_mutex ≢ some (streaming w))
      AnswerMove-answers (lock_fulfill k) e = (
        (λ t. ground (arith, pending_callers t)),
        (λ m. ground (arith, pending_answers m, pending_answers n)),
        λ w. ground arith,
      )
      AnswerMove-answers mv e = (
        (λ t. ground (arith, pending_callers t, pending_answers n)),
        (λ m. ground (arith, pending_answers m, pending_answers n)),
        λ w. ground (arith, pending_streams w),
      )

      AnswerMove-system :
          {p : AnswerPc} {s' : Locked D}
          → AnswerMove s n p s'
          → ((t : ℕ) → IsAt (s'.callers t) (s'.system.calls t).phase)
            × ((t : ℕ) → IsFresh (s'.callers t) s'.system.dispatcher.active_writer)
            × ((w : ℕ)
                → s'.system.dispatcher.active_writer ≡ some w
                → is_live (s'.streams w) ≡ true)
      AnswerMove-system sets_value = ((λ t. ground (arith, phases t)), fresh, live)
      AnswerMove-system mv = ((λ t. phases t), (λ t. fresh t), λ w. live w)

      AnswerMove-founds :
          {p : AnswerPc} {s' : Locked D}
          → AnswerMove s n p s'
          → s.answers n ≡ p
          → (m : ℕ) → IsFound (s'.answers m) s'.system.dispatcher.pending
      AnswerMove-founds (finds call k) e m = ground (arith, k, founds m)
      AnswerMove-founds erases_entry e m = elim (Bool-cases (eqb n m)) [
        | inl same ↦ rw same tt
        | inr other ↦
            rw other (
              IsFound-others (s.answers m) _ (ground (arith, pending_answers m, pending_answers n)))
      ]
      AnswerMove-founds mv e m = ground (arith, founds m)

      AnswerMove-writer :
          {p : AnswerPc} {s' : Locked D}
          → AnswerMove s n p s'
          → ((t : ℕ)
              → (has_writer (s'.callers t) ≡ true) ↔ (s'.writer_mutex ≡ some (dispatching t)))
            × ((w : ℕ)
                → (stream_has_writer (s'.streams w) ≡ true)
                  ↔ (s'.writer_mutex ≡ some (streaming w)))
            × ((m : ℕ) → s'.writer_mutex ≢ some (answering m))
      AnswerMove-writer (lock_fulfill k) = (writer_callers, writer_streams, writer_answers)
      AnswerMove-writer mv =
          ((λ t. writer_callers t), (λ w. writer_streams w), λ m. writer_answers m)

      AnswerMove-IsOwn :
          {p : AnswerPc} {s' : Locked D}
          → AnswerMove s n p s'
          → (w : ℕ) → IsOwn w (s'.streams w) s'.system.dispatcher.active_writer
      AnswerMove-IsOwn (lock_fulfill k) w = own w
      AnswerMove-IsOwn mv w = own w

      pub AnswerMove-Inv :
          {p : AnswerPc} {s' : Locked D} → AnswerMove s n p s' → s.answers n ≡ p → Inv s'
      AnswerMove-Inv mv e =
          let (pc, pa, ps) = AnswerMove-answers mv e in
          let (wc, ws, wa) = AnswerMove-writer mv in
          let (at, read, alive) = AnswerMove-system mv in
          record {
            writer_callers = wc;
            writer_streams = ws;
            writer_answers = wa;
            pending_callers = pc;
            pending_answers = pa;
            pending_streams = ps;
            phases = at;
            fresh = read;
            live = alive;
            founds = AnswerMove-founds mv e;
            own = AnswerMove-IsOwn mv;
          }
