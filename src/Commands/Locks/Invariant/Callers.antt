-- ===== src/Commands/Locks/Invariant/Callers.antt =====
-- A step of dispatch keeps the invariant.
use dnp3_bridge.Base.{
  Dict, ℕ, ◌≡◌, ◌≢◌, ◌↔◌, refl, true, false, none, some, arith, inl, inr, Bool-cases, eqb, beq_refl,
  nat_eq,
}
use dnp3_bridge.Commands.Dispatcher.{store_promise}
use dnp3_bridge.Commands.Interleaving.{
  numbered, stored, threw, begin_call, store_call, abandon_call, System,
}
use dnp3_bridge.Commands.Locks.{
  dispatching, answering, streaming, CallerPc, Locked, AnswerPc, no_answer, want_fulfill,
  in_fulfill, found, erasing, leave_fulfill, CallerMove, begin, lock_store, insert, get_future,
  future_throws, forgets, erases, lock_write, read_writer, read_none, lock_forget, lock_erase,
}
use dnp3_bridge.Commands.Locks.Invariant.{
  has_writer, has_pending, stream_has_writer, answer_has_pending, is_live, is_placed, IsAt, IsFresh,
  IsFound, IsOwn, Inv,
}

store_call-after :
    {D : Type 0} (t : ℕ) (s : System D)
    → (is_placed ((store_call numbered t s).calls t).phase ≡ true)
      × ((store_call numbered t s).dispatcher.active_writer ≡ s.dispatcher.active_writer)
unfolding store_call store_promise
store_call-after t s = ground (arith, beq_refl t)

store_call-others :
    {D : Type 0} (t u : ℕ) (s : System D)
    → eqb t u ≡ false
    → (store_call numbered t s).calls u ≡ s.calls u
unfolding store_call store_promise
store_call-others t u s h = ground arith

module _ {D : Type 0} where
  -- The premise of a move.
  abbrev Guard :
      {s : Locked D} {t : ℕ} {p : CallerPc} {s' : Locked D} → CallerMove s t p s' → Type 0
  Guard {s} {t = t} (begin r e) = t ≡ s.system.started
  Guard {s} (lock_store e) = s.pending_mutex ≡ none
  Guard {s} {t = t} (get_future e) = (s.system.calls t).phase ≡ stored
  Guard {s} {t = t} (future_throws e) = (s.system.calls t).phase ≡ threw
  Guard {s} (lock_write e) = s.writer_mutex ≡ none
  Guard {s} (read_writer w e) = s.system.dispatcher.active_writer ≡ some w
  Guard {s} (read_none e) = s.system.dispatcher.active_writer ≡ none
  Guard {s} (lock_forget e) = s.pending_mutex ≡ none
  Guard {s} (lock_erase e) = s.pending_mutex ≡ none
  Guard _ = Unit {0}

  guard :
      {s : Locked D} {t : ℕ} {p : CallerPc} {s' : Locked D} (mv : CallerMove s t p s') → Guard mv
  guard (begin r e) = e
  guard (lock_store e) = e
  guard (get_future e) = e
  guard (future_throws e) = e
  guard (lock_write e) = e
  guard (read_writer w e) = e
  guard (read_none e) = e
  guard (lock_forget e) = e
  guard (lock_erase e) = e
  guard _ = tt

  module _ {s : Locked D} (inv : Inv s) (t : ℕ) where
    open inv use {
      writer_callers, writer_streams, writer_answers, pending_callers, pending_answers,
      pending_streams, phases, fresh, live, founds, own,
    }

    CallerMove-writer :
        {p : CallerPc} {s' : Locked D}
        → CallerMove s t p s'
        → s.callers t ≡ p
        → (u : ℕ) → (has_writer (s'.callers u) ≡ true) ↔ (s'.writer_mutex ≡ some (dispatching u))
    CallerMove-writer (insert s' k) e u = ground (arith, writer_callers u, writer_callers t)
    CallerMove-writer mv e u = ground (arith, guard mv, writer_callers u, writer_callers t)

    CallerMove-pending :
        {p : CallerPc} {s' : Locked D}
        → CallerMove s t p s'
        → s.callers t ≡ p
        → (u : ℕ) → (has_pending (s'.callers u) ≡ true) ↔ (s'.pending_mutex ≡ some (dispatching u))
    CallerMove-pending (insert s' k) e u = ground (arith, pending_callers u, pending_callers t)
    CallerMove-pending mv e u = ground (arith, guard mv, pending_callers u, pending_callers t)

    CallerMove-others :
        {p : CallerPc} {s' : Locked D}
        → CallerMove s t p s'
        → s.callers t ≡ p
        → ((w : ℕ)
            → (stream_has_writer (s'.streams w) ≡ true) ↔ (s'.writer_mutex ≡ some (streaming w)))
          × ((n : ℕ) → s'.writer_mutex ≢ some (answering n))
          × ((n : ℕ)
              → (answer_has_pending (s'.answers n) ≡ true)
                ↔ (s'.pending_mutex ≡ some (answering n)))
          × ((w : ℕ) → s'.pending_mutex ≢ some (streaming w))
    CallerMove-others (insert s' k) e = (
      (λ w. writer_streams w),
      (λ n. writer_answers n),
      (λ n. pending_answers n),
      λ w. pending_streams w,
    )
    CallerMove-others mv e = (
      (λ w. ground (arith, guard mv, writer_streams w, writer_callers t)),
      (λ n. ground (arith, writer_answers n)),
      (λ n. ground (arith, guard mv, pending_answers n, pending_callers t)),
      λ w. ground (arith, pending_streams w),
    )

    CallerMove-phases :
        {p : CallerPc} {s' : Locked D}
        → CallerMove s t p s'
        → s.callers t ≡ p
        → (u : ℕ) → IsAt (s'.callers u) (s'.system.calls u).phase
    unfolding begin_call abandon_call
    CallerMove-phases (insert s' k) e u = elim (Bool-cases (eqb t u)) [
      | inl same ↦ ground (arith, store_call-after t s.system, phases t)
      | inr other ↦ ground (arith, store_call-others t u s.system other, phases u)
    ]
    CallerMove-phases mv e u = ground (arith, guard mv, phases u, phases t)

    CallerMove-IsFresh :
        {p : CallerPc} {s' : Locked D}
        → CallerMove s t p s'
        → s.callers t ≡ p
        → (u : ℕ) → IsFresh (s'.callers u) s'.system.dispatcher.active_writer
    unfolding begin_call abandon_call
    CallerMove-IsFresh (insert s' k) e u = ground (arith, store_call-after t s.system, fresh u)
    CallerMove-IsFresh mv e u = ground (arith, guard mv, fresh u, fresh t)

    CallerMove-live :
        {p : CallerPc} {s' : Locked D}
        → CallerMove s t p s'
        → (w : ℕ) → s'.system.dispatcher.active_writer ≡ some w
        → is_live (s'.streams w) ≡ true
    unfolding begin_call abandon_call
    CallerMove-live (insert s' k) w h = ground (arith, store_call-after t s.system, live w)
    CallerMove-live mv w h = live w h

    -- While a caller is inside of pending_mutex_, no answer has found anything.
    other_founds :
        (n : ℕ) (a : AnswerPc) (pending : Dict ℕ ℕ)
        → s.answers n ≡ a
        → s.pending_mutex ≡ some (dispatching t)
        → IsFound a pending
    other_founds n (found id status call) pending e h = absurd (ground (arith, pending_answers n))
    other_founds n no_answer pending e h = tt
    other_founds n leave_fulfill pending e h = tt
    other_founds n (want_fulfill id status) pending e h = tt
    other_founds n (in_fulfill id status) pending e h = tt
    other_founds n (erasing id) pending e h = tt

    CallerMove-founds :
        {p : CallerPc} {s' : Locked D}
        → CallerMove s t p s'
        → s.callers t ≡ p
        → (n : ℕ) → IsFound (s'.answers n) s'.system.dispatcher.pending
    unfolding begin_call abandon_call
    CallerMove-founds (insert s' k) e n =
        other_founds n (s.answers n) s'.dispatcher.pending refl (ground (arith, pending_callers t))
    CallerMove-founds forgets e n =
        other_founds n (s.answers n) _ refl (ground (arith, pending_callers t))
    CallerMove-founds erases e n =
        other_founds n (s.answers n) _ refl (ground (arith, pending_callers t))
    CallerMove-founds mv e n = founds n

    CallerMove-IsOwn :
        {p : CallerPc} {s' : Locked D}
        → CallerMove s t p s'
        → (w : ℕ) → IsOwn w (s'.streams w) s'.system.dispatcher.active_writer
    unfolding begin_call abandon_call
    CallerMove-IsOwn (insert s' k) w = ground (arith, store_call-after t s.system, own w)
    CallerMove-IsOwn mv w = own w

    pub CallerMove-Inv :
        {p : CallerPc} {s' : Locked D} → CallerMove s t p s' → s.callers t ≡ p → Inv s'
    CallerMove-Inv mv e =
        let (ws, wa, pa, ps) = CallerMove-others mv e in
        record {
          writer_callers = CallerMove-writer mv e;
          writer_streams = ws;
          writer_answers = wa;
          pending_callers = CallerMove-pending mv e;
          pending_answers = pa;
          pending_streams = ps;
          phases = CallerMove-phases mv e;
          fresh = CallerMove-IsFresh mv e;
          live = CallerMove-live mv;
          founds = CallerMove-founds mv e;
          own = CallerMove-IsOwn mv;
        }
