-- ===== src/Commands/Locks/Invariant/Streams.antt =====
-- A step of StreamCommands keeps the invariant.
use dnp3_bridge.Base.{
  Option, false, inl, inr, Bool-cases, eqb, ℕ, ◌≡◌, ◌≢◌, ◌↔◌, true, none, some, arith, nat_eq,
}
use dnp3_bridge.Commands.Dispatcher.{is_writer}
use dnp3_bridge.Commands.Locks.{
  dispatching, answering, streaming, StreamPc, Locked, StreamMove, lock_open, lock_close, registers,
  finds_own, finds_other, clears, no_stream, want_open, in_open, leave_open, open_loop, want_close,
  in_close, clearing, leave_close,
}
use dnp3_bridge.Commands.Locks.Invariant.{
  has_writer, has_pending, stream_has_writer, answer_has_pending, is_live, IsAt, IsFresh, IsFound,
  IsOwn, Inv,
}

-- What a stream does to active_writer_ leaves the others' comparison.
IsOwn-others :
    (w : ℕ) (p : StreamPc) (active : Option ℕ) → stream_has_writer p ≡ false → IsOwn w p active
IsOwn-others w clearing active h = absurd (cc)
IsOwn-others w no_stream active h = tt
IsOwn-others w want_open active h = tt
IsOwn-others w in_open active h = tt
IsOwn-others w leave_open active h = tt
IsOwn-others w open_loop active h = tt
IsOwn-others w want_close active h = tt
IsOwn-others w in_close active h = tt
IsOwn-others w leave_close active h = tt

module _ {D : Type 0} where
  abbrev Guard :
      {s : Locked D} {w : ℕ} {p : StreamPc} {s' : Locked D} → StreamMove s w p s' → Type 0
  Guard {s} (lock_open e) = s.writer_mutex ≡ none
  Guard {s} (lock_close e) = s.writer_mutex ≡ none
  Guard {s} {w = w} (finds_own e) = is_writer s.system.dispatcher.active_writer w ≡ true
  Guard {s} {w = w} (finds_other e) = is_writer s.system.dispatcher.active_writer w ≡ false
  Guard _ = Unit {0}

  guard :
      {s : Locked D} {w : ℕ} {p : StreamPc} {s' : Locked D} (mv : StreamMove s w p s') → Guard mv
  guard (lock_open e) = e
  guard (lock_close e) = e
  guard (finds_own e) = e
  guard (finds_other e) = e
  guard _ = tt

  module _ {s : Locked D} (inv : Inv s) where
    open inv use {
      writer_callers, writer_streams, writer_answers, pending_callers, pending_answers,
      pending_streams, phases, fresh, live, founds, own,
    }

    module _ (w : ℕ) where
      StreamMove-writer :
          {p : StreamPc} {s' : Locked D}
          → StreamMove s w p s'
          → s.streams w ≡ p
          → (v : ℕ)
          → (stream_has_writer (s'.streams v) ≡ true) ↔ (s'.writer_mutex ≡ some (streaming v))
      StreamMove-writer (lock_open k) e v = ground (arith, writer_streams v, writer_streams w)
      StreamMove-writer mv e v = ground (arith, guard mv, writer_streams v, writer_streams w)

      StreamMove-callers :
          {p : StreamPc} {s' : Locked D}
          → StreamMove s w p s'
          → s.streams w ≡ p
          → ((t : ℕ)
              → (has_writer (s'.callers t) ≡ true) ↔ (s'.writer_mutex ≡ some (dispatching t)))
            × ((n : ℕ) → s'.writer_mutex ≢ some (answering n))
            × ((t : ℕ) → IsAt (s'.callers t) (s'.system.calls t).phase)
            × ((t : ℕ) → IsFresh (s'.callers t) s'.system.dispatcher.active_writer)
            × ((v : ℕ)
                → s'.system.dispatcher.active_writer ≡ some v
                → is_live (s'.streams v) ≡ true)
      StreamMove-callers (lock_open k) e = (
        (λ t. ground (arith, writer_callers t)),
        (λ n. ground arith),
        phases,
        fresh,
        (λ v h. ground (arith, live v)),
      )
      StreamMove-callers mv e = (
        (λ t. ground (arith, guard mv, writer_callers t, writer_streams w)),
        (λ n. ground (arith, writer_answers n)),
        (λ t. phases t),
        (λ t. ground (arith, guard mv, fresh t, writer_callers t, writer_streams w)),
        (λ v h. ground (arith, guard mv, own w, live v)),
      )

      StreamMove-pending :
          {p : StreamPc} {s' : Locked D}
          → StreamMove s w p s'
          → ((t : ℕ)
              → (has_pending (s'.callers t) ≡ true) ↔ (s'.pending_mutex ≡ some (dispatching t)))
            × ((n : ℕ)
                → (answer_has_pending (s'.answers n) ≡ true)
                  ↔ (s'.pending_mutex ≡ some (answering n)))
            × ((v : ℕ) → s'.pending_mutex ≢ some (streaming v))
      StreamMove-pending (lock_open k) = (pending_callers, pending_answers, pending_streams)
      StreamMove-pending mv =
          ((λ t. pending_callers t), (λ n. pending_answers n), λ v. pending_streams v)

      StreamMove-IsOwn :
          {p : StreamPc} {s' : Locked D}
          → StreamMove s w p s'
          → s.streams w ≡ p
          → (v : ℕ) → IsOwn v (s'.streams v) s'.system.dispatcher.active_writer
      StreamMove-IsOwn registers e v = elim (Bool-cases (eqb w v)) [
        | inl same ↦ rw same tt
        | inr other ↦
            rw other
              (IsOwn-others v (s.streams v) _ (ground (arith, writer_streams v, writer_streams w)))
      ]
      StreamMove-IsOwn clears e v = elim (Bool-cases (eqb w v)) [
        | inl same ↦ rw same tt
        | inr other ↦
            rw other
              (IsOwn-others v (s.streams v) _ (ground (arith, writer_streams v, writer_streams w)))
      ]
      StreamMove-IsOwn mv e v = ground (arith, guard mv, own v)

      StreamMove-founds :
          {p : StreamPc} {s' : Locked D}
          → StreamMove s w p s'
          → (n : ℕ) → IsFound (s'.answers n) s'.system.dispatcher.pending
      StreamMove-founds (lock_open k) n = founds n
      StreamMove-founds mv n = founds n

      pub StreamMove-Inv :
          {p : StreamPc} {s' : Locked D} → StreamMove s w p s' → s.streams w ≡ p → Inv s'
      StreamMove-Inv mv e =
          let (callers, answers, at, read, alive) = StreamMove-callers mv e in
          let (pc, pa, ps) = StreamMove-pending mv in
          record {
            writer_callers = callers;
            writer_streams = StreamMove-writer mv e;
            writer_answers = answers;
            pending_callers = pc;
            pending_answers = pa;
            pending_streams = ps;
            phases = at;
            fresh = read;
            live = alive;
            founds = StreamMove-founds mv;
            own = StreamMove-IsOwn mv e;
          }
