-- ===== src/Commands/Locks/Invariant.antt =====
-- What holds between two steps of the dispatcher's threads.
pub mod Callers
pub mod Streams
pub mod Answers
use dnp3_bridge.Base.{
  Dict, find, nat_eq, ℕ, ◌≡◌, ◌≢◌, ◌↔◌, ◌⊎◌, Bool, true, false, Option, none, some,
}
use dnp3_bridge.Commands.Message.{CommandStatus}
use dnp3_bridge.Commands.Interleaving.{
  Phase, idle, numbered, stored, awaiting, expired, returned, threw,
}
use dnp3_bridge.Commands.Dispatcher.{is_writer}
use dnp3_bridge.Commands.Locks.{
  Thread, dispatching, answering, streaming, Failure, no_writer, not_written, CallerPc, outside,
  want_store, in_store, inserted, leave_store, leave_threw, want_write, in_write, leave_write,
  waiting, want_erase, in_erase, leave_erase, finished, writing, want_forget, in_forget,
  leave_forget, failed, StreamPc, no_stream, want_open, in_open, leave_open, open_loop, want_close,
  in_close, clearing, leave_close, AnswerPc, no_answer, want_fulfill, in_fulfill, found, erasing,
  leave_fulfill, Locked,
}

-- The places that are inside of writer_mutex_.
abbrev pub has_writer : CallerPc → Bool
has_writer in_write = true
has_writer (writing w) = true
has_writer leave_write = true
has_writer (want_forget e) = true
has_writer (in_forget e) = true
has_writer leave_forget = true
has_writer failed = true
has_writer _ = false

-- The places that are inside of pending_mutex_.
abbrev pub has_pending : CallerPc → Bool
has_pending in_store = true
has_pending inserted = true
has_pending leave_store = true
has_pending leave_threw = true
has_pending (in_forget e) = true
has_pending leave_forget = true
has_pending in_erase = true
has_pending leave_erase = true
has_pending _ = false

abbrev pub stream_has_writer : StreamPc → Bool
stream_has_writer in_open = true
stream_has_writer leave_open = true
stream_has_writer in_close = true
stream_has_writer clearing = true
stream_has_writer leave_close = true
stream_has_writer _ = false

abbrev pub answer_has_pending : AnswerPc → Bool
answer_has_pending (in_fulfill command_id status) = true
answer_has_pending (found command_id status call) = true
answer_has_pending (erasing command_id) = true
answer_has_pending leave_fulfill = true
answer_has_pending _ = false

-- The writer is registered, and its StreamCommands call has not released it.
abbrev pub is_live : StreamPc → Bool
is_live leave_open = true
is_live open_loop = true
is_live want_close = true
is_live in_close = true
is_live clearing = true
is_live _ = false

abbrev pub is_over : Phase → Bool
is_over (returned status) = true
is_over threw = true
is_over _ = false

-- Whether operator[] has run.
abbrev pub is_placed : Phase → Bool
is_placed stored = true
is_placed threw = true
is_placed _ = false

-- Where a caller stands, and the phase of its call.
abbrev pub IsAt : CallerPc → Phase → Type 0
IsAt outside p = p ≡ idle
IsAt want_store p = p ≡ numbered
IsAt in_store p = p ≡ numbered
IsAt inserted p = is_placed p ≡ true
IsAt leave_threw p = is_over p ≡ true
IsAt leave_write p = p ≡ awaiting
IsAt leave_forget p = is_over p ≡ true
IsAt failed p = is_over p ≡ true
IsAt leave_erase p = is_over p ≡ true
IsAt waiting p = p ≡ awaiting
IsAt want_erase p = p ≡ expired
IsAt in_erase p = p ≡ expired
IsAt finished p = is_over p ≡ true
IsAt _ p = p ≡ stored

-- What a caller has read of active_writer_ is still so.
abbrev pub IsFresh : CallerPc → Option ℕ → Type 0
IsFresh (writing w) active = active ≡ some w
IsFresh (want_forget no_writer) active = active ≡ none
IsFresh (want_forget (not_written w)) active = active ≡ some w
IsFresh (in_forget no_writer) active = active ≡ none
IsFresh (in_forget (not_written w)) active = active ≡ some w
IsFresh _ active = Unit {0}

-- What fulfill has found is still in the map.
abbrev pub IsFound : AnswerPc → Dict ℕ ℕ → Type 0
IsFound (found command_id status call) pending = find command_id pending ≡ some call
IsFound _ pending = Unit {0}

-- The writer that release has compared is still its own.
abbrev pub IsOwn : ℕ → StreamPc → Option ℕ → Type 0
IsOwn w clearing active = is_writer active w ≡ true
IsOwn w _ active = Unit {0}

module _ {D : Type 0} where
  pub record Inv (s : Locked D) : Type 0 where
    pub writer_callers :
        (t : ℕ) → (has_writer (s.callers t) ≡ true) ↔ (s.writer_mutex ≡ some (dispatching t))
    pub writer_streams :
        (w : ℕ) → (stream_has_writer (s.streams w) ≡ true) ↔ (s.writer_mutex ≡ some (streaming w))
    pub writer_answers : (n : ℕ) → s.writer_mutex ≢ some (answering n)
    pub pending_callers :
        (t : ℕ) → (has_pending (s.callers t) ≡ true) ↔ (s.pending_mutex ≡ some (dispatching t))
    pub pending_answers :
        (n : ℕ) → (answer_has_pending (s.answers n) ≡ true) ↔ (s.pending_mutex ≡ some (answering n))
    pub pending_streams : (w : ℕ) → s.pending_mutex ≢ some (streaming w)
    pub phases : (t : ℕ) → IsAt (s.callers t) (s.system.calls t).phase
    pub fresh : (t : ℕ) → IsFresh (s.callers t) s.system.dispatcher.active_writer
    pub live : (w : ℕ) → s.system.dispatcher.active_writer ≡ some w → is_live (s.streams w) ≡ true
    pub founds : (n : ℕ) → IsFound (s.answers n) s.system.dispatcher.pending
    pub own : (w : ℕ) → IsOwn w (s.streams w) s.system.dispatcher.active_writer
