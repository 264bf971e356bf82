-- ===== src/Commands/Locks.antt =====
-- The locks of src/dnp3/CommandDispatcher.cpp: the threads that take writer_mutex_ and
-- pending_mutex_, one operation on a lock or one access between two of them at a time. A call of dispatch,
-- a StreamCommands call and a RespondToCommand call run on threads of their own: the first is known by
-- its place in the order in which ids are drawn, the second by its writer, the third by any number.
pub mod Invariant
pub mod Reachable
pub mod Settled
pub mod Refinement
pub mod Safety
pub mod Progress
use dnp3_bridge.Base.{find, nat_eq, true, false, ℕ, ◌≡◌, Option, none, some, if◌then◌else◌, eqb}
use dnp3_bridge.Commands.Message.{CommandStatus, CommandRequest, not_supported, downstream_fail}
use dnp3_bridge.Commands.Dispatcher.{forget, is_writer}
use dnp3_bridge.Commands.Interleaving.{
  stored, numbered, awaiting, expired, threw, returned, System, initial, set_phase, begin_call,
  store_call, abandon_call, deliver,
}

pub data Thread : Type 0 where
  dispatching answering streaming : ℕ → Thread

-- Why dispatch gives up under writer_mutex_: there is no writer, or Write on this one failed.
pub data Failure : Type 0 where
  no_writer : Failure
  not_written : (writer : ℕ) → Failure

-- Where dispatch stands: `want_` is before a lock, `in_` inside of it before the first access, and
-- `leave_` inside of it before its release; at `inserted` operator[] has returned, and at `failed`
-- pending_mutex_ is released and writer_mutex_ is not.
pub data CallerPc : Type 0 where
  outside want_store in_store inserted leave_store leave_threw : CallerPc
  want_write in_write leave_write waiting want_erase in_erase leave_erase finished : CallerPc
  writing : (writer : ℕ) → CallerPc
  want_forget in_forget : Failure → CallerPc
  leave_forget failed : CallerPc

-- Where StreamCommands stands; `want_close` is before the lock of StreamToken::release, and at
-- `clearing` the writer has been compared and is the stream's own.
pub data StreamPc : Type 0 where
  no_stream want_open in_open leave_open open_loop : StreamPc
  want_close in_close clearing leave_close : StreamPc

-- Where fulfill stands: at `found` the map has been searched, and at `erasing` the promise of that
-- entry has its value.
pub data AnswerPc : Type 0 where
  no_answer leave_fulfill : AnswerPc
  want_fulfill in_fulfill : (command_id : ℕ) → CommandStatus → AnswerPc
  found : (command_id : ℕ) → CommandStatus → (call : ℕ) → AnswerPc
  erasing : (command_id : ℕ) → AnswerPc

pub record Locked (D : Type 0) : Type 0 where
  pub system : System D
  pub callers : ℕ → CallerPc
  pub streams : ℕ → StreamPc
  pub answers : ℕ → AnswerPc
  pub writer_mutex : Option Thread
  pub pending_mutex : Option Thread

abbrev pub set_pc {ℓ} : {A : Type ℓ} → ℕ → A → (ℕ → A) → ℕ → A
set_pc t p pcs u = if eqb t u then p else pcs u

abbrev pub failure_status : Failure → CommandStatus
failure_status no_writer = not_supported
failure_status (not_written writer) = downstream_fail

module _ {D : Type 0} where
  abbrev pub new_locked : Locked D
  new_locked = record {
    system = initial;
    callers = λ t. outside;
    streams = λ w. no_stream;
    answers = λ n. no_answer;
    writer_mutex = none;
    pending_mutex = none;
  }

  -- A thread goes on; the sections of a lock follow.
  abbrev pub goes : ℕ → CallerPc → Locked D → Locked D
  goes t p s = record s { callers = set_pc t p s.callers }

  abbrev pub streams_to : ℕ → StreamPc → Locked D → Locked D
  streams_to w p s = record s { streams = set_pc w p s.streams }

  abbrev pub answers_to : ℕ → AnswerPc → Locked D → Locked D
  answers_to n p s = record s { answers = set_pc n p s.answers }

  -- dispatch. The phase of a call is no memory of the program: it is set in the step that decides it.
  pub data CallerMove (s : Locked D) (t : ℕ) : CallerPc → Locked D → Type 0 where
    begin :
        (r : CommandRequest D)
        → t ≡ s.system.started
        → CallerMove s t outside (goes t want_store (record s { system = begin_call r s.system }))
    lock_store :
        s.pending_mutex ≡ none
        → CallerMove s t want_store
            (goes t in_store (record s { pending_mutex = some (dispatching t) }))
    insert :
        (s' : System D)
        → s' ≡ store_call numbered t s.system
        → CallerMove s t in_store (goes t inserted (record s { system = s' }))
    get_future : (s.system.calls t).phase ≡ stored → CallerMove s t inserted (goes t leave_store s)
    future_throws :
        (s.system.calls t).phase ≡ threw → CallerMove s t inserted (goes t leave_threw s)
    unlock_store :
        CallerMove s t leave_store (goes t want_write (record s { pending_mutex = none }))
    unlock_threw : CallerMove s t leave_threw (goes t finished (record s { pending_mutex = none }))
    lock_write :
        s.writer_mutex ≡ none
        → CallerMove s t want_write
            (goes t in_write (record s { writer_mutex = some (dispatching t) }))
    read_writer :
        (w : ℕ)
        → s.system.dispatcher.active_writer ≡ some w
        → CallerMove s t in_write (goes t (writing w) s)
    read_none :
        s.system.dispatcher.active_writer ≡ none
        → CallerMove s t in_write (goes t (want_forget no_writer) s)
    write_true :
        {w : ℕ}
        → CallerMove s t
            (writing w)
            (goes t leave_write (record s { system = set_phase t awaiting s.system }))
    write_fails : {w : ℕ} → CallerMove s t (writing w) (goes t (want_forget (not_written w)) s)
    unlock_write : CallerMove s t leave_write (goes t waiting (record s { writer_mutex = none }))
    lock_forget :
        {e : Failure}
        → s.pending_mutex ≡ none
        → CallerMove s t
            (want_forget e)
            (goes t (in_forget e) (record s { pending_mutex = some (dispatching t) }))
    forgets :
        {e : Failure}
        → CallerMove s t (in_forget e) (
            goes t leave_forget (record s {
              system = set_phase t (returned (failure_status e)) (record s.system {
                dispatcher = forget (s.system.calls t).request.command_id s.system.dispatcher;
              });
            }))
    unlock_forget : CallerMove s t leave_forget (goes t failed (record s { pending_mutex = none }))
    unlock_failed : CallerMove s t failed (goes t finished (record s { writer_mutex = none }))
    gets :
        (status : CommandStatus)
        → (s.system.calls t).answer ≡ some status
        → CallerMove s t waiting
            (goes t finished (record s { system = set_phase t (returned status) s.system }))
    times_out :
        (s.system.calls t).answer ≡ none
        → CallerMove s t waiting
            (goes t want_erase (record s { system = set_phase t expired s.system }))
    lock_erase :
        s.pending_mutex ≡ none
        → CallerMove s t want_erase
            (goes t in_erase (record s { pending_mutex = some (dispatching t) }))
    erases :
        CallerMove s t in_erase
          (goes t leave_erase (record s { system = abandon_call expired t s.system }))
    unlock_erase : CallerMove s t leave_erase (goes t finished (record s { pending_mutex = none }))

  -- StreamCommands
  pub data StreamMove (s : Locked D) (w : ℕ) : StreamPc → Locked D → Type 0 where
    connect : StreamMove s w no_stream (streams_to w want_open s)
    lock_open :
        s.writer_mutex ≡ none
        → StreamMove s w want_open
            (streams_to w in_open (record s { writer_mutex = some (streaming w) }))
    registers : StreamMove s w in_open (
        streams_to w leave_open (record s {
          system = record s.system {
            dispatcher = record s.system.dispatcher { active_writer = some w };
          };
        }))
    unlock_open :
        StreamMove s w leave_open (streams_to w open_loop (record s { writer_mutex = none }))
    cancelled : StreamMove s w open_loop (streams_to w want_close s)
    lock_close :
        s.writer_mutex ≡ none
        → StreamMove s w want_close
            (streams_to w in_close (record s { writer_mutex = some (streaming w) }))
    finds_own :
        is_writer s.system.dispatcher.active_writer w ≡ true
        → StreamMove s w in_close (streams_to w clearing s)
    finds_other :
        is_writer s.system.dispatcher.active_writer w ≡ false
        → StreamMove s w in_close (streams_to w leave_close s)
    clears : StreamMove s w clearing (
        streams_to w leave_close (record s {
          system = record s.system {
            dispatcher = record s.system.dispatcher { active_writer = none };
          };
        }))
    unlock_close :
        StreamMove s w leave_close (streams_to w no_stream (record s { writer_mutex = none }))

  -- RespondToCommand
  pub data AnswerMove (s : Locked D) (n : ℕ) : AnswerPc → Locked D → Type 0 where
    respond :
        (command_id : ℕ) (status : CommandStatus)
        → AnswerMove s n no_answer (answers_to n (want_fulfill command_id status) s)
    lock_fulfill :
        {command_id : ℕ} {status : CommandStatus}
        → s.pending_mutex ≡ none
        → AnswerMove s n (want_fulfill command_id status) (
            answers_to n
              (in_fulfill command_id status)
              (record s { pending_mutex = some (answering n) }))
    finds :
        {command_id : ℕ} {status : CommandStatus} (call : ℕ)
        → find command_id s.system.dispatcher.pending ≡ some call
        → AnswerMove s n
            (in_fulfill command_id status)
            (answers_to n (found command_id status call) s)
    misses :
        {command_id : ℕ} {status : CommandStatus}
        → find command_id s.system.dispatcher.pending ≡ none
        → AnswerMove s n (in_fulfill command_id status) (answers_to n leave_fulfill s)
    sets_value :
        {command_id : ℕ} {status : CommandStatus} {call : ℕ}
        → AnswerMove s n (found command_id status call) (
            answers_to n
              (erasing command_id)
              (record s { system = deliver status (s.system.dispatcher, some call) s.system }))
    erases_entry :
        {command_id : ℕ}
        → AnswerMove s n (erasing command_id) (
            answers_to n leave_fulfill (record s {
              system = record s.system { dispatcher = forget command_id s.system.dispatcher };
            }))
    unlock_fulfill :
        AnswerMove s n leave_fulfill (answers_to n no_answer (record s { pending_mutex = none }))

  pub data Step (s : Locked D) : Thread → Locked D → Type 0 where
    step_caller :
        (t : ℕ) {s' : Locked D} → CallerMove s t (s.callers t) s' → Step s (dispatching t) s'
    step_stream :
        (w : ℕ) {s' : Locked D} → StreamMove s w (s.streams w) s' → Step s (streaming w) s'
    step_answer :
        (n : ℕ) {s' : Locked D} → AnswerMove s n (s.answers n) s' → Step s (answering n) s'

  pub data Reach : Locked D → Type 0 where
    here : Reach new_locked
    next : {s s' : Locked D} {x : Thread} → Reach s → Step s x s' → Reach s'

  -- Any number of steps from the first state to the second.
  pub data Steps (s : Locked D) : Locked D → Type 0 where
    no_step : Steps s s
    more : {s' s'' : Locked D} {x : Thread} → Steps s s' → Step s' x s'' → Steps s s''
