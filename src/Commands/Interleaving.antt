-- ===== src/Commands/Interleaving.antt =====
-- CommandDispatcher with any number of calls of dispatch at once. An event is one atomic part of a
-- call, or what another thread does: Python's answer, or a stream that opens or closes. A list of
-- events is one interleaving; an event that cannot happen in a state changes nothing.
pub mod Invariant
pub mod Change
pub mod Blocks
pub mod Steps
pub mod Pending
pub mod AnswerSteps
pub mod Answers
pub mod Late
pub mod Progress
pub mod Returns
pub mod Streams
use dnp3_bridge.Base.{
  ℕ, suc, ◌+◌, Bool, true, false, Option, none, some, List, [], ◌∷◌, if◌then◌else◌, eqb,
}
use dnp3_bridge.Commands.Message.{CommandStatus, CommandRequest, unspecified, no_payload}
use dnp3_bridge.Commands.Dispatcher.{
  Dispatcher, new_dispatcher, number_request, store_promise, WriteOutcome, write_request, give_up,
  fulfill, register_writer, release, StreamToken,
}

-- How far a call of dispatch has come: its id is drawn, its promise is stored, it waits for the
-- answer, wait_for has timed out, it has returned, or get_future has thrown.
pub data Phase : Type 0 where
  idle numbered stored awaiting expired threw : Phase
  returned : CommandStatus → Phase

-- `answer` is the state that promise and future share.
pub record Call (D : Type 0) : Type 0 where
  pub request : CommandRequest D
  pub phase : Phase
  pub answer : Option CommandStatus

pub record System (D : Type 0) : Type 0 where
  pub dispatcher : Dispatcher
  pub calls : ℕ → Call D
  pub started : ℕ

pub data Event (D : Type 0) : Type 0 where
  begin : CommandRequest D → Event D
  store : ℕ → Event D
  write : ℕ → WriteOutcome → Event D
  ready : ℕ → Event D
  expire : ℕ → Event D
  abandon : ℕ → Event D
  respond : (command_id : ℕ) → CommandStatus → Event D
  open_stream : (writer : ℕ) → Event D
  close_stream : (writer : ℕ) → Event D

module _ {D : Type 0} where
  abbrev pub no_call : Call D
  no_call = record {
    request = record {
      command_id = 0;
      point_index = 0;
      command_type = unspecified;
      payload = no_payload;
    };
    phase = idle;
    answer = none;
  }

  abbrev pub initial : System D
  initial = record { dispatcher = new_dispatcher; calls = λ t. no_call; started = 0 }

  abbrev pub set_call : ℕ → Call D → (ℕ → Call D) → ℕ → Call D
  set_call t c calls u = if eqb t u then c else calls u

  abbrev pub set_phase : ℕ → Phase → System D → System D
  set_phase t phase s = record s {
    calls = set_call t (record (s.calls t) { phase = phase }) s.calls;
  }

  unfoldable pub begin_call : CommandRequest D → System D → System D
  unfolding number_request
  begin_call request s =
      let (d, r) = number_request request s.dispatcher in
      record {
        dispatcher = d;
        calls =
            set_call s.started (record { request = r; phase = numbered; answer = none }) s.calls;
        started = suc s.started;
      }

  unfoldable pub store_call : Phase → ℕ → System D → System D
  unfolding store_promise
  store_call numbered t s = elim (store_promise (s.calls t).request.command_id t s.dispatcher) [
    | none ↦ set_phase t threw s
    | some d ↦ set_phase t stored (record s { dispatcher = d })
  ]
  store_call _ t s = s

  abbrev pub after_write : ℕ → Dispatcher × Option CommandStatus → System D → System D
  after_write t (d, none) s = set_phase t awaiting (record s { dispatcher = d })
  after_write t (d, some status) s = set_phase t (returned status) (record s { dispatcher = d })

  unfoldable pub write_call : Phase → ℕ → WriteOutcome → System D → System D
  unfolding write_request
  write_call stored t outcome s =
      after_write t (write_request (s.calls t).request.command_id outcome s.dispatcher) s
  write_call _ t outcome s = s

  -- future.get(), once the answer is there.
  unfoldable pub collect_call : Phase → Option CommandStatus → ℕ → System D → System D
  collect_call awaiting (some status) t s = set_phase t (returned status) s
  collect_call _ answer t s = s

  -- wait_for reports a timeout only while there is no answer.
  unfoldable pub expire_call : Phase → Option CommandStatus → ℕ → System D → System D
  expire_call awaiting none t s = set_phase t expired s
  expire_call _ answer t s = s

  unfoldable pub abandon_call : Phase → ℕ → System D → System D
  unfolding give_up
  abandon_call expired t s =
      let (d, status) = give_up (s.calls t).request.command_id s.dispatcher in
      set_phase t (returned status) (record s { dispatcher = d })
  abandon_call _ t s = s

  -- set_value
  abbrev pub deliver : CommandStatus → Dispatcher × Option ℕ → System D → System D
  deliver status (d, none) s = record s { dispatcher = d }
  deliver status (d, some t) s = record s {
    dispatcher = d;
    calls = set_call t (record (s.calls t) { answer = some status }) s.calls;
  }

  unfoldable pub respond_call : ℕ → CommandStatus → System D → System D
  unfolding fulfill
  respond_call command_id status s = deliver status (fulfill command_id s.dispatcher) s

  unfoldable pub step : Event D → System D → System D
  unfolding begin_call store_call write_call collect_call expire_call abandon_call respond_call
      register_writer release
  step (begin request) s = begin_call request s
  step (store t) s = store_call (s.calls t).phase t s
  step (write t outcome) s = write_call (s.calls t).phase t outcome s
  step (ready t) s = collect_call (s.calls t).phase (s.calls t).answer t s
  step (expire t) s = expire_call (s.calls t).phase (s.calls t).answer t s
  step (abandon t) s = abandon_call (s.calls t).phase t s
  step (respond command_id status) s = respond_call command_id status s
  step (open_stream writer) s = record s { dispatcher = (register_writer writer s.dispatcher).0 }
  step (close_stream writer) s = record s {
    dispatcher = (release (record { armed = true; writer = writer }) s.dispatcher).0;
  }

  unfoldable pub run : System D → List (Event D) → System D
  unfolding step
  run s [] = s
  run s (e ∷ es) = run (step e s) es
