-- ===== src/Tests/Locks.antt =====
-- Two calls of dispatch, a stream and an answer at the locks of the dispatcher.
use dnp3_bridge.Base.{ℕ, ◌≡◌, refl, true, List, find, assign}
use dnp3_bridge.Commands.Message.{CommandRequest, success}
use dnp3_bridge.Commands.Handler.{relay, operate_request}
use dnp3_bridge.Commands.Dispatcher.{number_request, store_promise}
use dnp3_bridge.Commands.Interleaving.{Event, begin_call, store_call, run}
use dnp3_bridge.Commands.Locks.{
  dispatching, Locked, begin, lock_store, insert, get_future, unlock_store, write_true,
  unlock_write, gets, lock_fulfill, finds, sets_value, erases_entry, unlock_fulfill, unlock_open,
  lock_write, read_writer, connect, lock_open, registers, cancelled, respond, step_caller,
  step_stream, step_answer, Reach, here, next, Steps, no_step, more,
}
use dnp3_bridge.Commands.Locks.Refinement.{Reach-interleaved}
use dnp3_bridge.Commands.Locks.Safety.{writing-alone}
use dnp3_bridge.Commands.Locks.Progress.{CanGoOn, no_deadlock}
use dnp3_bridge.Commands.Locks.Invariant.{is_live}
use dnp3_bridge.Tests.Commands.{types, latch}

abbrev request : CommandRequest ℕ
request = operate_request types (relay latch) 4

-- Stream 9 is registered.
abbrev registered : (s : Locked ℕ) × Reach s
registered = (
  _,
  next
      (next (next (next (here) (step_stream 9 connect)) (step_stream 9 (lock_open refl)))
        (step_stream 9 registers))
      (step_stream 9 unlock_open),
)

-- Then a call begins and stores its promise.
abbrev promised : (s : Locked ℕ) × Reach s
unfolding begin_call store_call number_request store_promise operate_request find assign
promised = (
  _,
  next
      (next
        (next
          (next (next (registered.1) (step_caller 0 (begin request refl)))
            (step_caller 0 (lock_store refl)))
          (step_caller 0 (insert _ refl)))
        (step_caller 0 (get_future refl)))
      (step_caller 0 unlock_store),
)

-- The call is inside of Write; the stream is cancelled and about to wait for writer_mutex_.
abbrev in_write : (s : Locked ℕ) × Reach s
unfolding begin_call store_call number_request store_promise operate_request find assign
in_write = (
  _,
  next
      (next (next (promised.1) (step_caller 0 (lock_write refl)))
        (step_caller 0 (read_writer 9 refl)))
      (step_stream 9 cancelled),
)

writing-alone_example : (is_live (in_write.0.streams 9) ≡ true) × (◌≡◌ {A = ℕ} 0 0)
unfolding promised in_write
writing-alone_example = writing-alone 0 0 9 9 in_write.1 refl refl

-- From there Write succeeds, and the call gets its answer before the entry is erased.
abbrev answered : (s : Locked ℕ) × Steps (in_write.0) s
unfolding begin_call store_call number_request store_promise operate_request find assign promised
    in_write
answered = (
  _,
  more
      (more
        (more
          (more
            (more
              (more
                (more (more (more no_step (step_caller 0 write_true)) (step_caller 0 unlock_write))
                  (step_answer 0 (respond 1 success)))
                (step_answer 0 (lock_fulfill refl)))
              (step_answer 0 (finds 0 refl)))
            (step_answer 0 sets_value))
          (step_caller 0 (gets success refl)))
        (step_answer 0 erases_entry))
      (step_answer 0 unlock_fulfill),
)

Reach-interleaved_example : (es : List (Event ℕ)) × (run (in_write.0.system) es ≡ answered.0.system)
unfolding promised in_write answered
Reach-interleaved_example = Reach-interleaved in_write.1 answered.1 refl refl

-- A second call stores its promise and waits for writer_mutex_, while an answer comes.
abbrev contended : (s : Locked ℕ) × Reach s
unfolding begin_call store_call number_request store_promise operate_request find assign
contended = (
  _,
  next
      (next
        (next
          (next
            (next (next (in_write.1) (step_caller 1 (begin request refl)))
              (step_caller 1 (lock_store refl)))
            (step_caller 1 (insert _ refl)))
          (step_caller 1 (get_future refl)))
        (step_caller 1 unlock_store))
      (step_answer 0 (respond 1 success)),
)

no_deadlock_example : CanGoOn contended.0
unfolding promised in_write contended
no_deadlock_example = no_deadlock contended.0 (dispatching 1) contended.1 refl
