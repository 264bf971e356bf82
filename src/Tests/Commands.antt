-- ===== src/Tests/Commands.antt =====
-- Interleavings of calls of dispatch, and a forwarded relay command.
use dnp3_bridge.Base.{
  ℕ, ◌≡◌, refl, ◌⊎◌, ◌↔◌, true, none, some, List, [], ◌∷◌, ◌++◌, find, assign, erase, nat_eq, arith,
}
use dnp3_bridge.Commands.Message.{
  CommandStatus, CommandRequest, success, timeout, not_supported, downstream_fail,
}
use dnp3_bridge.Commands.Dispatcher.{
  number_request, store_promise, write_request, written, give_up, fulfill, register_writer,
}
use dnp3_bridge.Commands.Interleaving.{
  returned, Event, begin, store, write, ready, expire, abandon, respond, open_stream, close_stream,
  initial, begin_call, store_call, write_call, collect_call, expire_call, abandon_call,
  respond_call, step, run,
}
use dnp3_bridge.Commands.Interleaving.Invariant.{is_open}
use dnp3_bridge.Commands.Interleaving.Pending.{pending_iff}
use dnp3_bridge.Commands.Interleaving.Answers.{IsAmong, returned_justified, fulfill-once}
use dnp3_bridge.Commands.Interleaving.Streams.{IsLastOpened, active_writer_iff}
use dnp3_bridge.Commands.Interleaving.Returns.{turns, dispatch-returns}
use dnp3_bridge.Commands.Interleaving.Late.{respond-too_late}
use dnp3_bridge.Commands.Handler.{
  relay, op_latch_on, AnalogTypes, ControlRelayOutputBlock, operate_request,
}

abbrev pub types : AnalogTypes ℕ
types = record {
  Int16 = ℕ;
  Int32 = ℕ;
  Float32 = ℕ;
  of_int16 = λ n. n;
  of_int32 = λ n. n;
  of_float32 = λ n. n;
}

abbrev pub latch : ControlRelayOutputBlock
latch = record { op_type = op_latch_on; count = 1; on_time_ms = 100; off_time_ms = 0 }

-- A stream opens, and two calls begin, store their promises and write.
abbrev two_calls : List (Event ℕ)
two_calls =
    open_stream 9
    ∷ begin (operate_request types (relay latch) 4)
    ∷ begin (operate_request types (relay latch) 5)
    ∷ store 1
    ∷ store 0
    ∷ write 0 written
    ∷ write 1 written
    ∷ []

-- The second call is answered and returns; the first one times out.
abbrev answered : List (Event ℕ)
answered = two_calls ++ respond 2 success ∷ ready 1 ∷ expire 0 ∷ []

returned_justified_example :
    (success ≡ not_supported)
    ⊎ (success ≡ downstream_fail)
    ⊎ (success ≡ timeout)
    ⊎ IsAmong (respond 2 success) answered
unfolding run step begin_call store_call write_call collect_call expire_call respond_call
    number_request store_promise write_request fulfill register_writer find assign erase
returned_justified_example = returned_justified answered 1 success (omega arith) refl

-- The first call's id stands in the map, for it.
pending_iff_example : (find 1 (run initial answered).dispatcher.pending ≡ some 0) ↔ (
    (1 ≡ ((run initial answered).calls 0).request.command_id)
    × (is_open ((run initial answered).calls 0).phase ≡ true)
    × (((run initial answered).calls 0).answer ≡ none))
unfolding run step begin_call store_call write_call collect_call expire_call respond_call
    number_request store_promise write_request fulfill register_writer find assign erase
pending_iff_example = pending_iff answered (omega arith) 1 0

fulfill-once_example :
    let s = run (step (respond 2 success) (run initial two_calls)) (respond 2 timeout ∷ []) in
    ((s.calls 1).answer ≡ some success) × ((fulfill 2 s.dispatcher).1 ≡ none)
unfolding run step begin_call store_call write_call collect_call expire_call respond_call
    number_request store_promise write_request fulfill register_writer find assign erase
fulfill-once_example =
    fulfill-once two_calls (respond 2 timeout ∷ []) 2 1 success (omega arith) refl

respond-too_late_example :
    let s = run initial answered in
    ((fulfill 1 s.dispatcher).1 ≡ some 0)
    × (((step (abandon 0) (step (respond 1 success) s)).calls 0).phase ≡ returned timeout)
unfolding run step begin_call store_call write_call collect_call expire_call respond_call
    number_request store_promise write_request fulfill register_writer find assign erase
respond-too_late_example = respond-too_late answered 0 success (omega arith) refl refl

-- Stream 9 opens, stream 3 takes over, and 9 closes.
abbrev takeover : List (Event ℕ)
takeover = open_stream 9 ∷ open_stream 3 ∷ close_stream 9 ∷ []

active_writer_iff_example :
    ((run initial takeover).dispatcher.active_writer ≡ some 3) ↔ IsLastOpened 3 takeover
active_writer_iff_example = active_writer_iff takeover 3

-- A third call, that Python answers after it has been written and before the deadline.
abbrev third : CommandRequest ℕ
third = operate_request types (relay latch) 6

abbrev third_turns : List (Event ℕ)
third_turns = turns 2 (respond 1 success ∷ []) [] (respond 3 success ∷ ready 0 ∷ []) [] [] written

dispatch-returns_example :
    (status : CommandStatus) × (((run initial (two_calls ++ begin third ∷ third_turns)).calls
        2).phase
      ≡ returned status)
unfolding run step begin_call store_call write_call collect_call expire_call abandon_call
    respond_call number_request store_promise write_request give_up fulfill register_writer find
    assign erase
dispatch-returns_example =
    dispatch-returns two_calls (respond 1 success ∷ []) [] (respond 3 success ∷ ready 0 ∷ []) [] []
      third written (omega arith)
