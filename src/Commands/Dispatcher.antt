-- ===== src/Commands/Dispatcher.antt =====
-- CommandDispatcher and its StreamToken, src/dnp3/CommandDispatcher.cpp. A writer pointer is a
-- number; a promise is known by the call of dispatch whose future it feeds. dispatch is given as its
-- atomic parts: each runs under one lock, or is one atomic operation, and other threads may run
-- between two of them (Interleaving).
pub mod Token
use dnp3_bridge.Base.{
  ℕ, ◌+◌, Bool, true, false, Option, none, some, [], Dict, find, assign, erase, is_some, u64,
  if◌then◌else◌, ◌==◌, nat_eq, eqb,
}
use dnp3_bridge.Commands.Message.{
  CommandStatus, timeout, not_supported, downstream_fail, CommandRequest,
}

pub record Dispatcher : Type 0 where
  pub next_id : ℕ  -- uint64
  pub active_writer : Option ℕ
  pub pending : Dict ℕ ℕ

abbrev pub new_dispatcher : Dispatcher
new_dispatcher = record { next_id = 1; active_writer = none; pending = [] }

-- fetch_add and set_command_id
unfoldable pub number_request :
    {D : Type 0} → CommandRequest D → Dispatcher → Dispatcher × CommandRequest D
number_request request d =
    (record d { next_id = u64 (d.next_id + 1) }, record request { command_id = d.next_id })

-- pending_[command_id] and get_future: the promise of an id that is still in the map has its future
-- already, and get_future throws, which is `none`.
unfoldable pub store_promise : ℕ → ℕ → Dispatcher → Option Dispatcher
store_promise command_id call d =
    if is_some (find command_id d.pending)
    then none
    else some (record d { pending = assign command_id call d.pending })

-- How Write ends: it returns true or false, or it throws.
pub data WriteOutcome : Type 0 where
  written refused raised : WriteOutcome

abbrev pub forget : ℕ → Dispatcher → Dispatcher
forget command_id d = record d { pending = erase command_id d.pending }

-- The block under writer_mutex_: what dispatch returns there, or none if it goes on to wait.
unfoldable pub write_request : ℕ → WriteOutcome → Dispatcher → Dispatcher × Option CommandStatus
write_request command_id outcome d = elim d.active_writer [
  | none ↦ (forget command_id d, some not_supported)
  | some writer ↦ elim outcome [
    | written ↦ (d, none)
    | refused ↦ (forget command_id d, some downstream_fail)
    | raised ↦ (forget command_id d, some downstream_fail)
  ]
]

-- The branch that wait_for's timeout takes.
unfoldable pub give_up : ℕ → Dispatcher → Dispatcher × CommandStatus
give_up command_id d = (forget command_id d, timeout)

-- The call whose promise got the status, if there is one; the caller sees whether there is.
unfoldable pub fulfill : ℕ → Dispatcher → Dispatcher × Option ℕ
fulfill command_id d = elim (find command_id d.pending) [
  | none ↦ (d, none)
  | some call ↦ (forget command_id d, some call)
]

-- `armed` tells whether dispatcher_ is set.
pub record StreamToken : Type 0 where
  pub armed : Bool
  pub writer : ℕ

unfoldable pub register_writer : ℕ → Dispatcher → Dispatcher × StreamToken
register_writer writer d =
    (record d { active_writer = some writer }, record { armed = true; writer = writer })

abbrev pub is_writer : Option ℕ → ℕ → Bool
is_writer none writer = false
is_writer (some w) writer = eqb w writer

unfoldable pub release : StreamToken → Dispatcher → Dispatcher × StreamToken
release token d =
    if token.armed
    then (
      if is_writer d.active_writer token.writer then record d { active_writer = none } else d,
      record token { armed = false },
    )
    else (d, token)

-- The move constructor: the new token and the other one after it.
unfoldable pub move_token : StreamToken → StreamToken × StreamToken
move_token other = (other, record other { armed = false })

-- The move assignment to another object: the assigned token and the other one after it.
unfoldable pub assign_token :
    StreamToken → StreamToken → Dispatcher → Dispatcher × StreamToken × StreamToken
unfolding release
assign_token token other d = ((release token d).0, other, record other { armed = false })
