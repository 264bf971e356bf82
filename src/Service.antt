-- ===== src/Service.antt =====
-- src/grpc/BridgeServiceImpl.cpp: the handlers of the gRPC service, with the messages of
-- proto/dnp3bridge.proto. The type D stands for double. proto3 enumerations are open: a value that
-- the program does not know arrives as a number.
pub mod Updates
pub mod Streams
pub mod Concurrent
use dnp3_bridge.Base.{
  ℕ, String, Bool, true, false, Option, none, some, List, [], ◌∷◌, ◌++◌, map, is_some, u16,
  if◌then◌else◌,
}
use mathlib.Core.Option
use dnp3_bridge.DataModel.{Quality, good, uncertain, bad, restart, PointUpdate, analog, binary}
use dnp3_bridge.Commands.Message.{
  CommandStatus, success, timeout, no_select, format_error, not_supported, already_active,
  hardware_error, local, too_many_ops, not_authorized, downstream_fail, undefined,
}
use dnp3_bridge.Commands.Dispatcher.{Dispatcher, fulfill, register_writer, release}

pub data PointQuality : Type 0 where
  quality_good quality_uncertain quality_bad quality_restart : PointQuality
  quality_unknown : ℕ → PointQuality

pub data CommandResultStatus : Type 0 where
  result_success result_timeout result_no_select result_format_error : CommandResultStatus
  result_not_supported result_already_active result_hardware_error : CommandResultStatus
  result_local result_too_many_ops result_not_authorized : CommandResultStatus
  result_downstream_fail : CommandResultStatus
  result_unknown : ℕ → CommandResultStatus

pub record AnalogPoint (D : Type 0) : Type 0 where
  pub index : ℕ  -- uint32
  pub value : D
  pub quality : PointQuality

pub record BinaryPoint : Type 0 where
  pub index : ℕ  -- uint32
  pub value : Bool
  pub quality : PointQuality

pub record CounterPoint : Type 0 where
  pub index : ℕ  -- uint32
  pub value : ℕ  -- uint32
  pub quality : PointQuality

pub record UpdateRequest (D : Type 0) : Type 0 where
  pub analogs : List (AnalogPoint D)
  pub binaries : List BinaryPoint
  pub counters : List CounterPoint

pub record UpdateResponse : Type 0 where
  pub accepted : Bool  -- success
  pub message : String

pub data OutstationState : Type 0 where
  unknown connected disconnected : OutstationState

pub record StatusResponse : Type 0 where
  pub state : OutstationState
  pub last_update_timestamp_ms : ℕ  -- uint64

unfoldable pub to_command_status : CommandResultStatus → CommandStatus
to_command_status result_success = success
to_command_status result_timeout = timeout
to_command_status result_no_select = no_select
to_command_status result_format_error = format_error
to_command_status result_not_supported = not_supported
to_command_status result_already_active = already_active
to_command_status result_hardware_error = hardware_error
to_command_status result_local = local
to_command_status result_too_many_ops = too_many_ops
to_command_status result_not_authorized = not_authorized
to_command_status result_downstream_fail = downstream_fail
to_command_status (result_unknown n) = undefined

unfoldable pub to_quality : PointQuality → Quality
to_quality quality_uncertain = uncertain
to_quality quality_bad = bad
to_quality quality_restart = restart
to_quality quality_good = good
to_quality (quality_unknown n) = good

module _ {D : Type 0} where
  -- The arguments of the calls of applyUpdate, in their order.
  unfoldable pub analog_updates : List (AnalogPoint D) → List (PointUpdate D)
  analog_updates [] = []
  analog_updates (a ∷ points) =
      analog (record { index = u16 a.index; value = a.value; quality = to_quality a.quality })
      ∷ analog_updates points

  unfoldable pub binary_updates : List BinaryPoint → List (PointUpdate D)
  binary_updates [] = []
  binary_updates (b ∷ points) =
      binary (record { index = u16 b.index; value = b.value; quality = to_quality b.quality })
      ∷ binary_updates points

  -- UpdatePoints at a time: the updates that it hands to the bridge, the new last_update_ms_ and
  -- the response.
  unfoldable pub update_points :
      UpdateRequest D → (now_ms : ℕ) → List (PointUpdate D) × ℕ × UpdateResponse
  unfolding analog_updates binary_updates to_quality
  update_points request now_ms = (
    analog_updates request.analogs ++ binary_updates request.binaries,
    now_ms,
    record { accepted = true; message = "accepted" },
  )

unfoldable pub get_status : (is_connected : Bool) (last_update_ms : ℕ) → StatusResponse
get_status is_connected last_update_ms = record {
  state = if is_connected then connected else disconnected;
  last_update_timestamp_ms = last_update_ms;
}

-- RespondToCommand: the dispatcher afterwards, the call that the status is set for, and the response.
unfoldable pub respond_to_command :
    ℕ → CommandResultStatus → Dispatcher → Dispatcher × Option (ℕ × CommandStatus) × UpdateResponse
unfolding to_command_status fulfill
respond_to_command command_id result d =
    let status = to_command_status result in
    let (d', call) = fulfill command_id d in
    let ok = is_some call in
    (
      d',
      Option.map (λ t. (t, status)) call,
      record { accepted = ok; message = if ok then "fulfilled" else "unknown command_id" },
    )

-- What other threads do to the dispatcher, one sleep of the loop after another.
abbrev pub in_turn : List (Dispatcher → Dispatcher) → Dispatcher → Dispatcher
in_turn [] d = d
in_turn (act ∷ acts) d = in_turn acts (act d)

-- StreamCommands from its start to the destructor of its token. The loop takes a round for each
-- sleep until the call is cancelled.
unfoldable pub stream_commands : ℕ → List (Dispatcher → Dispatcher) → Dispatcher → Dispatcher
unfolding register_writer release
stream_commands writer sleeps d =
    let (d', token) = register_writer writer d in (release token (in_turn sleeps d')).0
