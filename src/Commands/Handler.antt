-- ===== src/Commands/Handler.antt =====
-- src/dnp3/ForwardingCommandHandler.cpp: what the SCADA's commands become. One definition stands for
-- the five overloads of Select, and one for those of Operate; dispatch itself is in Interleaving,
-- where Operate begins a call of it and then returns what handler_result says of the call's phase.
pub mod Requests
pub mod Selecting
use dnp3_bridge.Base.{ℕ, Option, none, some}
use dnp3_bridge.Commands.Message.{
  CommandStatus, success, not_supported, downstream_fail, CommandType, crob, analog_int16,
  analog_int32, analog_float32, analog_double64, CrobOperationType, nul, pulse_on, pulse_off,
  latch_on, latch_off, CommandRequest, crob_payload, analog_value, no_payload, unspecified,
}
use dnp3_bridge.Commands.Interleaving.{
  Phase, idle, numbered, stored, awaiting, expired, threw, returned,
}

pub data CommandMode : Type 0 where
  direct_operate select_before_operate : CommandMode

-- opendnp3's OperationType; `other` stands for the values that the switch does not name.
pub data OperationType : Type 0 where
  op_nul op_pulse_on op_pulse_off op_latch_on op_latch_off other : OperationType

pub record ControlRelayOutputBlock : Type 0 where
  pub op_type : OperationType
  pub count : ℕ  -- uint8
  pub on_time_ms : ℕ  -- uint32
  pub off_time_ms : ℕ  -- uint32

-- The value types of opendnp3's analog outputs with the conversions to double.
pub record AnalogTypes (D : Type 0) : Type 1 where
  pub Int16 : Type 0
  pub Int32 : Type 0
  pub Float32 : Type 0
  pub of_int16 : Int16 → D
  pub of_int32 : Int32 → D
  pub of_float32 : Float32 → D

unfoldable pub to_crob_operation : OperationType → CrobOperationType
to_crob_operation op_nul = nul
to_crob_operation op_pulse_on = pulse_on
to_crob_operation op_pulse_off = pulse_off
to_crob_operation op_latch_on = latch_on
to_crob_operation op_latch_off = latch_off
to_crob_operation other = nul

-- What the catch blocks make of an exception; none while dispatch still blocks.
unfoldable pub handler_result : Phase → Option CommandStatus
handler_result (returned status) = some status
handler_result threw = some downstream_fail
handler_result idle = none
handler_result numbered = none
handler_result stored = none
handler_result awaiting = none
handler_result expired = none

module _ {D : Type 0} (a : AnalogTypes D) where
  pub data Command : Type 0 where
    relay : ControlRelayOutputBlock → Command
    output_int16 : a.Int16 → Command
    output_int32 : a.Int32 → Command
    output_float32 : a.Float32 → Command
    output_double64 : D → Command

  unfoldable pub select : CommandMode → Command → ℕ → CommandStatus
  select direct_operate command index = not_supported
  select select_before_operate command index = success

  -- dispatchAnalog, up to the call of dispatch.
  unfoldable pub analog_request : ℕ → D → CommandType → CommandRequest D
  analog_request index value type = record {
    command_id = 0;
    point_index = index;
    command_type = type;
    payload = analog_value value;
  }

  unfoldable pub crob_request : ℕ → ControlRelayOutputBlock → CommandRequest D
  unfolding to_crob_operation
  crob_request index command = record {
    command_id = 0;
    point_index = index;
    command_type = crob;
    payload = crob_payload (record {
      operation = to_crob_operation command.op_type;
      count = command.count;
      on_time_ms = command.on_time_ms;
      off_time_ms = command.off_time_ms;
    });
  }

  -- The request that Operate hands to dispatch.
  unfoldable pub operate_request : Command → ℕ → CommandRequest D
  unfolding analog_request crob_request
  operate_request (relay command) index = crob_request index command
  operate_request (output_int16 v) index = analog_request index (a.of_int16 v) analog_int16
  operate_request (output_int32 v) index = analog_request index (a.of_int32 v) analog_int32
  operate_request (output_float32 v) index = analog_request index (a.of_float32 v) analog_float32
  operate_request (output_double64 v) index = analog_request index v analog_double64
