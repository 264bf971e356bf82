-- ===== src/Commands/Handler/Requests.antt =====
-- The way from a forwarded command to what Python reads, src/dnp3/ForwardingCommandHandler.cpp.
use dnp3_bridge.Base.{◌≢◌}
use dnp3_bridge.Commands.Message.{
  CommandType, crob, analog_int16, analog_int32, analog_float32, analog_double64, unspecified,
  CrobOperationType, nul, pulse_on, pulse_off, latch_on, latch_off, Payload, crob_payload,
  analog_value,
}
use dnp3_bridge.Commands.Handler.{
  OperationType, op_nul, op_pulse_on, op_pulse_off, op_latch_on, op_latch_off, other,
  ControlRelayOutputBlock, AnalogTypes, Command, relay, output_int16, output_int32, output_float32,
  output_double64,
}

-- The operation type that a CROB request came from, Python's way back.
abbrev from_crob_operation : CrobOperationType → OperationType
from_crob_operation nul = op_nul
from_crob_operation pulse_on = op_pulse_on
from_crob_operation pulse_off = op_pulse_off
from_crob_operation latch_on = op_latch_on
from_crob_operation latch_off = op_latch_off

-- What a request says: the index and the command it stands for, an analog value as a double.
pub data Meaning (D : Type 0) : Type 0 where
  relay_command : ControlRelayOutputBlock → Meaning D
  analog_command : CommandType → D → Meaning D
  mismatch : Meaning D

-- Reads the payload that the command type announces.
abbrev pub read_payload : {D : Type 0} → CommandType → Payload D → Meaning D
read_payload crob (crob_payload c) = relay_command (record {
  op_type = from_crob_operation c.operation;
  count = c.count;
  on_time_ms = c.on_time_ms;
  off_time_ms = c.off_time_ms;
})
read_payload unspecified p = mismatch
read_payload crob p = mismatch
read_payload analog_int16 (analog_value v) = analog_command analog_int16 v
read_payload analog_int32 (analog_value v) = analog_command analog_int32 v
read_payload analog_float32 (analog_value v) = analog_command analog_float32 v
read_payload analog_double64 (analog_value v) = analog_command analog_double64 v
read_payload _ p = mismatch

module _ {D : Type 0} (a : AnalogTypes D) where
  abbrev pub meaning_of : Command a → Meaning D
  meaning_of (relay c) = relay_command c
  meaning_of (output_int16 v) = analog_command analog_int16 (a.of_int16 v)
  meaning_of (output_int32 v) = analog_command analog_int32 (a.of_int32 v)
  meaning_of (output_float32 v) = analog_command analog_float32 (a.of_float32 v)
  meaning_of (output_double64 v) = analog_command analog_double64 v

  -- The relay operation, if there is one, is one that the switch names.
  abbrev pub IsNamed : Command a → Type 0
  IsNamed (relay c) = c.op_type ≢ other
  IsNamed _ = Unit {0}
