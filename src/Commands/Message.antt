-- ===== src/Commands/Message.antt =====
-- The messages of proto/dnp3bridge.proto about commands, and the status that goes back to the
-- SCADA. The type D stands for double.
use dnp3_bridge.Base.{ℕ}

-- opendnp3's CommandStatus, as far as the program names its values.
pub data CommandStatus : Type 0 where
  success timeout no_select format_error not_supported already_active : CommandStatus
  hardware_error local too_many_ops not_authorized downstream_fail undefined : CommandStatus

pub data CommandType : Type 0 where
  unspecified crob analog_int16 analog_int32 analog_float32 analog_double64 : CommandType

pub data CrobOperationType : Type 0 where
  nul pulse_on pulse_off latch_on latch_off : CrobOperationType

pub record CrobCommand : Type 0 where
  pub operation : CrobOperationType
  pub count : ℕ
  pub on_time_ms : ℕ
  pub off_time_ms : ℕ

-- The oneof of CommandRequest.
pub data Payload (D : Type 0) : Type 0 where
  no_payload : Payload D
  crob_payload : CrobCommand → Payload D
  analog_value : D → Payload D

pub record CommandRequest (D : Type 0) : Type 0 where
  pub command_id : ℕ  -- uint64
  pub point_index : ℕ  -- uint32
  pub command_type : CommandType
  pub payload : Payload D
