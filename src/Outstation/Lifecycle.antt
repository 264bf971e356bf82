-- ===== src/Outstation/Lifecycle.antt =====
-- start, shutdown and isConnected of src/dnp3/OutstationManager.cpp, and its ConnectionListener.
-- What opendnp3 is given is returned: the configuration of the stack and the command mode. That its
-- calls throw is left out.
pub mod Started
use dnp3_bridge.Base.{
  ℕ, String, Bool, true, false, List, [], ◌∷◌, Dict, assign, if◌then◌else◌, ◌==◌, nat_eq, text_eq,
}
use dnp3_bridge.Config.{AppConfig, EventBufferConfig}
use dnp3_bridge.Points.Config.{no_points}
use dnp3_bridge.Points.Names.{ClassField, build_class_mask, StaticAnalog, EventAnalog}
use dnp3_bridge.Points.Database.{
  AnalogPoint, PointDefaults, DatabaseConfig, no_database, configure_default_database,
  configure_database_from_config,
}
use dnp3_bridge.Commands.Handler.{CommandMode, direct_operate, select_before_operate}
use dnp3_bridge.Outstation.Updates.{OutstationManager}

pub record StackConfig (D : Type 0) : Type 0 where
  pub database : DatabaseConfig D
  pub event_buffer : EventBufferConfig
  pub allow_unsolicited : Bool
  pub unsol_class_mask : ClassField
  pub local_addr : ℕ
  pub remote_addr : ℕ

-- The channel states of opendnp3, as far as the program tells them apart.
pub data ChannelState : Type 0 where
  open_state other_state : ChannelState

unfoldable pub new_manager : {D : Type 0} → OutstationManager D
new_manager = record {
  manager = false;
  channel = false;
  outstation = false;
  connected = false;
  analog_deadband = [];
  analog_state = [];
  binary_state = [];
}

-- ConnectionListener::OnStateChange
unfoldable pub on_state_change :
    {D : Type 0} → ChannelState → OutstationManager D → OutstationManager D
on_state_change open_state m = record m { connected = true }
on_state_change other_state m = record m { connected = false }

unfoldable pub is_connected : {D : Type 0} → OutstationManager D → Bool
is_connected m = m.connected

unfoldable pub shutdown : {D : Type 0} → OutstationManager D → OutstationManager D
shutdown m = record m { connected = false; outstation = false; channel = false; manager = false }

-- The loop that keeps the effective deadbands.
unfoldable pub load_deadbands :
    {D : Type 0} → Dict ℕ D → Dict ℕ (AnalogPoint D StaticAnalog EventAnalog) → Dict ℕ D
load_deadbands deadbands [] = deadbands
load_deadbands deadbands ((index, pt) ∷ points) =
    load_deadbands (assign index pt.deadband deadbands) points

unfoldable pub command_mode_of : String → CommandMode
command_mode_of s = if s == "select_before_operate" then select_before_operate else direct_operate

module _ {D : Type 0} (defaults : PointDefaults D) where
  unfoldable pub database_of : AppConfig D → DatabaseConfig D
  unfolding configure_default_database configure_database_from_config
  database_of cfg =
      if no_points cfg.point_database
      then configure_default_database defaults no_database
      else configure_database_from_config defaults cfg.point_database no_database

  unfoldable pub start :
      AppConfig D → OutstationManager D → OutstationManager D × StackConfig D × CommandMode
  unfolding database_of load_deadbands build_class_mask command_mode_of
  start cfg m =
      let db = database_of cfg in
      (
        record {
          manager = true;
          channel = true;
          outstation = true;
          connected = m.connected;
          analog_deadband = load_deadbands [] db.analog_input;
          analog_state = [];
          binary_state = [];
        },
        record {
          database = db;
          event_buffer = cfg.event_buffer;
          allow_unsolicited = cfg.unsolicited.enabled;
          unsol_class_mask = build_class_mask cfg.unsolicited.class_mask;
          local_addr = cfg.dnp3_local_address;
          remote_addr = cfg.dnp3_remote_address;
        },
        command_mode_of cfg.command_mode,
      )
