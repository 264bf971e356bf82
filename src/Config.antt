-- ===== src/Config.antt =====
-- AppConfig of src/config/AppConfig.hpp, with its default values.
pub mod Loader
use dnp3_bridge.Base.{ℕ, String, Bool, true, List, [], ◌∷◌}
use dnp3_bridge.Points.Config.{PointDatabaseConfig}

pub record EventBufferConfig : Type 0 where
  pub max_binary_events : ℕ
  pub max_double_binary_events : ℕ
  pub max_analog_events : ℕ
  pub max_counter_events : ℕ
  pub max_frozen_counter_events : ℕ
  pub max_binary_output_status_events : ℕ
  pub max_analog_output_status_events : ℕ
  pub max_octet_string_events : ℕ

pub record UnsolicitedConfig : Type 0 where
  pub enabled : Bool
  pub class_mask : List String

pub record AppConfig (D : Type 0) : Type 0 where
  pub grpc_listen_address : String
  pub dnp3_channel_host : String
  pub dnp3_channel_port : ℕ
  pub dnp3_local_address : ℕ
  pub dnp3_remote_address : ℕ
  pub log_level : String
  pub log_file : String
  pub log_max_size_mb : ℕ
  pub log_max_files : ℕ
  pub command_timeout_ms : ℕ
  pub command_mode : String
  pub event_buffer : EventBufferConfig
  pub unsolicited : UnsolicitedConfig
  pub point_database : PointDatabaseConfig D

unfoldable pub default_config : {D : Type 0} → AppConfig D
default_config = record {
  grpc_listen_address = "0.0.0.0:50051";
  dnp3_channel_host = "0.0.0.0";
  dnp3_channel_port = 20000;
  dnp3_local_address = 1024;
  dnp3_remote_address = 1;
  log_level = "info";
  log_file = "";
  log_max_size_mb = 5;
  log_max_files = 3;
  command_timeout_ms = 3000;
  command_mode = "direct_operate";
  event_buffer = record {
    max_binary_events = 50;
    max_double_binary_events = 0;
    max_analog_events = 50;
    max_counter_events = 0;
    max_frozen_counter_events = 0;
    max_binary_output_status_events = 0;
    max_analog_output_status_events = 0;
    max_octet_string_events = 0;
  };
  unsolicited = record { enabled = true; class_mask = "class1" ∷ "class2" ∷ [] };
  point_database = record {
    binary_input = [];
    binary_output_status = [];
    analog_input = [];
    analog_output_status = [];
  };
}
