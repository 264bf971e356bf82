-- ===== src/Tests/Program.antt =====
-- The program of src/main.cpp with one analog point configured, and its parts.
use mathlib.Core.Option
use dnp3_bridge.Base.{
  ℕ, ◌<◌, ◌^◌, ◌≡◌, refl, Bool, true, ◌||◌, String, Option, none, some, [], ◌∷◌, ◌==◌, text_eq,
  find, if◌then◌else◌, arith,
}
use dnp3_bridge.Config.{AppConfig, default_config}
use dnp3_bridge.Config.Loader.{
  Json, parsed, FileContents, Environment, in_order, field, part, env_or, env_uint16, env_uint32,
  read_settings, load_from_json, override_from_env, parse_point_database, parse_point_configs,
  parse_range, load,
}
use dnp3_bridge.Config.Loader.Keeps.{IsSized, IsTyped}
use dnp3_bridge.Points.Config.{PointConfig, no_points}
use dnp3_bridge.Points.Validate.{
  validate_point_database, check_analog_section, check_binary_section, check_analog_entry,
}
use dnp3_bridge.Points.Validate.Decides.{IsValid}
use dnp3_bridge.Points.Database.{apply_analog}
use dnp3_bridge.Outstation.Flags.Meaning.{opendnp3_quality}
use dnp3_bridge.Outstation.Updates.{deadband_of}
use dnp3_bridge.Program.{Program, up, new_logger, launch, boot}
use dnp3_bridge.Program.Launching.{sizes, boot-deadband}
use dnp3_bridge.Tests.Sample.{whole, defaults, plain}

-- A file that configures analog input 3 with a deadband of 7, and an environment that asks for a log
-- file of 4097 MB. A JSON value is known by its key.
abbrev has : String → Bool
has key = key == "point_database" || key == "analog_input" || key == "index" || key == "deadband"

abbrev pub keyed : Json (Option ℕ)
keyed = record {
  J = String;
  contains = λ j key. has key;
  member = λ j key. key;
  element = λ j i. none;
  elements = λ j. if j == "analog_input" then "entry" ∷ [] else [];
  get_string = λ j. none;
  get_uint16 = λ j. if j == "index" then some 3 else none;
  get_uint32 = λ j. none;
  get_bool = λ j. none;
  get_double = λ j. if j == "deadband" then some (some 7) else none;
}

three_small : (b : Bool) (n : ℕ) → (if b then some 3 else none) ≡ some n → n < 2 ^ 16
three_small b n h = ground arith

keyed-IsSized : IsSized keyed
keyed-IsSized = ((λ j n h. three_small (j == "index") n h), λ j n h. cc)

abbrev pub environment : Environment
environment = record {
  getenv = λ name.
      if name == "DNP3_BRIDGE_LOG_FILE"
      then some "bridge.log"
      else if name == "DNP3_BRIDGE_LOG_MAX_SIZE_MB"
      then some "4097"
      else none;
  stoul = λ text. if text == "4097" then some 4097 else none;
}

abbrev pub read : String → FileContents String
read path = parsed "file"

abbrev point : PointConfig (Option ℕ)
point = record {
  start = 3;
  end = 3;
  event_class = "";
  deadband = some (some 7);
  static_variation = "";
  event_variation = "";
}

abbrev config : AppConfig (Option ℕ)
config = record default_config {
  log_file = "bridge.log";
  log_max_size_mb = 4097;
  point_database = record {
    binary_input = [];
    binary_output_status = [];
    analog_input = point ∷ [];
    analog_output_status = [];
  };
}

abbrev pub program : Program (Option ℕ)
program = launch whole opendnp3_quality keyed plain defaults config

pub booted :
    boot whole opendnp3_quality keyed plain defaults environment read ("file" ∷ []) ≡ up program
unfolding boot load load_from_json read_settings in_order field part override_from_env env_or
    env_uint16 env_uint32 parse_point_database parse_point_configs parse_range default_config
    validate_point_database check_binary_section check_analog_section check_analog_entry
booted = refl

boot-deadband_example :
    IsValid config.point_database
    × IsTyped config
    × (Option.map sizes program.logger.file ≡ some (4296015872, 1048576))
    × (program.bridge.outstation.outstation ≡ true)
    × (deadband_of whole opendnp3_quality 3 program.bridge.outstation ≡ some 7)
unfolding launch new_logger find no_points apply_analog default_config
boot-deadband_example =
    boot-deadband whole opendnp3_quality keyed plain defaults environment read ("file" ∷ []) program
      keyed-IsSized booted refl 3
