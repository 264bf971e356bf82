-- ===== src/Tests/Loading.antt =====
-- Loading a configuration.
use dnp3_bridge.Base.{
  ℕ, ◌≡◌, refl, String, Option, none, some, [], ◌∷◌, Dict, find, text_eq, is_some,
}
use dnp3_bridge.Config.{AppConfig, default_config}
use dnp3_bridge.Config.Loader.{
  Json, parsed, Environment, in_order, field, part, env_or, env_uint16, env_uint32, read_settings,
  load_from_json, override_from_env, load,
}
use dnp3_bridge.Config.Loader.Precedence.{load-precedence}

-- Objects without nesting: a member is an object with one entry.
data Scalar : Type 0 where
  text : String → Scalar
  number : ℕ → Scalar

abbrev member_of : Option Scalar → Dict String Scalar
member_of none = []
member_of (some v) = ("", v) ∷ []

abbrev text_of : Dict String Scalar → Option String
text_of ((k, text s) ∷ []) = some s
text_of _ = none

abbrev number_of : Dict String Scalar → Option ℕ
number_of ((k, number n) ∷ []) = some n
number_of _ = none

abbrev flat : Json ℕ
flat = record {
  J = Dict String Scalar;
  contains = λ j k. is_some (find k j);
  member = λ j k. member_of (find k j);
  element = λ j i. none;
  elements = λ j. [];
  get_string = text_of;
  get_uint16 = number_of;
  get_uint32 = number_of;
  get_bool = λ j. none;
  get_double = number_of;
}

abbrev file : Dict String Scalar
file = ("log_level", text "debug") ∷ ("dnp3_channel_port", number 20001) ∷ []

abbrev environment : Environment
environment = record {
  getenv = λ name. find name (("DNP3_BRIDGE_LOG_LEVEL", "trace") ∷ []);
  stoul = λ text. none;
}

abbrev config : AppConfig ℕ
config = record default_config { log_level = "trace"; dnp3_channel_port = 20001 }

load-precedence_example :
    (config.grpc_listen_address ≡ "0.0.0.0:50051")
    × (config.dnp3_channel_host ≡ "0.0.0.0")
    × (config.dnp3_channel_port ≡ 20001)
    × (config.dnp3_local_address ≡ 1024)
    × (config.dnp3_remote_address ≡ 1)
    × (config.log_level ≡ "trace")
    × (config.log_file ≡ "")
    × (config.log_max_size_mb ≡ 5)
    × (config.log_max_files ≡ 3)
    × (config.command_timeout_ms ≡ 3000)
    × (config.command_mode ≡ "direct_operate")
unfolding load load_from_json read_settings override_from_env in_order field part env_or env_uint16
    env_uint32 default_config find
load-precedence_example =
    load-precedence flat environment (λ path. parsed file) (some "bridge.json") config refl
