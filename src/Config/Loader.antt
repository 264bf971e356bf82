-- ===== src/Config/Loader.antt =====
-- src/config/ConfigLoader.cpp. A JSON value and what nlohmann::json does with it are a parameter, as
-- are the file and the environment. An exception that leaves the code is `none`, and `raised` at the
-- end.
mod Readers
pub mod Outer
pub mod Precedence
pub mod Keeps
pub mod Sections
pub mod Types
use mathlib.Core.Option
use Prim.Native.String
use dnp3_bridge.Base.{
  ℕ, ◌%◌, ◌^◌, String, Bool, Option, none, some, List, [], ◌∷◌, ◌++◌, if◌then◌else◌, or_else, u16,
}
use dnp3_bridge.Points.Config.{PointConfig, PointDatabaseConfig}
use dnp3_bridge.Config.{EventBufferConfig, UnsolicitedConfig, AppConfig, default_config}
unfoldable pub use Readers.*

-- What opening and parsing a file gives; a parse error comes with its what().
pub data FileContents (J : Type 0) : Type 0 where
  not_open : FileContents J
  malformed : String → FileContents J
  parsed : J → FileContents J

-- std::getenv, and std::stoul, which throws or gives an unsigned long.
pub record Environment : Type 0 where
  pub getenv : String → Option String
  pub stoul : String → Option ℕ

-- std::expected<AppConfig, std::string>, or an exception.
pub data LoadResult (D : Type 0) : Type 0 where
  loaded : AppConfig D → LoadResult D
  refused : String → LoadResult D
  raised : LoadResult D

unfoldable pub env_or : Environment → String → String → String
env_or env name fallback = or_else (env.getenv name) fallback

-- The number that the variable holds, if it is set and is one.
abbrev pub env_number : Environment → String → Option ℕ
env_number env name = elim (env.getenv name) [ none ↦ none | some val ↦ env.stoul val ]

unfoldable pub env_uint16 : Environment → String → ℕ → ℕ
env_uint16 env name fallback = or_else (Option.map u16 (env_number env name)) fallback

unfoldable pub env_uint32 : Environment → String → ℕ → ℕ
env_uint32 env name fallback = or_else (Option.map (λ n. n % 2 ^ 32) (env_number env name)) fallback

module _ {D : Type 0} (json : Json D) where
  open json use {
    J, contains, member, element, elements, get_string, get_uint16, get_uint32, get_bool,
    get_double,
  }

  -- The statements of load_from_json, behind the parse.
  abbrev pub settings_from : J → List (AppConfig D → Option (AppConfig D))
  settings_from j =
      field json "grpc_listen_address" get_string (λ s c. record c { grpc_listen_address = s }) j
      ∷ field json "dnp3_channel_host" get_string (λ s c. record c { dnp3_channel_host = s }) j
      ∷ field json "dnp3_channel_port" get_uint16 (λ n c. record c { dnp3_channel_port = n }) j
      ∷ field json "dnp3_local_address" get_uint16 (λ n c. record c { dnp3_local_address = n }) j
      ∷ field json "dnp3_remote_address" get_uint16 (λ n c. record c { dnp3_remote_address = n }) j
      ∷ field json "log_level" get_string (λ s c. record c { log_level = s }) j
      ∷ field json "log_file" get_string (λ s c. record c { log_file = s }) j
      ∷ field json "log_max_size_mb" get_uint32 (λ n c. record c { log_max_size_mb = n }) j
      ∷ field json "log_max_files" get_uint32 (λ n c. record c { log_max_files = n }) j
      ∷ field json "command_timeout_ms" get_uint32 (λ n c. record c { command_timeout_ms = n }) j
      ∷ field json "command_mode" get_string (λ s c. record c { command_mode = s }) j
      ∷ part json "event_buffer" (parse_event_buffer json) (λ c. c.event_buffer)
          (λ x c. record c { event_buffer = x }) j
      ∷ part json "unsolicited" (parse_unsolicited json) (λ c. c.unsolicited)
          (λ x c. record c { unsolicited = x }) j
      ∷ part json "point_database" (parse_point_database json) (λ c. c.point_database)
          (λ x c. record c { point_database = x }) j
      ∷ []

  unfoldable pub read_settings : J → AppConfig D → Option (AppConfig D)
  unfolding in_order
  read_settings j = in_order (settings_from j)

  unfoldable pub load_from_json : String → FileContents J → AppConfig D → LoadResult D
  unfolding read_settings
  load_from_json path not_open cfg = refused (String.◌++◌ "cannot open config file: " path)
  load_from_json path (malformed what) cfg = refused (String.◌++◌ "JSON parse error: " what)
  load_from_json path (parsed j) cfg = elim (read_settings j cfg) [
    | none ↦ raised
    | some c ↦ loaded c
  ]

  -- Layer 2.
  unfoldable pub override_from_env : Environment → AppConfig D → AppConfig D
  unfolding env_or env_uint16 env_uint32
  override_from_env env c = record c {
    grpc_listen_address = env_or env "DNP3_BRIDGE_GRPC_ADDRESS" c.grpc_listen_address;
    dnp3_channel_host = env_or env "DNP3_BRIDGE_DNP3_HOST" c.dnp3_channel_host;
    dnp3_channel_port = env_uint16 env "DNP3_BRIDGE_DNP3_PORT" c.dnp3_channel_port;
    dnp3_local_address = env_uint16 env "DNP3_BRIDGE_DNP3_LOCAL_ADDR" c.dnp3_local_address;
    dnp3_remote_address = env_uint16 env "DNP3_BRIDGE_DNP3_REMOTE_ADDR" c.dnp3_remote_address;
    log_level = env_or env "DNP3_BRIDGE_LOG_LEVEL" c.log_level;
    log_file = env_or env "DNP3_BRIDGE_LOG_FILE" c.log_file;
    log_max_size_mb = env_uint32 env "DNP3_BRIDGE_LOG_MAX_SIZE_MB" c.log_max_size_mb;
    log_max_files = env_uint32 env "DNP3_BRIDGE_LOG_MAX_FILES" c.log_max_files;
    command_timeout_ms = env_uint32 env "DNP3_BRIDGE_COMMAND_TIMEOUT_MS" c.command_timeout_ms;
    command_mode = env_or env "DNP3_BRIDGE_COMMAND_MODE" c.command_mode;
  }

  unfoldable pub load : Environment → (String → FileContents J) → Option String → LoadResult D
  unfolding load_from_json override_from_env
  load env read none = loaded (override_from_env env default_config)
  load env read (some path) = elim (load_from_json path (read path) default_config) [
    | loaded c ↦ loaded (override_from_env env c)
    | refused message ↦ refused message
    | raised ↦ raised
  ]
