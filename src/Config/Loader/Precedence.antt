-- ===== src/Config/Loader/Precedence.antt =====
-- Where a setting comes from: the environment, then the file, then the defaults.
use mathlib.Core.Option
use dnp3_bridge.Base.{
  ℕ, ◌%◌, ◌^◌, ◌≡◌, refl, String, Option, none, some, Option-cases, inl, inr, or_else, u16, arith,
  sym, subst,
}
use dnp3_bridge.Config.{AppConfig, default_config}
use dnp3_bridge.Config.Loader.{
  Json, FileContents, parsed, not_open, malformed, Environment, env_number, loaded, env_or,
  env_uint16, env_uint32, read_settings, load_from_json, override_from_env, load,
}
use dnp3_bridge.Config.Loader.Outer.{stored, outer, outer-Reaches, parts-IsAlike}

module _ {D : Type 0} (json : Json D) where
  open json use {J, contains, member, get_string, get_uint16, get_uint32}

  abbrev object_of : FileContents J → Option J
  object_of (parsed j) = some j
  object_of not_open = none
  object_of (malformed what) = none

  -- The object of the configuration file, if a path is given and the file parses.
  abbrev pub parsed_file : (String → FileContents J) → Option String → Option J
  parsed_file read none = none
  parsed_file read (some path) = object_of (read path)

  abbrev stored_in : {V : Type 0} → String → (J → Option V) → Option J → Option V
  stored_in key get none = none
  stored_in key get (some j) = stored json key get j

  abbrev string_setting : Environment → String → String → Option J → String → String
  string_setting env variable key file default =
      or_else (env.getenv variable) (or_else (stored_in key get_string file) default)

  abbrev uint16_setting : Environment → String → String → Option J → ℕ → ℕ
  uint16_setting env variable key file default =
      or_else (Option.map u16 (env_number env variable))
        (or_else (stored_in key get_uint16 file) default)

  abbrev uint32_setting : Environment → String → String → Option J → ℕ → ℕ
  uint32_setting env variable key file default =
      or_else (Option.map (λ n. n % 2 ^ 32) (env_number env variable))
        (or_else (stored_in key get_uint32 file) default)

  -- The eleven outer settings, each with where it comes from.
  abbrev pub AreSettings : Environment → Option J → AppConfig D → Type 0
  AreSettings env file cfg =
      (cfg.grpc_listen_address
        ≡ string_setting env "DNP3_BRIDGE_GRPC_ADDRESS" "grpc_listen_address" file "0.0.0.0:50051")
      × (cfg.dnp3_channel_host
          ≡ string_setting env "DNP3_BRIDGE_DNP3_HOST" "dnp3_channel_host" file "0.0.0.0")
      × (cfg.dnp3_channel_port
          ≡ uint16_setting env "DNP3_BRIDGE_DNP3_PORT" "dnp3_channel_port" file 20000)
      × (cfg.dnp3_local_address
          ≡ uint16_setting env "DNP3_BRIDGE_DNP3_LOCAL_ADDR" "dnp3_local_address" file 1024)
      × (cfg.dnp3_remote_address
          ≡ uint16_setting env "DNP3_BRIDGE_DNP3_REMOTE_ADDR" "dnp3_remote_address" file 1)
      × (cfg.log_level ≡ string_setting env "DNP3_BRIDGE_LOG_LEVEL" "log_level" file "info")
      × (cfg.log_file ≡ string_setting env "DNP3_BRIDGE_LOG_FILE" "log_file" file "")
      × (cfg.log_max_size_mb
          ≡ uint32_setting env "DNP3_BRIDGE_LOG_MAX_SIZE_MB" "log_max_size_mb" file 5)
      × (cfg.log_max_files ≡ uint32_setting env "DNP3_BRIDGE_LOG_MAX_FILES" "log_max_files" file 3)
      × (cfg.command_timeout_ms
          ≡ uint32_setting env "DNP3_BRIDGE_COMMAND_TIMEOUT_MS" "command_timeout_ms" file 3000)
      × (cfg.command_mode
          ≡ string_setting env "DNP3_BRIDGE_COMMAND_MODE" "command_mode" file "direct_operate")

  parsed-AreSettings :
      (env : Environment) (read : String → FileContents J) (path : String) (j : J)
      (cfg : AppConfig D)
      → read path ≡ parsed j
      → load json env read (some path) ≡ loaded cfg
      → AreSettings env (some j) cfg
  unfolding load load_from_json override_from_env default_config env_or env_uint16 env_uint32
  parsed-AreSettings env read path j cfg at h =
      elim (Option-cases (read_settings json j default_config)) [
        | inl e ↦ absurd (ground (arith, at, h, e))
        | inr (c, e) ↦
            let v =
              parts-IsAlike json j (outer json j default_config) c
                (outer-Reaches json j default_config c e) in
            let same : override_from_env json env c ≡ cfg = ground (arith, at, h, e) in
            rw (sym same) (
              rw v.grpc_listen_address refl,
              rw v.dnp3_channel_host refl,
              rw v.dnp3_channel_port refl,
              rw v.dnp3_local_address refl,
              rw v.dnp3_remote_address refl,
              rw v.log_level refl,
              rw v.log_file refl,
              rw v.log_max_size_mb refl,
              rw v.log_max_files refl,
              rw v.command_timeout_ms refl,
              rw v.command_mode refl,
            )
      ]

  contents-AreSettings :
      (env : Environment) (read : String → FileContents J) (path : String) (cfg : AppConfig D)
      (contents : FileContents J)
      → read path ≡ contents
      → load json env read (some path) ≡ loaded cfg
      → AreSettings env (parsed_file read (some path)) cfg
  unfolding load load_from_json
  contents-AreSettings env read path cfg (parsed j) e h =
      subst (λ c. AreSettings env (object_of c) cfg) (sym e)
        (parsed-AreSettings env read path j cfg e h)
  contents-AreSettings env read path cfg not_open e h = absurd (ground (arith, e, h))
  contents-AreSettings env read path cfg (malformed what) e h = absurd (ground (arith, e, h))

  -- A configuration that load returns takes each of its eleven outer settings from its environment
  -- variable if that is set (and, for a number, is one: then cut to its width), or else from the
  -- file, if there is one and it has the key, or else the default value.
  pub load-precedence :
      (env : Environment) (read : String → FileContents J) (path : Option String)
      (cfg : AppConfig D)
      → load json env read path ≡ loaded cfg
      → AreSettings env (parsed_file read path) cfg
  unfolding load override_from_env default_config env_or env_uint16 env_uint32
  load-precedence env read (some path) cfg h =
      contents-AreSettings env read path cfg (read path) refl h
  load-precedence env read none cfg h =
      let same : override_from_env json env default_config ≡ cfg = ground (arith, h) in
      rw (sym same) (refl, refl, refl, refl, refl, refl, refl, refl, refl, refl, refl)
