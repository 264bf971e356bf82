-- ===== src/Config/Loader/Types.antt =====
-- The numbers of a configuration and their C++ types, src/config/ConfigLoader.cpp.
use dnp3_bridge.Base.{
  ℕ, ◌^◌, ◌<◌, ◌≡◌, refl, String, Option, none, some, Option-cases, inl, inr, ◌▸◌, arith,
}
use dnp3_bridge.Points.Config.{PointDatabaseConfig}
use dnp3_bridge.Config.{EventBufferConfig, UnsolicitedConfig, AppConfig, default_config}
use dnp3_bridge.Config.Loader.{
  Json, FileContents, not_open, malformed, parsed, Environment, env_number, LoadResult, loaded,
  refused, raised, field, parse_event_buffer, parse_unsolicited, parse_point_database,
  settings_from, read_settings, env_uint16, env_uint32, load_from_json, override_from_env, load,
}
use dnp3_bridge.Config.Loader.Keeps.{
  IsTypedBuffer, IsTypedDatabase, IsTyped, Keeps, in_order-Keeps, field-Keeps, part-Keeps, IsSized,
}
use dnp3_bridge.Config.Loader.Sections.{parse_event_buffer-IsTyped, parse_point_database-IsTyped}

env_uint16-lt :
    (env : Environment) (name : String) (fallback : ℕ)
    → fallback < 2 ^ 16
    → env_uint16 env name fallback < 2 ^ 16
unfolding env_uint16
env_uint16-lt env name fallback h = elim (Option-cases (env_number env name)) [
  | inl e ↦ rw e h
  | inr (n, e) ↦ rw e (omega arith)
]

env_uint32-lt :
    (env : Environment) (name : String) (fallback : ℕ)
    → fallback < 2 ^ 32
    → env_uint32 env name fallback < 2 ^ 32
unfolding env_uint32
env_uint32-lt env name fallback h = elim (Option-cases (env_number env name)) [
  | inl e ↦ rw e h
  | inr (n, e) ↦ rw e (omega arith)
]

module _ {D : Type 0} (json : Json D) where
  open json use {J, contains, member, elements, get_uint16, get_uint32}

  module _ (sized : IsSized json) where
    event_buffer-IsTyped :
        (c : AppConfig D) (x : EventBufferConfig)
        → IsTyped c
        → IsTypedBuffer x
        → IsTyped (record c { event_buffer = x })
    event_buffer-IsTyped c x p h = ground arith

    unsolicited-IsTyped :
        (c : AppConfig D) (x : UnsolicitedConfig)
        → IsTyped c
        → IsTyped (record c { unsolicited = x })
    unsolicited-IsTyped c x p = ground arith

    database-IsTyped :
        (c : AppConfig D) (x : PointDatabaseConfig D)
        → IsTyped c
        → IsTypedDatabase x
        → IsTyped (record c { point_database = x })
    database-IsTyped c x p h = ground arith

    module _ (j : J) where
      string-Keeps :
          (key : String) (set : String → AppConfig D → AppConfig D)
          → ((s : String) (c : AppConfig D) → IsTyped c → IsTyped (set s c))
          → Keeps IsTyped (field json key json.get_string set j)
      string-Keeps key set keep =
          field-Keeps json IsTyped key j json.get_string set (λ s c e p. keep s c p)

      uint16-Keeps :
          (key : String) (set : ℕ → AppConfig D → AppConfig D)
          → ((n : ℕ) (c : AppConfig D) → n < 2 ^ 16 → IsTyped c → IsTyped (set n c))
          → Keeps IsTyped (field json key get_uint16 set j)
      uint16-Keeps key set keep =
          field-Keeps json IsTyped key j get_uint16 set (λ n c e p. keep n c (sized.0 _ n e) p)

      uint32-Keeps :
          (key : String) (set : ℕ → AppConfig D → AppConfig D)
          → ((n : ℕ) (c : AppConfig D) → n < 2 ^ 32 → IsTyped c → IsTyped (set n c))
          → Keeps IsTyped (field json key get_uint32 set j)
      uint32-Keeps key set keep =
          field-Keeps json IsTyped key j get_uint32 set (λ n c e p. keep n c (sized.1 _ n e) p)

      read_settings-IsTyped : Keeps IsTyped (read_settings json j)
      unfolding read_settings
      read_settings-IsTyped = in_order-Keeps IsTyped (settings_from json j) (
          string-Keeps _ _ (λ s c p. ground arith)
          ▸ string-Keeps _ _ (λ s c p. ground arith)
          ▸ uint16-Keeps _ _ (λ n c h p. ground arith)
          ▸ uint16-Keeps _ _ (λ n c h p. ground arith)
          ▸ uint16-Keeps _ _ (λ n c h p. ground arith)
          ▸ string-Keeps _ _ (λ s c p. ground arith)
          ▸ string-Keeps _ _ (λ s c p. ground arith)
          ▸ uint32-Keeps _ _ (λ n c h p. ground arith)
          ▸ uint32-Keeps _ _ (λ n c h p. ground arith)
          ▸ uint32-Keeps _ _ (λ n c h p. ground arith)
          ▸ string-Keeps _ _ (λ s c p. ground arith)
          ▸ part-Keeps json IsTyped _ j (parse_event_buffer json) _ _ (λ x c e p.
            event_buffer-IsTyped c x p
              (parse_event_buffer-IsTyped json sized (member j "event_buffer") _ x p.buffer e))
          ▸ part-Keeps json IsTyped _ j (parse_unsolicited json) _ _
              (λ x c e p. unsolicited-IsTyped c x p)
          ▸ part-Keeps json IsTyped _ j (parse_point_database json) _ _ (λ x c e p.
            database-IsTyped c x p (
              parse_point_database-IsTyped json sized (member j "point_database") _ x p.database e))
          ▸ tt)

    default_config-IsTyped : IsTyped (default_config {D = D})
    unfolding default_config
    default_config-IsTyped = ground arith

    override_from_env-IsTyped :
        (env : Environment) (c : AppConfig D) → IsTyped c → IsTyped (override_from_env json env c)
    unfolding override_from_env
    override_from_env-IsTyped env c p = record {
      port = env_uint16-lt env _ _ p.port;
      local_address = env_uint16-lt env _ _ p.local_address;
      remote_address = env_uint16-lt env _ _ p.remote_address;
      log_size = env_uint32-lt env _ _ p.log_size;
      log_files = env_uint32-lt env _ _ p.log_files;
      timeout = env_uint32-lt env _ _ p.timeout;
      buffer = p.buffer;
      database = p.database;
    }

    load_from_json-IsTyped :
        (path : String) (contents : FileContents J) (cfg : AppConfig D)
        → load_from_json json path contents default_config ≡ loaded cfg
        → IsTyped cfg
    unfolding load_from_json
    load_from_json-IsTyped path not_open cfg h = cc
    load_from_json-IsTyped path (malformed what) cfg h = cc
    load_from_json-IsTyped path (parsed j) cfg h =
        elim (Option-cases (read_settings json j default_config)) [
          | inl e ↦ absurd (ground arith)
          | inr (c, e) ↦
              ground (arith, read_settings-IsTyped j default_config c default_config-IsTyped e)
        ]

    second_layer :
        (env : Environment) (r : LoadResult D)
        → ((c : AppConfig D) → r ≡ loaded c → IsTyped c)
        → (cfg : AppConfig D)
        → (elim r [
          | loaded c ↦ loaded (override_from_env json env c)
          | refused message ↦ refused message
          | raised ↦ raised
        ])
          ≡ loaded cfg
        → IsTyped cfg
    second_layer env (loaded c) typed cfg h =
        ground (arith, override_from_env-IsTyped env c (typed c refl))
    second_layer env (refused message) typed cfg h = cc
    second_layer env raised typed cfg h = cc

    -- As long as get<uint16_t>() and get<uint32_t>() return values of their types: every number of a
    -- loaded configuration, those of the event buffer and of each point range included, fits the type
    -- of its member, wherever it comes from.
    pub load-IsTyped :
        (env : Environment) (read : String → FileContents J) (path : Option String)
        (cfg : AppConfig D)
        → load json env read path ≡ loaded cfg
        → IsTyped cfg
    unfolding load
    load-IsTyped env read none cfg h =
        ground (arith, override_from_env-IsTyped env default_config default_config-IsTyped)
    load-IsTyped env read (some path) cfg h =
        second_layer env (load_from_json json path (read path) default_config)
          (load_from_json-IsTyped path (read path)) cfg h
