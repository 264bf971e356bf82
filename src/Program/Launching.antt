-- ===== src/Program/Launching.antt =====
-- What holds once the program is up, src/main.cpp.
use mathlib.Core.Option
use dnp3_bridge.Base.{
  Option, ◌%◌, ℕ, ◌*◌, ◌^◌, ◌<◌, ◌==◌, text_eq, if◌then◌else◌, some, arith, inl, inr, Bool-cases,
  ◌≡◌, refl, sym, ap, ◌∙◌, String, true, false, none, List, or_else, subst,
}
use dnp3_bridge.Double.{Double}
use dnp3_bridge.Config.{AppConfig}
use dnp3_bridge.Config.Loader.{
  Json, FileContents, Environment, LoadResult, loaded, refused, raised, load,
}
use dnp3_bridge.Config.Loader.Keeps.{IsSized, IsTyped}
use dnp3_bridge.Config.Loader.Types.{load-IsTyped}
use dnp3_bridge.Points.Config.{no_points}
use dnp3_bridge.Points.Names.{
  class1, group30_var1, group32_var1, static_analog_names, event_analog_names,
}
use dnp3_bridge.Points.Database.{PointDefaults, apply_analog}
use dnp3_bridge.Points.Database.Settings.{settings}
use dnp3_bridge.Points.Validate.{
  Formatting, Expected, accepted, unexpected, validate_point_database,
}
use dnp3_bridge.Points.Validate.Decides.{IsValid, validate_point_database_iff}
use dnp3_bridge.Outstation.Flags.{AnalogQuality}
use dnp3_bridge.Outstation.Updates.{deadband_of}
use dnp3_bridge.Outstation.Lifecycle.{new_manager, start}
use dnp3_bridge.Outstation.Lifecycle.Started.{start-deadband}
use dnp3_bridge.Bridge.{start_bridge}
use dnp3_bridge.Program.{
  RotatingFile, size_t, new_logger, Program, up, config_path, launch, launch_valid, launch_loaded,
  boot,
}

-- The two sizes of the file in bytes, where std::size_t has 64 bits and where it has 32.
abbrev pub sizes : RotatingFile → ℕ × ℕ
sizes file = (file.max_size 64, file.max_size 32)

bytes :
    (n : ℕ)
    → n < 2 ^ 32
    → (size_t 64 (size_t 64 (size_t 64 n * 1024) * 1024) ≡ n * 2 ^ 20)
      × (size_t 32 (size_t 32 (size_t 32 n * 1024) * 1024) ≡ n % 4096 * 2 ^ 20)
bytes n h = (omega arith, omega arith)

-- The megabytes of the log file in bytes: all of them, or what is left of them in 32 bits.
abbrev pub log_sizes : {D : Type 0} → AppConfig D → Option (ℕ × ℕ)
log_sizes cfg =
    if cfg.log_file == ""
    then none
    else some (cfg.log_max_size_mb * 2 ^ 20, cfg.log_max_size_mb % 4096 * 2 ^ 20)

module _ (f : Double) (q : AnalogQuality) (json : Json f.D) (l : Formatting)
    (defaults : PointDefaults f.D) where
  open f use {D}
  open json use {J}

  launch_valid-up :
      (e : Expected) (cfg : AppConfig D) (p : Program D)
      → launch_valid f q json l defaults e cfg ≡ up p
      → (e ≡ accepted) × (launch f q json l defaults cfg ≡ p)
  launch_valid-up accepted cfg p h = (refl, cc)
  launch_valid-up (unexpected message) cfg p h = absurd (cc)

  launch_loaded-up :
      (r : LoadResult D) (p : Program D)
      → launch_loaded f q json l defaults r ≡ up p
      → (cfg : AppConfig D) × (r ≡ loaded cfg)
        × (validate_point_database l cfg.point_database ≡ accepted)
        × (launch f q json l defaults cfg ≡ p)
  launch_loaded-up (loaded cfg) p h =
      let (valid, same) = launch_valid-up _ cfg p h in (cfg, refl, valid, same)
  launch_loaded-up (refused message) p h = absurd (cc)
  launch_loaded-up raised p h = absurd (cc)

  -- A program that is up was launched from a configuration that has been loaded and accepted.
  pub boot-up :
      (env : Environment) (read : String → FileContents J) (args : List String) (p : Program D)
      → boot f q json l defaults env read args ≡ up p
      → (load json env read (config_path args) ≡ loaded p.config)
        × (validate_point_database l p.config.point_database ≡ accepted)
        × (p ≡ launch f q json l defaults p.config)
  unfolding boot launch
  boot-up env read args p h =
      let (cfg, e, valid, same) = launch_loaded-up (load json env read (config_path args)) p h in
      let config : cfg ≡ p.config = ap (λ r. r.config) same in
      (
        e ∙ ap loaded config,
        subst (λ c. validate_point_database l c.point_database ≡ accepted) config valid,
        sym same ∙ ap (launch f q json l defaults) config,
      )

  pub launch-outstation :
      (cfg : AppConfig D)
      → (launch f q json l defaults cfg).bridge.outstation ≡ (start defaults cfg new_manager).0
  unfolding launch start_bridge
  launch-outstation cfg = refl

  pub launch-on :
      (cfg : AppConfig D) → (launch f q json l defaults cfg).bridge.outstation.outstation ≡ true
  unfolding launch start start_bridge
  launch-on cfg = refl

  launch-log_sizes :
      (cfg : AppConfig D)
      → cfg.log_max_size_mb < 2 ^ 32
      → Option.map sizes (launch f q json l defaults cfg).logger.file ≡ log_sizes cfg
  unfolding launch new_logger
  launch-log_sizes cfg h = elim (Bool-cases (cfg.log_file == "")) [
    | inl e ↦ rw e refl
    | inr e ↦ let (wide, narrow) = bytes cfg.log_max_size_mb h in rw (e, wide, narrow) refl
  ]

  -- As long as get<uint16_t>() and get<uint32_t>() return values of their types: if the program comes
  -- up and points are configured, its point database is valid, each number of its configuration fits
  -- its type, a log file that is named rotates at the configured megabytes where std::size_t has 64
  -- bits and at their remainder modulo 4096 where it has 32, the outstation is up, and the deadband
  -- that updateAnalog applies to a point is that of the settings of this analog input, or 0.0 at a
  -- point that no entry covers.
  pub boot-deadband :
      (env : Environment) (read : String → FileContents J) (args : List String) (p : Program D)
      → IsSized json
      → boot f q json l defaults env read args ≡ up p
      → no_points p.config.point_database ≡ false
      → (i : ℕ)
      → IsValid p.config.point_database
        × IsTyped p.config
        × (Option.map sizes p.logger.file ≡ log_sizes p.config)
        × (p.bridge.outstation.outstation ≡ true)
        × (deadband_of f q i p.bridge.outstation
            ≡ or_else
                (Option.map
                  (λ pt. pt.deadband)
                  (settings defaults.analog_input
                    (apply_analog class1 group30_var1 group32_var1)
                    i
                    none
                    p.config.point_database.analog_input))
                f.zero)
  boot-deadband env read args p sized h given i =
      let (e, valid, same) = boot-up env read args p h in
      let typed = load-IsTyped json sized env read (config_path args) p.config e in
      (
        (validate_point_database_iff l p.config.point_database).0 valid,
        typed,
        ap (λ r. Option.map sizes r.logger.file) same ∙ launch-log_sizes p.config typed.log_size,
        ap (λ r. r.bridge.outstation.outstation) same ∙ launch-on p.config,
        ap (λ r. deadband_of f q i r.bridge.outstation) same
            ∙ (ap (deadband_of f q i) (launch-outstation p.config)
                ∙ start-deadband f q defaults p.config new_manager i given
                    typed.database.analog_input),
      )
