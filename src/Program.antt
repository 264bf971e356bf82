-- ===== src/Program.antt =====
-- src/main.cpp: from the command line to the running components, and the shutdown. What is
-- logged is left out.
pub mod Launching
pub mod Shutdown
pub mod Main
use Prim.Native.String
use dnp3_bridge.Base.{
  ℕ, ◌*◌, String, Option, none, some, List, [], ◌∷◌, ◌==◌, text_eq, if◌then◌else◌, u64, ◌%◌, ◌^◌,
}
use dnp3_bridge.Double.{Double}
use dnp3_bridge.Config.{AppConfig}
use dnp3_bridge.Config.Loader.{
  Json, FileContents, Environment, LoadResult, loaded, refused, raised, load,
}
use dnp3_bridge.Points.Database.{PointDefaults}
use dnp3_bridge.Points.Validate.{
  Formatting, Expected, accepted, unexpected, validate_point_database,
}
use dnp3_bridge.Outstation.Flags.{AnalogQuality}
use dnp3_bridge.Outstation.Lifecycle.{StackConfig, new_manager, start, shutdown}
use dnp3_bridge.Commands.Handler.{CommandMode}
use dnp3_bridge.Commands.Dispatcher.{Dispatcher, new_dispatcher}
use dnp3_bridge.Bridge.{Bridge, new_bridge, start_bridge, stop_bridge}
use dnp3_bridge.Bridge.Shutdown.{flush_rounds}
use dnp3_bridge.Server.{GrpcServer, new_server, stop_server}

-- The arguments of spdlog's rotating_file_sink_mt; max_size is the std::size_t of a target whose
-- std::size_t has so many bits.
pub record RotatingFile : Type 0 where
  pub path : String
  pub max_size : (bits : ℕ) → ℕ
  pub max_files : ℕ

-- The logger: the text that level::from_str is given, and the sink beside that of stderr.
pub record Logger : Type 0 where
  pub log_level : String
  pub file : Option RotatingFile

-- The components, with what opendnp3 was given.
pub record Program (D : Type 0) : Type 0 where
  pub config : AppConfig D
  pub logger : Logger
  pub dispatcher : Dispatcher
  pub bridge : Bridge D  -- with the outstation
  pub stack : StackConfig D
  pub mode : CommandMode
  pub server : GrpcServer

-- The program has returned 1 behind this message, has ended by an exception, or is up.
pub data Boot (D : Type 0) : Type 0 where
  failed : String → Boot D
  crashed : Boot D
  up : Program D → Boot D

abbrev pub size_t : (bits : ℕ) → ℕ → ℕ
size_t bits n = n % 2 ^ bits

unfoldable pub new_logger : {D : Type 0} → AppConfig D → Logger
new_logger cfg = record {
  log_level = cfg.log_level;
  file =
      if cfg.log_file == ""
      then none
      else some (record {
        path = cfg.log_file;
        max_size =
            λ bits. size_t bits (size_t bits (size_t bits cfg.log_max_size_mb * 1024) * 1024);
        max_files = cfg.log_max_files;
      });
}

abbrev pub config_path : List String → Option String
config_path [] = none
config_path (path ∷ args) = some path

abbrev pub failure : {D : Type 0} → String → Boot D
failure message = failed (String.◌++◌ "Failed to load configuration: " (String.◌++◌ message "\n"))

module _ (f : Double) (q : AnalogQuality) (json : Json f.D) (l : Formatting)
    (defaults : PointDefaults f.D) where
  open f use {D}
  open json use {J}

  -- The construction of the components, with outstation.start() and bridge.start().
  unfoldable pub launch : AppConfig D → Program D
  unfolding start start_bridge new_logger
  launch cfg =
      let (m, stack, mode) = start defaults cfg new_manager in
      record {
        config = cfg;
        logger = new_logger cfg;
        dispatcher = new_dispatcher;
        bridge = start_bridge f q (new_bridge f q m);
        stack = stack;
        mode = mode;
        server = new_server;
      }

  abbrev pub launch_valid : Expected → AppConfig D → Boot D
  launch_valid accepted cfg = up (launch cfg)
  launch_valid (unexpected message) cfg = failure message

  abbrev pub launch_loaded : LoadResult D → Boot D
  launch_loaded (loaded cfg) = launch_valid (validate_point_database l cfg.point_database) cfg
  launch_loaded (refused message) = failure message
  launch_loaded raised = crashed

  -- The arguments are those behind the program's name.
  unfoldable pub boot : Environment → (String → FileContents J) → List String → Boot D
  unfolding launch
  boot env read args = launch_loaded (load json env read (config_path args))

  -- server.stop(), bridge.stop() and outstation.shutdown(). The flush thread runs `rounds` rounds
  -- before the join ends.
  unfoldable pub shut_down : ℕ → Program D → Program D
  unfolding stop_server stop_bridge shutdown
  shut_down rounds p =
      let b = flush_rounds f q rounds (stop_bridge f q p.bridge) in
      record p {
        server = stop_server p.server;
        bridge = record b { outstation = shutdown b.outstation };
      }
