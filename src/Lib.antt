-- ===== src/Lib.antt =====
-- A model of dnp3-bridge: a DNP3 outstation that Python programs feed with measurements over gRPC,
-- and that forwards the SCADA's commands to them.
--
-- The parts and their files. A handler of the gRPC service turns an UpdateRequest into point updates
-- and puts them on the bridge's queue; the flush thread takes the queue in batches and hands each
-- update to the outstation manager, which decides whether it is an event. In the other direction
-- opendnp3 calls the command handler, which builds a CommandRequest; the dispatcher numbers it, keeps
-- a promise for it, writes it to the active stream and waits for RespondToCommand or a timeout.
--   Base           std::unordered_map and std::map as association lists, Boolean tests, lemmas
--   Double         double as a parameter: a type with the operations that the program calls
--   DataModel      src/bridge/DataModel.hpp
--   Config         AppConfig of src/config/AppConfig.hpp, and its loading,
--                  src/config/ConfigLoader.cpp (Loader)
--   PointMap       src/dnp3/PointMap.cpp
--   Points         the point database in src/dnp3/OutstationManager.cpp: its data (Config), the name
--                  tables and buildClassMask (Names), validatePointDatabase (Validate),
--                  configureDefaultDatabase and configureDatabaseFromConfig (Database), logPointRuns
--                  and logDatabaseSummary (Summary)
--   Outstation     toFlagBits (Flags), updateAnalog and updateBinary (Updates), start, shutdown and
--                  the connection listener (Lifecycle) of src/dnp3/OutstationManager.cpp
--   Commands       the messages (Message), src/dnp3/CommandDispatcher.cpp with StreamToken
--                  (Dispatcher), with its calls interleaved in whole blocks (Interleaving) and
--                  with its two locks (Locks), src/dnp3/ForwardingCommandHandler.cpp (Handler)
--   Bridge         src/bridge/Bridge.cpp
--   Service        src/grpc/BridgeServiceImpl.cpp and the messages of proto/dnp3bridge.proto;
--                  UpdatePoints called by several clients at once (Concurrent)
--   Server         src/grpc/GrpcServer.cpp
--   Program        src/main.cpp: boot, from the command line to the running components; shut_down,
--                  its three calls in one go; and the main thread from the polling loop to the end,
--                  against the signal handler and the threads of bridge and server (Main)
--   Simulator      the test master of tools/dnp3-master-sim: DataModel.hpp (Model), PointNames.hpp
--                  (Names), SoeHandler.cpp (Measurements), the content renderer (Tables), the dialogs'
--                  renderers (Screen) and the event handlers (Keys) of Ui.cpp, main.cpp with
--                  the callbacks and the screen's events in any order (Session) and parseArgs
--                  (Args)
--   Tests          concrete inputs
--
-- How state and operations correspond. A class is a record of its data members, and an operation
-- is a function of the source's name from the state to the new state with what it returns or hands
-- on: updateAnalog is update_analog, whose second result is what Apply receives. Threads are
-- interleaved explicitly. Each of Bridge, Commands.Interleaving and Server has an Event for each
-- block that runs under a lock, or each atomic operation, and `run` takes a list of events, one
-- interleaving, from a state; an event that cannot happen in a state changes nothing.
-- Commands.Interleaving keeps the calls of dispatch by their place in the order in which they draw
-- their ids, each with its phase. Commands.Locks is finer: its threads are at places of the code,
-- before, inside of and behind the two mutexes, and a Step is one lock operation or one access
-- between two of them; the refinement leads it back to the blocks. Program.Main keeps the place of
-- the main thread beside the components, and an event of it is a turn of one thread. A Step of
-- Simulator.Session is one call of a callback or of an event handler; what it asks of the master and
-- of the screen is a list of actions.
--
-- Bounds. Indices are natural numbers: the uint16 ones are cut by u16 where the source casts. The ids
-- of commands wrap at 2^64; the theorems on interleavings ask that fewer than 2^64 - 1 calls have
-- begun, since beyond that an id could come back while a promise of that id is still stored. No
-- function runs on fuel, and all loops are structural; the rounds that stop-drains speaks of are
-- bounded by rounds_left, and so is the shutdown of Program; `left` of Program.Main.Turns counts the
-- rounds to the end of main. The simulator's log keeps 200 entries.
--
-- What is a parameter. double and its operations (Double); the flag bits of opendnp3, with the
-- documented values in Outstation.Flags.Meaning; the settings of a point that opendnp3 constructs
-- (PointDefaults); fmt's formatting and std::sort (Formatting); the analog output types with their
-- conversions to double (AnalogTypes); what a stream's Write returns; JSON values (Json), what a file
-- contains (FileContents) and the environment (Environment); what BuildAndStart gives; the number of
-- bits of std::size_t (Program); the texts that std::format makes (Texts); what std::stoi and ftxui's
-- radiobox and input line do with an event (Widgets), which comes with each event anew, since these
-- two remember a hovered entry and a cursor; the flags that opendnp3's Binary makes of a value and
-- of the flags that it is given (StateFlags). But for these the simulator's master receives what the
-- outstation was given, in its order; opendnp3's transport in between is not described.
--
-- What is not modelled. Exceptions of opendnp3's calls; what is logged, except for the lines of the
-- point summary; the construction of library objects; titles and layout in Ui.cpp;
-- tools/python-dsp-sim, the tests and the packaging.
pub mod Base
pub mod Double
pub mod DataModel
pub mod Points
pub mod Config
pub mod PointMap
pub mod Outstation
pub mod Commands
pub mod Bridge
pub mod Service
pub mod Server
pub mod Program
pub mod Simulator
pub mod Tests
