-- ===== src/Tests/Points.antt =====
-- The point database, and the start of the outstation with it.
use dnp3_bridge.Base.{
  ℕ, ◌≡◌, refl, ◌↔◌, true, Option, none, some, List, [], ◌∷◌, Dict, find, nat_eq, text_eq, String,
  arith,
}
use dnp3_bridge.Config.{AppConfig, default_config}
use dnp3_bridge.DataModel.{good, bad}
use dnp3_bridge.Points.Config.{PointConfig, PointDatabaseConfig}
use dnp3_bridge.Points.Names.{
  static_analog_names, event_analog_names, static_analog_output_names, event_analog_output_names,
  class0, class1, class2, class3, group30_var1, group30_var2, group30_var3, group32_var1,
  group32_var4, group40_var2, group42_var2, to_enum,
}
use dnp3_bridge.Points.Validate.{
  accepted, unexpected, check_binary_section, check_analog_section, check_binary_entry,
  check_analog_entry, validate_point_database,
}
use dnp3_bridge.Points.Validate.Decides.{IsValid, validate_point_database_iff}
use dnp3_bridge.Points.Validate.FirstError.{
  Section, IsValidBefore, IsValidIn, FirstBad, section_name, entries_of,
  validate_point_database-first_error,
}
use dnp3_bridge.Points.Database.{
  no_database, configure_section, apply_binary, apply_analog, configure_database_from_config,
}
use dnp3_bridge.Points.Database.Settings.{find-configure_section}
use dnp3_bridge.Points.Database.Fallback.{configure_database-fallback}
use dnp3_bridge.Points.Summary.{log_point_runs}
use dnp3_bridge.Points.Summary.Runs.{expand, IsSplit, log_point_runs_lem}
use dnp3_bridge.Outstation.Flags.Meaning.{opendnp3_quality}
use dnp3_bridge.Outstation.Updates.{drain}
use dnp3_bridge.Outstation.Lifecycle.{start, shutdown}
use dnp3_bridge.Outstation.Lifecycle.Started.{first, start-first_event}
use dnp3_bridge.Outstation.Updates.Filter.{analog_events, binary_events}
use dnp3_bridge.Tests.Sample.{send, switch, whole, up, defaults, plain, entry}

-- Points 0 to 4 have a deadband, point 3 another one.
abbrev analogs : List (PointConfig (Option ℕ))
analogs = entry 0 4 "class2" (some (some 5)) "Group30Var2" ∷ entry 3 3 "" (some (some 9)) "" ∷ []

abbrev database : PointDatabaseConfig (Option ℕ)
database = record {
  binary_input = entry 0 9 "class1" none "" ∷ [];
  binary_output_status = [];
  analog_input = analogs;
  analog_output_status = [];
}

-- A reversed range, behind a good entry.
abbrev reversed : PointDatabaseConfig (Option ℕ)
reversed = record database {
  binary_output_status = entry 0 1 "class0" none "" ∷ entry 5 3 "" none "" ∷ [];
}

validate_point_database_iff_example :
    (validate_point_database plain database ≡ accepted) ↔ IsValid database
validate_point_database_iff_example = validate_point_database_iff plain database

database_accepted : validate_point_database plain database ≡ accepted
unfolding validate_point_database check_binary_section check_analog_section check_binary_entry
    check_analog_entry find
database_accepted = refl

abbrev reversed_message : String
reversed_message = "point_database.binary_output_status[7].range: start 7 is greater than end 7"

reversed_refused : validate_point_database plain reversed ≡ unexpected reversed_message
unfolding validate_point_database check_binary_section check_analog_section check_binary_entry
    check_analog_entry find
reversed_refused = refl

validate_point_database-first_error_example :
    (s : Section) × IsValidBefore s reversed
    × FirstBad plain (IsValidIn s) (section_name s) 0 (entries_of s reversed) reversed_message
validate_point_database-first_error_example =
    validate_point_database-first_error plain reversed reversed_message reversed_refused

find-configure_section_example :
    find 3 (
      configure_section defaults.analog_input
        (apply_analog class1 group30_var1 group32_var1)
        analogs
        [])
    ≡ some (record {
      clazz = class2;
      deadband = some 9;
      svariation = group30_var2;
      evariation = group32_var1;
    })
unfolding apply_analog to_enum find
find-configure_section_example =
    find-configure_section defaults.analog_input (apply_analog class1 group30_var1 group32_var1) 3
      analogs [] tt (omega arith)

configure_database-fallback_example :
    configure_database_from_config defaults database no_database ≡ record {
      binary_input =
          configure_section defaults.binary_input (apply_binary class3) database.binary_input [];
      binary_output_status =
          configure_section defaults.binary_output_status
            (apply_binary class3)
            database.binary_output_status
            [];
      analog_input =
          configure_section defaults.analog_input
            (apply_analog class0 group30_var3 group32_var4)
            database.analog_input
            [];
      analog_output_status =
          configure_section defaults.analog_output_status
            (apply_analog class0 group40_var2 group42_var2)
            database.analog_output_status
            [];
    }
configure_database-fallback_example =
    configure_database-fallback plain defaults database no_database class3 class3 class0 class0
      group30_var3 group32_var4 group40_var2 group42_var2 database_accepted

abbrev described : Dict ℕ String
described = (0, "a") ∷ (1, "a") ∷ (2, "b") ∷ (5, "b") ∷ []

described_lines :
    log_point_runs described (λ d. d)
    ≡ record { first = 0; last = 1; desc = "a" }
      ∷ record { first = 2; last = 2; desc = "b" }
      ∷ record { first = 5; last = 5; desc = "b" }
      ∷ []
unfolding log_point_runs
described_lines = refl

log_point_runs_lem_example :
    (expand (log_point_runs described (λ d. d)) ≡ described)
    × IsSplit (log_point_runs described (λ d. d))
log_point_runs_lem_example = log_point_runs_lem described (λ d. d)

abbrev configured : AppConfig (Option ℕ)
configured = record default_config { point_database = database }

start-first_event_example :
    let m' = (start defaults configured up).0 in
    let us = send 1 4 good ∷ send 2 9 bad ∷ switch 2 true good ∷ send 2 90 good ∷ [] in
    (first (analog_events 2 (drain whole opendnp3_quality us m').1) ≡ some (some 9))
    × (first (binary_events 2 (drain whole opendnp3_quality us m').1) ≡ some true)
    × ((drain whole opendnp3_quality us (shutdown m')).1 ≡ [])
start-first_event_example =
    start-first_event whole opendnp3_quality defaults configured up 2
      (send 1 4 good ∷ send 2 9 bad ∷ switch 2 true good ∷ send 2 90 good ∷ [])
