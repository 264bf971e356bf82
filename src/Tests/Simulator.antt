-- ===== src/Tests/Simulator.antt =====
-- The simulator of tools/dnp3-master-sim.
use dnp3_bridge.Base.{
  ℕ, ◌%◌, ◌+◌, ◌≡◌, refl, ◌==◌, Bool, true, false, Option, none, some, List, [], ◌∷◌, if◌then◌else◌,
  map, newest, find, nat_eq, is_some,
}
use dnp3_bridge.DataModel.{PointUpdate, good, bad}
use dnp3_bridge.Points.Database.{no_database, configure_default_database}
use dnp3_bridge.Outstation.Flags.{to_flag_bits}
use dnp3_bridge.Outstation.Flags.Meaning.{opendnp3_quality}
use dnp3_bridge.Outstation.Updates.{drain}
use dnp3_bridge.Commands.Handler.{op_nul}
use dnp3_bridge.Simulator.Model.{LogEntry, Texts, new_model}
use dnp3_bridge.Simulator.Model.Log.{add_logs}
use dnp3_bridge.Simulator.Names.{
  binary_input_names, binary_output_names, analog_input_names, analog_output_names, point_name,
}
use dnp3_bridge.Simulator.Names.Default.{is_named, is_named-default}
use dnp3_bridge.Simulator.Measurements.{Values, analog_values, binary_values, process}
use dnp3_bridge.Simulator.Measurements.Latest.{process-IsUpdated}
use dnp3_bridge.Simulator.Tables.{binary_cell, build_row, line, or_no_events, log_lines}
use dnp3_bridge.Simulator.Tables.Shown.{StateFlags, sent_binaries, build_row-drain}
use dnp3_bridge.Simulator.Tables.Lines.{log_lines-add_logs}
use dnp3_bridge.Simulator.Keys.{
  arrow_up, return_key, character, Ui, Widgets, send_crob, catch_crob, press, catch_root, on_event,
  select_and_operate,
}
use dnp3_bridge.Simulator.Session.{
  Step, key, redraw, measured, new_simulator, take_posted, step, run,
}
use dnp3_bridge.Simulator.Screen.{dialog, crob_dialog, render}
use dnp3_bridge.Tests.Sample.{whole, up, defaults, switch}

abbrev texts : Texts (Option ℕ)
texts = record {
  State = Bool;
  is_open = λ s. s;
  state_text = λ s. "state";
  decimal = λ n. "7";
  signed_decimal = λ n. "7";
  padded = λ n. " 7";
  hex = λ n. if n == 129 then "81" else "00";
  rounded = λ v. "7";
}

abbrev widgets : Widgets
widgets = record { radiobox = λ e n. n; input = λ e s. s; stoi = λ s. some 70_000 }

-- A point that is switched off and on again.
abbrev blink : List (PointUpdate (Option ℕ))
blink = switch 1 false bad ∷ switch 1 true good ∷ []

-- The bit of weight 128 is opendnp3's STATE.
abbrev state_flags : StateFlags
state_flags value flags = if value then flags % 128 + 128 else flags % 128

build_row-drain_example :
    let received =
      binary_values (sent_binaries state_flags (drain whole opendnp3_quality blink up).1) in
    let points = (process texts (some 0) (some 1) received 5 new_model).0.binary_inputs in
    let row =
      build_row whole
        (some 0)
        texts
        (binary_cell whole (some 0) texts 6)
        binary_input_names
        points
        1 in
    (row.value.text ≡ " 1 ") × (row.flags.text ≡ "81")
unfolding to_flag_bits
build_row-drain_example =
    build_row-drain whole opendnp3_quality state_flags (some 0) (some 1) texts refl refl blink up
      binary_input_names 1 (record { index = 1; value = true; quality = good }) 5 6 new_model refl
      refl

abbrev analogs : Values (Option ℕ)
analogs = analog_values (
    record { index = 3; value = some 8; flags = 1 }
    ∷ record { index = 4; value = some 2; flags = 1 }
    ∷ record { index = 3; value = some 9; flags = 0 }
    ∷ [])

process-IsUpdated_example :
    let m = (process texts (some 0) (some 1) analogs 5 new_model).0 in
    (find 3 m.binary_inputs ≡ none)
    × (find 3 m.analog_inputs
        ≡ some (record { value = some 9; flags = 0; received = true; last_update = 5 }))
    × (find 3 m.binary_outputs ≡ none)
    × (find 3 m.analog_outputs ≡ none)
unfolding find
process-IsUpdated_example = process-IsUpdated texts (some 0) (some 1) analogs 5 new_model 3

abbrev entries : List LogEntry
entries =
    record { text = "error"; timestamp = 1 } ∷ record { text = "Received"; timestamp = 2 } ∷ []

log_lines-add_logs_example :
    log_lines (add_logs entries (new_model {D = ℕ})).event_log
    ≡ or_no_events (map line (newest 8 entries))
log_lines-add_logs_example = log_lines-add_logs ℕ entries

is_named-default_example :
    let db = configure_default_database defaults no_database in
    (is_some (find 4 db.binary_input) ≡ is_named binary_input_names 4)
    × (is_some (find 4 db.binary_output_status) ≡ is_named binary_output_names 4)
    × (is_some (find 4 db.analog_input) ≡ is_named analog_input_names 4)
    × (is_some (find 4 db.analog_output_status) ≡ is_named analog_output_names 4)
is_named-default_example = is_named-default defaults 4

-- A command to the last binary output, with a measurement in between.
abbrev session : List (Step texts)
session =
    key widgets (character b'c') 1 "t"
    ∷ key widgets arrow_up 2 "t"
    ∷ measured analogs 3
    ∷ redraw widgets 4 "t"
    ∷ key widgets return_key 5 "t"
    ∷ []

session_actions :
    (run texts (some 0) (some 1) new_simulator session).actions ≡ select_and_operate op_nul 19 ∷ []
unfolding run step on_event catch_root press catch_crob send_crob take_posted process
session_actions = refl

-- The CROB dialog at the last binary output.
abbrev opening : List (Step texts)
opening = key widgets (character b'c') 1 "t" ∷ key widgets arrow_up 2 "t" ∷ []

abbrev opened : Ui (Option ℕ)
opened = (run texts (some 0) (some 1) new_simulator opening).ui

opened_dialog :
    render whole (some 0) texts 3 opened
    ≡ dialog (record {
      title = " Send CROB Command ";
      point = "7 - Aciona Ventilador Ponte";
      choice = "NUL";
    })
unfolding run step on_event catch_root press catch_crob render crob_dialog point_name
opened_dialog = refl
