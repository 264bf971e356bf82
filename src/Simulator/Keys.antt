-- ===== src/Simulator/Keys.antt =====
-- The event handlers of tools/dnp3-master-sim/Ui.cpp. As ftxui has it, a CatchEvent's handler gets an
-- event first, and its child if the handler returns false; a Tab container hands an event to the
-- child that its index names, and shows that child. What the radiobox and the input line make of an
-- event is a parameter of that event, and so is std::stoi.
pub mod Dialogs
pub mod Safe
pub mod Closing
use dnp3_bridge.Base.{
  ℕ, zero, suc, ◌+◌, ◌-◌, ◌%◌, ◌^◌, String, Bool, true, false, ◌||◌, Option, none, some, List, [],
  ◌∷◌, ◌++◌, get_elem?, or_else, ltb, eqb, if◌then◌else◌, u16, length,
}
use dnp3_bridge.Commands.Handler.{
  OperationType, op_nul, op_pulse_on, op_pulse_off, op_latch_on, op_latch_off,
}
use dnp3_bridge.Simulator.Model.{
  DataModel, Texts, Posted, concat, add_log, new_model, on_channel_state, command_result,
}
use dnp3_bridge.Simulator.Names.{binary_output_names, analog_output_names, point_name}
use dnp3_bridge.Simulator.Measurements.{Values, process}

-- ftxui's events, as far as the program tells them apart; a character is known by its first byte.
pub data Event : Type 0 where
  escape arrow_up arrow_down return_key custom other_event : Event
  character : ℕ → Event

-- What the handlers ask of the master and the screen. An int16 is its bit pattern; `out_of_range`
-- stands for an access behind the end of an array.
pub data Action : Type 0 where
  scan_all_classes scan_class1 scan_class2 exit_screen out_of_range : Action
  select_and_operate : OperationType → ℕ → Action
  direct_operate : ℕ → ℕ → Action

pub record Ui (D : Type 0) : Type 0 where
  pub model : DataModel D
  pub show_crob_modal : Bool
  pub show_analog_modal : Bool
  pub crob_index : ℕ
  pub crob_op : ℕ
  pub analog_index : ℕ
  pub analog_value_str : String
  pub tab_index : ℕ

-- What the radiobox and the input line make of one event; stoi gives an int, by its bit pattern, for
-- a text that is one.
pub record Widgets : Type 0 where
  pub radiobox : Event → ℕ → ℕ
  pub input : Event → String → String
  pub stoi : String → Option ℕ

abbrev pub op_types : List OperationType
op_types = op_nul ∷ op_pulse_on ∷ op_pulse_off ∷ op_latch_on ∷ op_latch_off ∷ []

abbrev pub crob_op_entries : List String
crob_op_entries = "NUL" ∷ "PULSE_ON" ∷ "PULSE_OFF" ∷ "LATCH_ON" ∷ "LATCH_OFF" ∷ []

abbrev pub max_crob_index : ℕ
max_crob_index = length binary_output_names - 1

abbrev pub max_analog_index : ℕ
max_analog_index = length analog_output_names - 1

abbrev pub previous : ℕ → ℕ → ℕ
previous max i = if ltb 0 i then i - 1 else max

abbrev pub following : ℕ → ℕ → ℕ
following max i = if ltb i max then i + 1 else 0

abbrev pub new_ui : {D : Type 0} → Ui D
new_ui = record {
  model = new_model;
  show_crob_modal = false;
  show_analog_modal = false;
  crob_index = 0;
  crob_op = 0;
  analog_index = 0;
  analog_value_str = "0.0";
  tab_index = 0;
}

-- A handler's result: the state, what it asked for, and whether it returned true.
abbrev pub Handled : Type 0 → Type 0
Handled D = Ui D × List Action × Bool

module _ {D : Type 0} (t : Texts D) (w : Widgets) where
  open w use {radiobox, input, stoi}

  abbrev pub log : String → ℕ → Ui D → Ui D
  log text now ui = record ui { model = add_log text now ui.model }

  unfoldable pub send_crob : Option OperationType → ℕ → Ui D → Handled D
  unfolding add_log
  send_crob none now ui = (ui, out_of_range ∷ [], true)
  send_crob (some op) now ui =
      let idx = u16 ui.crob_index in
      let text = concat (
        "Sending CROB idx="
        ∷ t.decimal idx
        ∷ " ("
        ∷ point_name binary_output_names idx
        ∷ ") op="
        ∷ or_else (get_elem? crob_op_entries ui.crob_op) ""
        ∷ []) in
      (record (log text now ui) { show_crob_modal = false }, select_and_operate op idx ∷ [], true)

  -- The handler of the CROB dialog.
  unfoldable pub catch_crob : Event → ℕ → Ui D → Handled D
  unfolding send_crob
  catch_crob escape now ui = (record ui { show_crob_modal = false }, [], true)
  catch_crob arrow_up now ui =
      (record ui { crob_index = previous max_crob_index ui.crob_index }, [], true)
  catch_crob arrow_down now ui =
      (record ui { crob_index = following max_crob_index ui.crob_index }, [], true)
  catch_crob return_key now ui = send_crob (get_elem? op_types ui.crob_op) now ui
  catch_crob _ now ui = (ui, [], false)

  unfoldable pub send_analog : Option ℕ → ℕ → Ui D → Handled D
  unfolding add_log
  send_analog none now ui =
      (record (log "Invalid analog value" now ui) { show_analog_modal = false }, [], true)
  send_analog (some n) now ui =
      let val = n % 2 ^ 16 in
      let idx = u16 ui.analog_index in
      let text = concat (
        "Sending AnalogOutput idx="
        ∷ t.decimal idx
        ∷ " ("
        ∷ point_name analog_output_names idx
        ∷ ") value="
        ∷ t.signed_decimal val
        ∷ []) in
      (record (log text now ui) { show_analog_modal = false }, direct_operate val idx ∷ [], true)

  -- The handler of the analog dialog.
  unfoldable pub catch_analog : Event → ℕ → Ui D → Handled D
  unfolding send_analog
  catch_analog escape now ui = (record ui { show_analog_modal = false }, [], true)
  catch_analog arrow_up now ui =
      (record ui { analog_index = previous max_analog_index ui.analog_index }, [], true)
  catch_analog arrow_down now ui =
      (record ui { analog_index = following max_analog_index ui.analog_index }, [], true)
  catch_analog return_key now ui = send_analog (stoi ui.analog_value_str) now ui
  catch_analog _ now ui = (ui, [], false)

  abbrev pub poll : Action → String → String → String → ℕ → Ui D → Handled D
  poll action kind text ts now ui = (
    record ui {
      model = add_log text now (record ui.model { last_poll_type = kind; last_poll_time = ts });
    },
    action ∷ [],
    true,
  )

  -- The switch on a character.
  unfoldable pub press : ℕ → ℕ → String → Ui D → Handled D
  unfolding add_log
  press c now ts ui =
      if eqb c b'i' || eqb c b'I'
      then poll scan_all_classes "Integrity" "Sending integrity poll (all classes)..." ts now ui
      else if eqb c b'1'
      then poll scan_class1 "Class 1" "Sending Class 1 poll..." ts now ui
      else if eqb c b'2'
      then poll scan_class2 "Class 2" "Sending Class 2 poll..." ts now ui
      else if eqb c b'c' || eqb c b'C'
      then (record ui { show_crob_modal = true; tab_index = 1 }, [], true)
      else if eqb c b'a' || eqb c b'A'
      then (record ui { show_analog_modal = true; tab_index = 2 }, [], true)
      else if eqb c b'q' || eqb c b'Q'
      then (ui, exit_screen ∷ [], true)
      else (ui, [], false)

  abbrev pub tab_of : Bool → Bool → ℕ
  tab_of crob analog = if crob then 1 else if analog then 2 else 0

  -- The handler of the root.
  unfoldable pub catch_root : Event → ℕ → String → Ui D → Handled D
  unfolding press
  catch_root (character c) now ts ui =
      let ui = record ui { tab_index = tab_of ui.show_crob_modal ui.show_analog_modal } in
      if ui.show_crob_modal || ui.show_analog_modal then (ui, [], false) else press c now ts ui
  catch_root _ now ts ui =
      (record ui { tab_index = tab_of ui.show_crob_modal ui.show_analog_modal }, [], false)

  abbrev pub to_radiobox : Event → Handled D → Ui D × List Action
  to_radiobox event (ui, actions, true) = (ui, actions)
  to_radiobox event (ui, actions, false) =
      (record ui { crob_op = radiobox event ui.crob_op }, actions)

  abbrev pub to_input : Event → Handled D → Ui D × List Action
  to_input event (ui, actions, true) = (ui, actions)
  to_input event (ui, actions, false) =
      (record ui { analog_value_str = input event ui.analog_value_str }, actions)

  -- The child of the container that its index names.
  abbrev pub to_child : ℕ → Event → ℕ → Ui D → Ui D × List Action
  to_child (suc zero) event now ui = to_radiobox event (catch_crob event now ui)
  to_child (suc (suc zero)) event now ui = to_input event (catch_analog event now ui)
  to_child _ event now ui = (ui, [])

  abbrev pub to_container : Event → ℕ → Handled D → Ui D × List Action
  to_container event now (ui, actions, true) = (ui, actions)
  to_container event now (ui, actions, false) = to_child ui.tab_index event now ui

  -- An event at the root component, at a time.
  unfoldable pub on_event : Event → ℕ → String → Ui D → Ui D × List Action
  unfolding catch_root catch_crob catch_analog
  on_event event now ts ui = to_container event now (catch_root event now ts ui)
