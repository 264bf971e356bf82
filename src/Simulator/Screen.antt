-- ===== src/Simulator/Screen.antt =====
-- What tools/dnp3-master-sim/Ui.cpp puts on the screen: the child of the container that its index
-- names. Of a dialog the title, the line of the point, and the selected operation or the typed value
-- stand here; what ftxui draws around them does not.
use dnp3_bridge.Base.{ℕ, zero, suc, String, List, [], ◌∷◌, get_elem?, or_else, u16}
use dnp3_bridge.Double.{Double}
use dnp3_bridge.Simulator.Model.{Texts, concat}
use dnp3_bridge.Simulator.Names.{binary_output_names, analog_output_names, point_name}
use dnp3_bridge.Simulator.Tables.{Content, content}
use dnp3_bridge.Simulator.Keys.{Ui, crob_op_entries}

pub record Dialog : Type 0 where
  pub title : String
  pub point : String
  pub choice : String

pub data Shown : Type 0 where
  tables : Content → Shown
  dialog : Dialog → Shown

module _ (f : Double) (half : f.D) (t : Texts f.D) where
  open f use {D}

  abbrev pub point_text : List String → ℕ → String
  point_text names index = concat (t.decimal index ∷ " - " ∷ point_name names (u16 index) ∷ [])

  -- crob_modal_renderer
  unfoldable pub crob_dialog : Ui D → Dialog
  crob_dialog ui = record {
    title = " Send CROB Command ";
    point = point_text binary_output_names ui.crob_index;
    choice = or_else (get_elem? crob_op_entries ui.crob_op) "";
  }

  -- analog_modal_renderer
  unfoldable pub analog_dialog : Ui D → Dialog
  analog_dialog ui = record {
    title = " Send Analog Output ";
    point = point_text analog_output_names ui.analog_index;
    choice = ui.analog_value_str;
  }

  abbrev pub child : ℕ → ℕ → Ui D → Shown
  child (suc zero) now ui = dialog (crob_dialog ui)
  child (suc (suc zero)) now ui = dialog (analog_dialog ui)
  child _ now ui = tables (content f half t ui.model now)

  unfoldable pub render : ℕ → Ui D → Shown
  unfolding content crob_dialog analog_dialog
  render now ui = child ui.tab_index now ui
