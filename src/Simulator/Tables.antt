-- ===== src/Simulator/Tables.antt =====
-- The content renderer of tools/dnp3-master-sim/Ui.cpp: the rows of the four tables and the lines of
-- the event log. A cell is its text and its decorators; layout is ftxui's.
pub mod Shown
pub mod Colors
pub mod Lines
use text.Mathlib.Text.{find?}
use dnp3_bridge.Base.{
  ℕ, zero, suc, ◌-◌, ◌/◌, String, Bool, true, false, ◌||◌, ◌&&◌, Option, none, some, List, [], ◌∷◌,
  ◌==◌, text_eq, Dict, find, length, is_some, leb, ltb, eqb, if◌then◌else◌, nat_eq, map, drop,
}
use dnp3_bridge.Double.{Double}
use dnp3_bridge.Simulator.Model.{PointValue, LogEntry, DataModel, Texts, concat}
use dnp3_bridge.Simulator.Names.{
  binary_input_names, binary_output_names, analog_input_names, analog_output_names, point_name,
}

pub data Color : Type 0 where
  green red yellow gray_dark cyan : Color

-- dim, or color(c).
pub data Tint : Type 0 where
  dim : Tint
  tinted : Color → Tint

pub record Cell : Type 0 where
  pub text : String
  pub tint : Tint
  pub is_bold : Bool

pub record Row : Type 0 where
  pub number : String
  pub name : String
  pub value : Cell
  pub flags : Cell

unfoldable pub flag_color : ℕ → Color
flag_color flags = if leb 4 flags then red else if eqb flags 2 then yellow else gray_dark

-- duration_cast to milliseconds truncates.
abbrev pub is_recent : {D : Type 0} → ℕ → PointValue D → Bool
is_recent now v = ltb ((now - v.last_update) / 1_000_000) 1000

abbrev pub missing_value : Cell
missing_value = record { text = "---"; tint = dim; is_bold = false }

abbrev pub missing_flags : Cell
missing_flags = record { text = "--"; tint = dim; is_bold = false }

module _ (f : Double) (half : f.D) (t : Texts f.D) where
  open f use {D, greater}

  abbrev pub flags_cell : PointValue D → Cell
  flags_cell v = record {
    text = t.hex v.flags;
    tint = tinted (flag_color v.flags);
    is_bold = false;
  }

  abbrev pub binary_cell : ℕ → PointValue D → Cell
  binary_cell now v =
      let on = greater v.value half in
      record {
        text = if on then " 1 " else " 0 ";
        tint = if on then tinted green else dim;
        is_bold = is_recent now v;
      }

  abbrev pub analog_cell : ℕ → PointValue D → Cell
  analog_cell now v = record {
    text = t.rounded v.value;
    tint = tinted cyan;
    is_bold = is_recent now v;
  }

  -- The two cells of a point that may not be there.
  abbrev pub cells : (PointValue D → Cell) → Option (PointValue D) → Cell × Cell
  cells value_cell none = (missing_value, missing_flags)
  cells value_cell (some v) =
      if v.received then (value_cell v, flags_cell v) else (missing_value, missing_flags)

  -- One round of the loop over the indices.
  unfoldable pub build_row : (PointValue D → Cell) → List String → Dict ℕ (PointValue D) → ℕ → Row
  unfolding flag_color
  build_row value_cell names points i =
      let (value, flags) = cells value_cell (find i points) in
      record { number = t.padded i; name = point_name names i; value = value; flags = flags }

  unfoldable pub rows_from :
      (PointValue D → Cell) → List String → Dict ℕ (PointValue D) → ℕ → ℕ → List Row
  unfolding build_row
  rows_from value_cell names points zero i = []
  rows_from value_cell names points (suc rounds) i =
      build_row value_cell names points i ∷ rows_from value_cell names points rounds (suc i)

  unfoldable pub build_binary_table : List String → Dict ℕ (PointValue D) → ℕ → List Row
  unfolding rows_from
  build_binary_table names points now = rows_from (binary_cell now) names points (length names) 0

  unfoldable pub build_analog_table : List String → Dict ℕ (PointValue D) → ℕ → List Row
  unfolding rows_from
  build_analog_table names points now = rows_from (analog_cell now) names points (length names) 0

abbrev pub mentions : String → String → Bool
mentions text word = is_some (find? text word)

unfoldable pub line_tint : String → Tint
line_tint text =
    if mentions text "SUCCESS" || mentions text "Received"
    then tinted green
    else if mentions text "TIMEOUT" || mentions text "error" || mentions text "FAIL"
    then tinted red
    else dim

abbrev pub line : LogEntry → Cell
line entry = record { text = entry.text; tint = line_tint entry.text; is_bold = false }

abbrev pub or_no_events : List Cell → List Cell
or_no_events [] = record { text = " (no events)"; tint = dim; is_bold = false } ∷ []
or_no_events (c ∷ cs) = c ∷ cs

unfoldable pub log_lines : List LogEntry → List Cell
unfolding line_tint
log_lines event_log =
    let start = if ltb 8 (length event_log) then length event_log - 8 else 0 in
    or_no_events (map line (drop start event_log))

-- What the renderer shows of the model.
pub record Content : Type 0 where
  pub status : Cell
  pub poll : String
  pub binary_input_rows : List Row
  pub binary_output_rows : List Row
  pub analog_input_rows : List Row
  pub analog_output_rows : List Row
  pub log : List Cell

module _ (f : Double) (half : f.D) (t : Texts f.D) where
  open f use {D}

  abbrev pub poll_text : String → String → String
  poll_text kind time = concat (" Last: " ∷ kind ∷ " at " ∷ time ∷ " " ∷ [])

  unfoldable pub content : DataModel D → ℕ → Content
  unfolding build_binary_table build_analog_table log_lines
  content m now = record {
    status =
        if m.connected
        then record { text = " CONNECTED "; tint = tinted green; is_bold = true }
        else record { text = " DISCONNECTED "; tint = tinted red; is_bold = true };
    poll = if m.last_poll_type == "" then "" else poll_text m.last_poll_type m.last_poll_time;
    binary_input_rows = build_binary_table f half t binary_input_names m.binary_inputs now;
    binary_output_rows = build_binary_table f half t binary_output_names m.binary_outputs now;
    analog_input_rows = build_analog_table f half t analog_input_names m.analog_inputs now;
    analog_output_rows = build_analog_table f half t analog_output_names m.analog_outputs now;
    log = log_lines m.event_log;
  }
