-- ===== src/Points/Summary.antt =====
-- logPointRuns of src/dnp3/OutstationManager.cpp: the lines that it logs for a measurement type.
-- A point's description stands beside its index.
pub mod Runs
use dnp3_bridge.Points.Names.{
  PointClass, StaticAnalog, EventAnalog, StaticAnalogOutput, EventAnalogOutput,
}
use dnp3_bridge.Points.Database.{BinaryPoint, AnalogPoint, DatabaseConfig}
use Prim.Native.String
use dnp3_bridge.Base.{
  length, ℕ, ◌+◌, String, Bool, ◌||◌, not, List, [], ◌∷◌, Dict, eqb, if◌then◌else◌, ◌==◌, text_eq,
  map,
}

-- One line: "label[first] desc" or "label[first..last] desc".
pub record Run : Type 0 where
  pub first : ℕ
  pub last : ℕ
  pub desc : String

-- The loop after the first point; `run_start`, `prev` and `desc` are its variables.
unfoldable pub point_runs_from : ℕ → ℕ → String → Dict ℕ String → List Run
point_runs_from run_start prev desc [] = record { first = run_start; last = prev; desc = desc } ∷ []
point_runs_from run_start prev desc ((i, next_desc) ∷ points) =
    let broken =
      record { first = run_start; last = prev; desc = desc }
      ∷ point_runs_from i i next_desc points in
    let longer = point_runs_from run_start i desc points in
    if not (eqb i (prev + 1)) || not (next_desc == desc) then broken else longer

unfoldable pub described_runs : Dict ℕ String → List Run
unfolding point_runs_from
described_runs [] = []
described_runs ((i, desc) ∷ points) = point_runs_from i i desc points

unfoldable pub log_point_runs {ℓ} : {P : Type ℓ} → Dict ℕ P → (P → String) → List Run
unfolding described_runs
log_point_runs points describe = described_runs (map (λ point. (point.0, describe point.1)) points)

-- opendnp3's names of classes and variations, and fmt's text of a double.
pub record Names (D : Type 0) : Type 0 where
  pub class_text : PointClass → String
  pub number : D → String
  pub static_analog : StaticAnalog → String
  pub event_analog : EventAnalog → String
  pub static_analog_output : StaticAnalogOutput → String
  pub event_analog_output : EventAnalogOutput → String

abbrev pub concat : List String → String
concat [] = ""
concat (s ∷ ss) = String.◌++◌ s (concat ss)

-- The counts of the first line, and the runs of each type.
pub record DatabaseSummary : Type 0 where
  pub binary_inputs : ℕ
  pub binary_outputs : ℕ
  pub analog_inputs : ℕ
  pub analog_outputs : ℕ
  pub bi : List Run
  pub bo : List Run
  pub ai : List Run
  pub ao : List Run

module _ {D : Type 0} (n : Names D) where
  abbrev pub binary_desc : BinaryPoint → String
  binary_desc pt = concat ("class=" ∷ n.class_text pt.clazz ∷ [])

  abbrev pub analog_desc : {S E : Type 0} → (S → String) → (E → String) → AnalogPoint D S E → String
  analog_desc static event pt = concat (
      "class="
      ∷ n.class_text pt.clazz
      ∷ " deadband="
      ∷ n.number pt.deadband
      ∷ " static="
      ∷ static pt.svariation
      ∷ " event="
      ∷ event pt.evariation
      ∷ [])

  -- logDatabaseSummary
  unfoldable pub log_database_summary : DatabaseConfig D → DatabaseSummary
  unfolding log_point_runs
  log_database_summary db = record {
    binary_inputs = length db.binary_input;
    binary_outputs = length db.binary_output_status;
    analog_inputs = length db.analog_input;
    analog_outputs = length db.analog_output_status;
    bi = log_point_runs db.binary_input binary_desc;
    bo = log_point_runs db.binary_output_status binary_desc;
    ai = log_point_runs db.analog_input (analog_desc n.static_analog n.event_analog);
    ao =
        log_point_runs db.analog_output_status
          (analog_desc n.static_analog_output n.event_analog_output);
  }
