-- ===== src/Simulator/Measurements.antt =====
-- tools/dnp3-master-sim/SoeHandler.cpp. The overloads of Process are the clauses of process; a
-- collection is the list of what ForeachItem visits. The second result are the events that notify_
-- posts to the screen.
pub mod Latest
use dnp3_bridge.Base.{
  ℕ, suc, Bool, true, String, List, [], ◌∷◌, Dict, assign, length, if◌then◌else◌, nat_eq,
}
use dnp3_bridge.Simulator.Model.{
  PointValue, DataModel, Texts, Posted, custom_event, concat, add_log,
}

-- opendnp3's Indexed<T>: the index, the value and the flags of a measurement.
pub record Indexed (T : Type 0) : Type 0 where
  pub index : ℕ  -- uint16
  pub value : T
  pub flags : ℕ  -- uint8

pub data Values (D : Type 0) : Type 0 where
  binary_values binary_output_values : List (Indexed Bool) → Values D
  analog_values analog_output_values : List (Indexed D) → Values D
  other_values : Values D

module _ {D : Type 0} (zero one : D) where
  abbrev pub of_bool : Bool → D
  of_bool b = if b then one else zero

module _ {D T : Type 0} where
  -- The loop of ForeachItem.
  unfoldable pub store_values :
      (T → D) → ℕ → List (Indexed T) → Dict ℕ (PointValue D) → Dict ℕ (PointValue D)
  store_values of now [] points = points
  store_values of now (pair ∷ values) points = store_values of now values (
      assign pair.index
        (record { value = of pair.value; flags = pair.flags; received = true; last_update = now })
        points)

module _ {D : Type 0} (t : Texts D) (zero one : D) where
  received_text : ℕ → String → String
  received_text count what = concat ("Received " ∷ t.decimal count ∷ what ∷ [])

  unfoldable pub process : Values D → ℕ → DataModel D → DataModel D × List Posted
  unfolding store_values add_log received_text
  process (binary_values values) now m = (
    add_log (received_text (length values) " binary input(s)") now
        (record m { binary_inputs = store_values (of_bool zero one) now values m.binary_inputs }),
    custom_event ∷ [],
  )
  process (analog_values values) now m = (
    add_log (received_text (length values) " analog input(s)") now
        (record m { analog_inputs = store_values (λ v. v) now values m.analog_inputs }),
    custom_event ∷ [],
  )
  process (binary_output_values values) now m = (
    add_log (received_text (length values) " binary output status(es)") now
        (record m { binary_outputs = store_values (of_bool zero one) now values m.binary_outputs }),
    custom_event ∷ [],
  )
  process (analog_output_values values) now m = (
    add_log (received_text (length values) " analog output status(es)") now
        (record m { analog_outputs = store_values (λ v. v) now values m.analog_outputs }),
    custom_event ∷ [],
  )
  process other_values now m = (m, [])
