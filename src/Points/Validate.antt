-- ===== src/Points/Validate.antt =====
-- validatePointDatabase of src/dnp3/OutstationManager.cpp and its checks.
pub mod Decides
pub mod Prefixes
pub mod FirstError
use Prim.Native.String
use dnp3_bridge.Base.{
  ℕ, suc, String, ◌||◌, List, [], ◌∷◌, map, find, is_some, ltb, if◌then◌else◌, ◌==◌, text_eq,
}
use dnp3_bridge.Points.Config.{PointConfig, PointDatabaseConfig}
use dnp3_bridge.Points.Names.{
  PointClass, StaticAnalog, EventAnalog, StaticAnalogOutput, EventAnalogOutput, NameMap,
  point_class_names, static_analog_names, event_analog_names, static_analog_output_names,
  event_analog_output_names,
}

-- What the messages take from libraries: fmt's decimal numbers and join, and std::sort.
pub record Formatting : Type 0 where
  pub decimal : ℕ → String
  pub join : List String → String → String
  pub sort : List String → List String

-- std::expected<void, std::string>
pub data Expected : Type 0 where
  accepted : Expected
  unexpected : String → Expected

-- if (auto r = …; !r) return r;
infixl 5 ◌>>◌
abbrev pub ◌>>◌ : Expected → Expected → Expected
accepted >> k = k
unexpected message >> k = unexpected message

abbrev pub concat : List String → String
concat [] = ""
concat (s ∷ ss) = String.◌++◌ s (concat ss)

module _ (l : Formatting) where
  unfoldable pub unknown_value : (E : Type 0) ⦃t : NameMap E⦄ → String → String → String
  unknown_value E ⦃t⦄ field value = concat (
      field
      ∷ ": unknown value \""
      ∷ value
      ∷ "\" (expected one of: "
      ∷ l.join (l.sort (map (λ entry. entry.0) t.names)) ", "
      ∷ ")"
      ∷ [])

  unfoldable pub check_enum : (E : Type 0) ⦃t : NameMap E⦄ → String → String → Expected
  check_enum E ⦃t⦄ value field =
      if value == "" || is_some (find value t.names)
      then accepted
      else unexpected (unknown_value E field value)

  abbrev pub entry_prefix : String → ℕ → String
  entry_prefix section i = concat ("point_database." ∷ section ∷ "[" ∷ l.decimal i ∷ "]" ∷ [])

module _ (l : Formatting) {D : Type 0} where
  unfoldable pub check_range : PointConfig D → String → Expected
  check_range pc prefix =
      if ltb pc.end pc.start
      then unexpected (
          concat (
            prefix
            ∷ ".range: start "
            ∷ l.decimal pc.start
            ∷ " is greater than end "
            ∷ l.decimal pc.end
            ∷ []))
      else accepted

  -- The body of the loop of checkBinarySection.
  unfoldable pub check_binary_entry : PointConfig D → String → Expected
  unfolding check_range check_enum
  check_binary_entry pc prefix = do
    check_range pc prefix
    check_enum l PointClass pc.event_class (concat (prefix ∷ ".class" ∷ []))

  -- The body of the loop of checkAnalogSection.
  unfoldable pub check_analog_entry :
      (S E : Type 0) ⦃s : NameMap S⦄ ⦃e : NameMap E⦄ → PointConfig D → String → Expected
  unfolding check_range check_enum
  check_analog_entry S E pc prefix = do
    check_range pc prefix
    check_enum l PointClass pc.event_class (concat (prefix ∷ ".class" ∷ []))
    check_enum l S pc.static_variation (concat (prefix ∷ ".static_variation" ∷ []))
    check_enum l E pc.event_variation (concat (prefix ∷ ".event_variation" ∷ []))

  -- The loop of both: entry by entry from index i, up to the first that is refused.
  unfoldable pub check_from :
      (PointConfig D → String → Expected) → String → ℕ → List (PointConfig D) → Expected
  check_from check section i [] = accepted
  check_from check section i (pc ∷ entries) = do
    check pc (entry_prefix l section i)
    check_from check section (suc i) entries

  unfoldable pub check_binary_section : List (PointConfig D) → String → Expected
  unfolding check_from
  check_binary_section entries section = check_from check_binary_entry section 0 entries

  unfoldable pub check_analog_section :
      (S E : Type 0) ⦃s : NameMap S⦄ ⦃e : NameMap E⦄ → List (PointConfig D) → String → Expected
  unfolding check_from
  check_analog_section S E entries section = check_from (check_analog_entry S E) section 0 entries

  unfoldable pub validate_point_database : PointDatabaseConfig D → Expected
  validate_point_database db = do
    check_binary_section db.binary_input "binary_input"
    check_binary_section db.binary_output_status "binary_output_status"
    check_analog_section StaticAnalog EventAnalog db.analog_input "analog_input"
    check_analog_section StaticAnalogOutput EventAnalogOutput db.analog_output_status
        "analog_output_status"
