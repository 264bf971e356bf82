-- ===== src/Points/Validate/Decides.antt =====
-- Well-formed entries and validation, src/dnp3/OutstationManager.cpp.
use dnp3_bridge.Base.{
  ℕ, suc, ◌≤◌, ◌≡◌, refl, ◌↔◌, ◌⊎◌, inl, inr, String, some, Option-cases, List, [], ◌∷◌, All, arith,
  find, text_eq, string_eq_iff,
}
use dnp3_bridge.Points.Config.{PointConfig, PointDatabaseConfig}
use dnp3_bridge.Points.Names.{
  PointClass, StaticAnalog, EventAnalog, StaticAnalogOutput, EventAnalogOutput, NameMap,
  point_class_names, static_analog_names, event_analog_names, static_analog_output_names,
  event_analog_output_names,
}
use dnp3_bridge.Points.Validate.{
  Formatting, Expected, accepted, unexpected, ◌>>◌, check_enum, check_range, check_binary_entry,
  check_analog_entry, check_from, check_binary_section, check_analog_section,
  validate_point_database,
}

-- A name is left out or in the table.
abbrev pub IsKnown : (E : Type 0) ⦃t : NameMap E⦄ → String → Type 0
IsKnown E ⦃t⦄ s = (s ≡ "") ⊎ ((v : E) × (find s t.names ≡ some v))

module _ {D : Type 0} where
  abbrev pub IsValidBinary : PointConfig D → Type 0
  IsValidBinary pc = (pc.start ≤ pc.end) × IsKnown PointClass pc.event_class

  abbrev pub IsValidAnalog : (S E : Type 0) ⦃s : NameMap S⦄ ⦃e : NameMap E⦄ → PointConfig D → Type 0
  IsValidAnalog S E pc =
      (pc.start ≤ pc.end)
      × IsKnown PointClass pc.event_class
      × IsKnown S pc.static_variation
      × IsKnown E pc.event_variation

  abbrev pub IsValid : PointDatabaseConfig D → Type 0
  IsValid db =
      All IsValidBinary db.binary_input
      × All IsValidBinary db.binary_output_status
      × All (IsValidAnalog StaticAnalog EventAnalog) db.analog_input
      × All (IsValidAnalog StaticAnalogOutput EventAnalogOutput) db.analog_output_status

-- A chain of two checks is accepted when both are.
pub >>_iff :
    (m k : Expected) {P Q : Type 0}
    → (m ≡ accepted) ↔ P
    → (k ≡ accepted) ↔ Q
    → ((m >> k) ≡ accepted) ↔ (P × Q)
>>_iff accepted k p q = ((λ h. (p.0 refl, q.0 h)), (λ r. q.1 r.1))
>>_iff (unexpected s) k p q = ((λ h. cc), (λ r. cc (p.1 r.0)))

module _ (l : Formatting) where
  pub check_enum_iff :
      (E : Type 0) ⦃t : NameMap E⦄ (value field : String)
      → (check_enum l E value field ≡ accepted) ↔ IsKnown E value
  unfolding check_enum
  check_enum_iff E ⦃t⦄ value field = elim (Option-cases (find value t.names)) [
    | inl e ↦ ground (arith, string_eq_iff value "")
    | inr (v, e) ↦ ((λ _. inr (v, e)), λ _. ground arith)
  ]

  module _ {D : Type 0} where
    check_range_iff :
        (pc : PointConfig D) (prefix : String)
        → (check_range l pc prefix ≡ accepted) ↔ (pc.start ≤ pc.end)
    unfolding check_range
    check_range_iff pc prefix = ground arith

    pub check_binary_entry_iff :
        (pc : PointConfig D) (prefix : String)
        → (check_binary_entry l pc prefix ≡ accepted) ↔ IsValidBinary pc
    unfolding check_binary_entry
    check_binary_entry_iff pc prefix =
        >>_iff _ _ (check_range_iff pc prefix) (check_enum_iff PointClass pc.event_class _)

    pub check_analog_entry_iff :
        (S E : Type 0) ⦃s : NameMap S⦄ ⦃e : NameMap E⦄ (pc : PointConfig D) (prefix : String)
        → (check_analog_entry l S E pc prefix ≡ accepted) ↔ IsValidAnalog S E pc
    unfolding check_analog_entry
    check_analog_entry_iff S E pc prefix =
        let rest =
          >>_iff _ _ (check_enum_iff S pc.static_variation _)
            (check_enum_iff E pc.event_variation _) in
        let all =
          >>_iff _ _ (check_range_iff pc prefix)
            (>>_iff _ _ (check_enum_iff PointClass pc.event_class _) rest) in
        ((λ h. let (r, (c, (v, w))) = all.0 h in (r, c, v, w)), λ t. all.1 (t.0, (t.1, (t.2, t.3))))

    pub check_from_iff :
        (check : PointConfig D → String → Expected) (P : PointConfig D → Type 0) (section : String)
        → ((pc : PointConfig D) (prefix : String) → (check pc prefix ≡ accepted) ↔ P pc)
        → (i : ℕ) (entries : List (PointConfig D))
        → (check_from l check section i entries ≡ accepted) ↔ All P entries
    unfolding check_from
    check_from_iff check P section h i [] = ((λ _. tt), λ _. refl)
    check_from_iff check P section h i (pc ∷ entries) =
        >>_iff _ _ (h pc _) (check_from_iff check P section h (suc i) entries)

    pub check_binary_section_iff :
        (entries : List (PointConfig D)) (section : String)
        → (check_binary_section l entries section ≡ accepted) ↔ All IsValidBinary entries
    unfolding check_binary_section
    check_binary_section_iff entries section =
        check_from_iff _ IsValidBinary section check_binary_entry_iff 0 entries

    pub check_analog_section_iff :
        (S E : Type 0) ⦃s : NameMap S⦄ ⦃e : NameMap E⦄
        → (entries : List (PointConfig D)) (section : String)
        → (check_analog_section l S E entries section ≡ accepted) ↔ All (IsValidAnalog S E) entries
    unfolding check_analog_section
    check_analog_section_iff S E entries section =
        check_from_iff _ (IsValidAnalog S E) section (check_analog_entry_iff S E) 0 entries

    -- A point database is accepted exactly when each entry of each section has an ascending range, a
    -- known class or none, and, in the two analog sections, known variations or none.
    pub validate_point_database_iff :
        (db : PointDatabaseConfig D) → (validate_point_database l db ≡ accepted) ↔ IsValid db
    unfolding validate_point_database
    validate_point_database_iff db =
        let all = >>_iff _ _ (check_binary_section_iff db.binary_input _) (
          >>_iff _ _ (check_binary_section_iff db.binary_output_status _) (
            >>_iff _ _ (check_analog_section_iff StaticAnalog EventAnalog db.analog_input _) (
              check_analog_section_iff StaticAnalogOutput EventAnalogOutput db.analog_output_status
                _))) in
        ((λ h. let (r, (c, (v, w))) = all.0 h in (r, c, v, w)), λ t. all.1 (t.0, (t.1, (t.2, t.3))))
