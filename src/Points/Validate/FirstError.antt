-- ===== src/Points/Validate/FirstError.antt =====
-- The first bad entry of a database, src/dnp3/OutstationManager.cpp.
use native.Mathlib.Nat.{add-zero}
use dnp3_bridge.Base.{
  ℕ, suc, ◌+◌, ◌≡◌, refl, ◌↔◌, ap, ◌⊎◌, inl, inr, String, List, [], ◌∷◌, ◌++◌, All, length, arith,
  text_eq,
}
use dnp3_bridge.Points.Config.{PointConfig, PointDatabaseConfig}
use dnp3_bridge.Points.Names.{
  StaticAnalog, EventAnalog, StaticAnalogOutput, EventAnalogOutput, NameMap, point_class_names,
  static_analog_names, event_analog_names, static_analog_output_names, event_analog_output_names,
}
use dnp3_bridge.Points.Validate.{
  Formatting, Expected, accepted, unexpected, ◌>>◌, entry_prefix, check_from, check_binary_section,
  check_analog_section, validate_point_database,
}
use dnp3_bridge.Points.Validate.Decides.{
  IsValidBinary, IsValidAnalog, check_binary_entry_iff, check_analog_entry_iff,
  check_binary_section_iff, check_analog_section_iff,
}
use dnp3_bridge.Points.Validate.Prefixes.{
  Extends, Names, check_binary_entry-Extends, check_analog_entry-Extends,
}

pub data Section : Type 0 where
  binary_input binary_output_status analog_input analog_output_status : Section

abbrev pub section_name : Section → String
section_name binary_input = "binary_input"
section_name binary_output_status = "binary_output_status"
section_name analog_input = "analog_input"
section_name analog_output_status = "analog_output_status"

module _ {D : Type 0} where
  abbrev pub entries_of : Section → PointDatabaseConfig D → List (PointConfig D)
  entries_of binary_input db = db.binary_input
  entries_of binary_output_status db = db.binary_output_status
  entries_of analog_input db = db.analog_input
  entries_of analog_output_status db = db.analog_output_status

  abbrev pub IsValidIn : Section → PointConfig D → Type 0
  IsValidIn binary_input pc = IsValidBinary pc
  IsValidIn binary_output_status pc = IsValidBinary pc
  IsValidIn analog_input pc = IsValidAnalog StaticAnalog EventAnalog pc
  IsValidIn analog_output_status pc = IsValidAnalog StaticAnalogOutput EventAnalogOutput pc

  -- The sections that are checked before this one are valid.
  abbrev pub IsValidBefore : Section → PointDatabaseConfig D → Type 0
  IsValidBefore binary_input db = Unit {0}
  IsValidBefore binary_output_status db = All IsValidBinary db.binary_input
  IsValidBefore analog_input db =
      All IsValidBinary db.binary_input × All IsValidBinary db.binary_output_status
  IsValidBefore analog_output_status db =
      All IsValidBinary db.binary_input
      × All IsValidBinary db.binary_output_status
      × All (IsValidAnalog StaticAnalog EventAnalog) db.analog_input

>>_unexpected :
    (m k : Expected) (s : String)
    → (m >> k) ≡ unexpected s
    → (m ≡ unexpected s) ⊎ ((m ≡ accepted) × (k ≡ unexpected s))
>>_unexpected accepted k s h = inr (refl, h)
>>_unexpected (unexpected t) k s h = inl h

-- Which of four chained checks refused, the earlier ones having accepted.
first_refusal :
    (a b c d : Expected) (s : String)
    → (a >> (b >> (c >> d))) ≡ unexpected s
    → (a ≡ unexpected s)
      ⊎ ((a ≡ accepted) × (b ≡ unexpected s))
      ⊎ ((a ≡ accepted) × (b ≡ accepted) × (c ≡ unexpected s))
      ⊎ ((a ≡ accepted) × (b ≡ accepted) × (c ≡ accepted) × (d ≡ unexpected s))
first_refusal (unexpected t) b c d s h = inl h
first_refusal accepted (unexpected t) c d s h = inr (inl (refl, h))
first_refusal accepted accepted (unexpected t) d s h = inr (inr (inl (refl, refl, h)))
first_refusal accepted accepted accepted d s h = inr (inr (inr (refl, refl, refl, h)))

shift : (i n : ℕ) → i + suc n ≡ suc i + n
shift i n = omega arith

module _ (l : Formatting) where
  module _ {D : Type 0} where
    -- The first entry that fails, with what stands before it.
    abbrev pub FirstBad :
        (PointConfig D → Type 0) → String → ℕ → List (PointConfig D) → String → Type 0
    FirstBad P section i entries message =
        (pre : List (PointConfig D)) × (pc : PointConfig D) × (post : List (PointConfig D))
        × (entries ≡ pre ++ pc ∷ post)
        × All P pre
        × (¬ P pc)
        × Extends (entry_prefix l section (i + length pre)) message

    module _ (check : PointConfig D → String → Expected) (P : PointConfig D → Type 0)
        (decides : (pc : PointConfig D) (prefix : String) → (check pc prefix ≡ accepted) ↔ P pc)
        (extends : (pc : PointConfig D) (prefix : String) → Names prefix (check pc prefix)) where
      check_from-FirstBad :
          (section : String) (i : ℕ) (entries : List (PointConfig D)) (message : String)
          → check_from l check section i entries ≡ unexpected message
          → FirstBad P section i entries message
      unfolding check_from
      check_from-FirstBad section i [] message h = absurd (cc)
      check_from-FirstBad section i (pc ∷ entries) message h = elim (>>_unexpected _ _ _ h) [
        | inl e ↦ (
          [],
          pc,
          entries,
          refl,
          tt,
          (λ p. cc ((decides pc (entry_prefix l section i)).1 p)),
          rw (add-zero i) (extends pc _ message e),
        )
        | inr (a, e) ↦
            let (pre, bad, post, split, valid, invalid, named) =
              check_from-FirstBad section (suc i) entries message e in
            (
              pc ∷ pre,
              bad,
              post,
              ap (◌∷◌ pc) split,
              ((decides pc _).0 a, valid),
              invalid,
              rw (shift i (length pre)) named,
            )
      ]

    check_binary_section-FirstBad :
        (entries : List (PointConfig D)) (section message : String)
        → check_binary_section l entries section ≡ unexpected message
        → FirstBad IsValidBinary section 0 entries message
    unfolding check_binary_section
    check_binary_section-FirstBad entries section message h =
        check_from-FirstBad _ _ (check_binary_entry_iff l) (check_binary_entry-Extends l) section 0
          entries message h

    check_analog_section-FirstBad :
        (S E : Type 0) ⦃s : NameMap S⦄ ⦃e : NameMap E⦄
        → (entries : List (PointConfig D)) (section message : String)
        → check_analog_section l S E entries section ≡ unexpected message
        → FirstBad (IsValidAnalog S E) section 0 entries message
    unfolding check_analog_section
    check_analog_section-FirstBad S E entries section message h =
        check_from-FirstBad _ _ (check_analog_entry_iff l S E) (check_analog_entry-Extends l S E)
          section 0 entries message h

    -- A refused database has a first bad entry: all sections before its section are valid, all
    -- entries before it in its section are, and it is not. The message begins with the path of that
    -- entry, point_database.<section>[<index>].
    pub validate_point_database-first_error :
        (db : PointDatabaseConfig D) (message : String)
        → validate_point_database l db ≡ unexpected message
        → (s : Section) × IsValidBefore s db
          × FirstBad (IsValidIn s) (section_name s) 0 (entries_of s db) message
    unfolding validate_point_database
    validate_point_database-first_error db message h =
        elim (first_refusal (check_binary_section l db.binary_input "binary_input")
          (check_binary_section l db.binary_output_status "binary_output_status")
          (check_analog_section l StaticAnalog EventAnalog db.analog_input "analog_input")
          (check_analog_section l StaticAnalogOutput EventAnalogOutput db.analog_output_status
            "analog_output_status")
          message h) [
            | inl e ↦ (binary_input, tt, check_binary_section-FirstBad _ _ message e)
            | inr (inl (a, e)) ↦ (
              binary_output_status,
              (check_binary_section_iff l db.binary_input "binary_input").0 a,
              check_binary_section-FirstBad _ _ message e,
            )
            | inr (inr (inl (a, b, e))) ↦ (
              analog_input,
              (
                (check_binary_section_iff l db.binary_input "binary_input").0 a,
                (check_binary_section_iff l db.binary_output_status "binary_output_status").0 b,
              ),
              check_analog_section-FirstBad StaticAnalog EventAnalog _ _ message e,
            )
            | inr (inr (inr (a, b, c, e))) ↦ (
              analog_output_status,
              (
                (check_binary_section_iff l db.binary_input "binary_input").0 a,
                (check_binary_section_iff l db.binary_output_status "binary_output_status").0 b,
                (check_analog_section_iff l StaticAnalog EventAnalog db.analog_input
                      "analog_input").0
                    c,
              ),
              check_analog_section-FirstBad StaticAnalogOutput EventAnalogOutput _ _ message e,
            )
          ]
