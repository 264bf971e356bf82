-- ===== src/Points/Validate/Prefixes.antt =====
-- The prefix of validation's messages, src/dnp3/OutstationManager.cpp.
use Prim.Native.String
use text.Mathlib.TextLemmas.{append_assoc}
use dnp3_bridge.Base.{◌≡◌, ◌∙◌, Bool, String, [], ◌∷◌, arith, if◌then◌else◌, text_eq}
use dnp3_bridge.Points.Config.{PointConfig}
use dnp3_bridge.Points.Names.{
  PointClass, NameMap, point_class_names, static_analog_names, event_analog_names,
  static_analog_output_names, event_analog_output_names,
}
use dnp3_bridge.Points.Validate.{
  Formatting, Expected, accepted, unexpected, ◌>>◌, concat, unknown_value, check_enum, check_range,
  check_binary_entry, check_analog_entry,
}

-- The message goes on from this prefix.
abbrev pub Extends : String → String → Type 0
Extends prefix message = (rest : String) × (message ≡ String.◌++◌ prefix rest)

-- A check whose refusals carry the prefix.
abbrev pub Names : String → Expected → Type 0
Names prefix m = (message : String) → m ≡ unexpected message → Extends prefix message

>>-Names :
    (prefix : String) (m k : Expected) → Names prefix m → Names prefix k → Names prefix (m >> k)
>>-Names prefix accepted k hm hk message h = hk message h
>>-Names prefix (unexpected s) k hm hk message h = hm message h

refusal_else :
    (b : Bool) (s t : String) → (if b then accepted else unexpected s) ≡ unexpected t → t ≡ s
refusal_else b s t h = ground arith

refusal_then :
    (b : Bool) (s t : String) → (if b then unexpected s else accepted) ≡ unexpected t → t ≡ s
refusal_then b s t h = ground arith

module _ (l : Formatting) where
  check_enum-Extends :
      (E : Type 0) ⦃t : NameMap E⦄ (value prefix suffix : String)
      → Names prefix (check_enum l E value (concat (prefix ∷ suffix ∷ [])))
  unfolding check_enum unknown_value
  check_enum-Extends E value prefix suffix message h =
      (_, refusal_else _ _ _ h ∙ append_assoc prefix _ _)

  module _ {D : Type 0} where
    check_range-Extends :
        (pc : PointConfig D) (prefix : String) → Names prefix (check_range l pc prefix)
    unfolding check_range
    check_range-Extends pc prefix message h = (_, refusal_then _ _ _ h)

    pub check_binary_entry-Extends :
        (pc : PointConfig D) (prefix : String) → Names prefix (check_binary_entry l pc prefix)
    unfolding check_binary_entry
    check_binary_entry-Extends pc prefix =
        >>-Names prefix _ _ (check_range-Extends pc prefix)
          (check_enum-Extends PointClass pc.event_class prefix ".class")

    pub check_analog_entry-Extends :
        (S E : Type 0) ⦃s : NameMap S⦄ ⦃e : NameMap E⦄ (pc : PointConfig D) (prefix : String)
        → Names prefix (check_analog_entry l S E pc prefix)
    unfolding check_analog_entry
    check_analog_entry-Extends S E pc prefix = >>-Names prefix _ _ (check_range-Extends pc prefix) (
        >>-Names prefix _ _ (check_enum-Extends PointClass pc.event_class prefix ".class") (
          >>-Names prefix _ _ (check_enum-Extends S pc.static_variation prefix ".static_variation")
            (check_enum-Extends E pc.event_variation prefix ".event_variation")))
