-- ===== src/Points/Names.antt =====
-- The tables nameMap<E>() of src/dnp3/OutstationManager.cpp, toEnum and buildClassMask. An
-- enumeration of opendnp3 has here the values that the tables name; a table's order is that of its
-- initialiser, and nothing below depends on it.
pub mod Laws
use dnp3_bridge.Base.{
  String, Bool, true, false, List, [], ◌∷◌, Dict, find, or_else, if◌then◌else◌, ◌==◌, text_eq,
}

pub data PointClass : Type 0 where
  class0 class1 class2 class3 : PointClass

pub data StaticAnalog : Type 0 where
  group30_var1 group30_var2 group30_var3 group30_var4 group30_var5 group30_var6 : StaticAnalog

pub data EventAnalog : Type 0 where
  group32_var1 group32_var2 group32_var3 group32_var4 : EventAnalog
  group32_var5 group32_var6 group32_var7 group32_var8 : EventAnalog

pub data StaticAnalogOutput : Type 0 where
  group40_var1 group40_var2 group40_var3 group40_var4 : StaticAnalogOutput

pub data EventAnalogOutput : Type 0 where
  group42_var1 group42_var2 group42_var3 group42_var4 : EventAnalogOutput
  group42_var5 group42_var6 group42_var7 group42_var8 : EventAnalogOutput

-- The specialisations of the template nameMap.
pub record NameMap (E : Type 0) : Type 0 where
  pub names : Dict String E

instance abbrev pub point_class_names : NameMap PointClass
point_class_names = record {
  names = ("class0", class0) ∷ ("class1", class1) ∷ ("class2", class2) ∷ ("class3", class3) ∷ [];
}

instance abbrev pub static_analog_names : NameMap StaticAnalog
static_analog_names = record {
  names =
      ("Group30Var1", group30_var1)
      ∷ ("Group30Var2", group30_var2)
      ∷ ("Group30Var3", group30_var3)
      ∷ ("Group30Var4", group30_var4)
      ∷ ("Group30Var5", group30_var5)
      ∷ ("Group30Var6", group30_var6)
      ∷ [];
}

instance abbrev pub event_analog_names : NameMap EventAnalog
event_analog_names = record {
  names =
      ("Group32Var1", group32_var1)
      ∷ ("Group32Var2", group32_var2)
      ∷ ("Group32Var3", group32_var3)
      ∷ ("Group32Var4", group32_var4)
      ∷ ("Group32Var5", group32_var5)
      ∷ ("Group32Var6", group32_var6)
      ∷ ("Group32Var7", group32_var7)
      ∷ ("Group32Var8", group32_var8)
      ∷ [];
}

instance abbrev pub static_analog_output_names : NameMap StaticAnalogOutput
static_analog_output_names = record {
  names =
      ("Group40Var1", group40_var1)
      ∷ ("Group40Var2", group40_var2)
      ∷ ("Group40Var3", group40_var3)
      ∷ ("Group40Var4", group40_var4)
      ∷ [];
}

instance abbrev pub event_analog_output_names : NameMap EventAnalogOutput
event_analog_output_names = record {
  names =
      ("Group42Var1", group42_var1)
      ∷ ("Group42Var2", group42_var2)
      ∷ ("Group42Var3", group42_var3)
      ∷ ("Group42Var4", group42_var4)
      ∷ ("Group42Var5", group42_var5)
      ∷ ("Group42Var6", group42_var6)
      ∷ ("Group42Var7", group42_var7)
      ∷ ("Group42Var8", group42_var8)
      ∷ [];
}

module _ {E : Type 0} ⦃t : NameMap E⦄ where
  unfoldable pub to_enum : String → E → E
  to_enum s fallback = or_else (find s t.names) fallback

-- opendnp3::ClassField, as its constructor is given it.
pub record ClassField : Type 0 where
  pub c0 : Bool
  pub c1 : Bool
  pub c2 : Bool
  pub c3 : Bool

-- The body of the loop of buildClassMask.
abbrev pub set_class : String → ClassField → ClassField
set_class s m =
    if s == "class0"
    then record m { c0 = true }
    else if s == "class1"
    then record m { c1 = true }
    else if s == "class2"
    then record m { c2 = true }
    else if s == "class3"
    then record m { c3 = true }
    else m

class_mask_from : ClassField → List String → ClassField
class_mask_from m [] = m
class_mask_from m (s ∷ mask) = class_mask_from (set_class s m) mask

unfoldable pub build_class_mask : List String → ClassField
unfolding class_mask_from
build_class_mask mask =
    class_mask_from (record { c0 = false; c1 = false; c2 = false; c3 = false }) mask
