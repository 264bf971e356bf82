-- ===== src/Points/Database.antt =====
-- configureDefaultDatabase and configureDatabaseFromConfig of src/dnp3/OutstationManager.cpp.
pub mod Settings
pub mod Fallback
pub mod Defaults
use dnp3_bridge.Base.{
  ℕ, zero, suc, ◌-◌, String, Option, none, some, List, [], ◌∷◌, Dict, upsert, u16, if◌then◌else◌,
  ◌==◌, text_eq, or_else,
}
use dnp3_bridge.Points.Config.{PointConfig, PointDatabaseConfig}
use dnp3_bridge.Points.Names.{
  PointClass, class0, class1, class2, StaticAnalog, group30_var1, group30_var2, EventAnalog,
  group32_var1, group32_var2, StaticAnalogOutput, group40_var1, group40_var2, EventAnalogOutput,
  group42_var1, group42_var2, NameMap, point_class_names, static_analog_names, event_analog_names,
  static_analog_output_names, event_analog_output_names, to_enum,
}

-- The point configurations of opendnp3, as far as the program sets them.
pub record BinaryPoint : Type 0 where
  pub clazz : PointClass

pub record AnalogPoint (D S E : Type 0) : Type 0 where
  pub clazz : PointClass
  pub deadband : D
  pub svariation : S
  pub evariation : E

-- What opendnp3 constructs for a point that operator[] adds.
pub record PointDefaults (D : Type 0) : Type 0 where
  pub binary_input : BinaryPoint
  pub binary_output_status : BinaryPoint
  pub analog_input : AnalogPoint D StaticAnalog EventAnalog
  pub analog_output_status : AnalogPoint D StaticAnalogOutput EventAnalogOutput

pub record DatabaseConfig (D : Type 0) : Type 0 where
  pub binary_input : Dict ℕ BinaryPoint
  pub binary_output_status : Dict ℕ BinaryPoint
  pub analog_input : Dict ℕ (AnalogPoint D StaticAnalog EventAnalog)
  pub analog_output_status : Dict ℕ (AnalogPoint D StaticAnalogOutput EventAnalogOutput)

abbrev pub no_database : {D : Type 0} → DatabaseConfig D
no_database = record {
  binary_input = [];
  binary_output_status = [];
  analog_input = [];
  analog_output_status = [];
}

-- `rounds` rounds of a loop over the indices from i on, each setting the point at its index.
unfoldable pub set_points {ℓ} : {P : Type ℓ} → P → (P → P) → ℕ → ℕ → Dict ℕ P → Dict ℕ P
set_points start update zero i m = m
set_points start update (suc rounds) i m =
    set_points start update rounds (suc i) (upsert (u16 i) start update m)

-- The loops over the entries of a section; the rounds of an entry are those of start ≤ i ≤ end.
unfoldable pub configure_section {ℓ} :
    {D : Type 0} {P : Type ℓ}
    → P
    → (PointConfig D → P → P)
    → List (PointConfig D)
    → Dict ℕ P
    → Dict ℕ P
unfolding set_points
configure_section start apply [] m = m
configure_section start apply (pc ∷ entries) m =
    configure_section start apply entries
      (set_points start (apply pc) (suc pc.end - pc.start) pc.start m)

-- if (!s.empty()) x = toEnum(s, fallback);
abbrev pub named_or : {E : Type 0} ⦃t : NameMap E⦄ → String → E → E → E
named_or s fallback x = if s == "" then x else to_enum s fallback

unfoldable pub apply_binary : {D : Type 0} → PointClass → PointConfig D → BinaryPoint → BinaryPoint
apply_binary fallback pc pt = record pt { clazz = named_or pc.event_class fallback pt.clazz }

module _ {D S E : Type 0} ⦃s : NameMap S⦄ ⦃e : NameMap E⦄ where
  unfoldable pub apply_analog :
      PointClass → S → E → PointConfig D → AnalogPoint D S E → AnalogPoint D S E
  apply_analog class_fallback s_fallback e_fallback pc pt = record {
    clazz = named_or pc.event_class class_fallback pt.clazz;
    deadband = or_else pc.deadband pt.deadband;
    svariation = named_or pc.static_variation s_fallback pt.svariation;
    evariation = named_or pc.event_variation e_fallback pt.evariation;
  }

module _ {D : Type 0} (start : PointDefaults D) where
  unfoldable pub configure_default_database : DatabaseConfig D → DatabaseConfig D
  unfolding set_points
  configure_default_database db = record {
    binary_input =
        set_points start.binary_input (λ pt. record pt { clazz = class1 }) 11 0 db.binary_input;
    binary_output_status =
        set_points start.binary_output_status (λ pt. record pt { clazz = class0 }) 20 0
          db.binary_output_status;
    analog_input =
        set_points start.analog_input
          (λ pt. record pt { clazz = class2; svariation = group30_var2; evariation = group32_var2 })
          21 0 db.analog_input;
    analog_output_status =
        set_points start.analog_output_status
          (λ pt. record pt { clazz = class2; svariation = group40_var2; evariation = group42_var2 })
          5 0 db.analog_output_status;
  }

  unfoldable pub configure_database_from_config :
      PointDatabaseConfig D → DatabaseConfig D → DatabaseConfig D
  unfolding configure_section
  configure_database_from_config pt_cfg db = record {
    binary_input =
        configure_section start.binary_input (apply_binary class1) pt_cfg.binary_input
          db.binary_input;
    binary_output_status =
        configure_section start.binary_output_status (apply_binary class1)
          pt_cfg.binary_output_status db.binary_output_status;
    analog_input =
        configure_section start.analog_input (apply_analog class1 group30_var1 group32_var1)
          pt_cfg.analog_input db.analog_input;
    analog_output_status =
        configure_section start.analog_output_status (apply_analog class1 group40_var1 group42_var1)
          pt_cfg.analog_output_status db.analog_output_status;
  }
