-- ===== src/Points/Database/Fallback.antt =====
-- toEnum's fallbacks and validation, src/dnp3/OutstationManager.cpp.
use dnp3_bridge.Base.{
  ℕ, ◌≡◌, refl, ◌≢◌, inl, inr, String, some, List, [], ◌∷◌, All, arith, Dict, find, text_eq,
  string_eq_iff, fun_ext,
}
use dnp3_bridge.Points.Config.{PointConfig, PointDatabaseConfig}
use dnp3_bridge.Points.Names.{
  PointClass, StaticAnalog, EventAnalog, StaticAnalogOutput, EventAnalogOutput, NameMap,
  point_class_names, static_analog_names, event_analog_names, static_analog_output_names,
  event_analog_output_names, to_enum, class1, group30_var1, group32_var1, group40_var1,
  group42_var1,
}
use dnp3_bridge.Points.Validate.{Formatting, accepted, validate_point_database}
use dnp3_bridge.Points.Validate.Decides.{
  IsKnown, IsValidBinary, IsValidAnalog, validate_point_database_iff,
}
use dnp3_bridge.Points.Database.{
  BinaryPoint, AnalogPoint, PointDefaults, DatabaseConfig, configure_section, named_or,
  apply_binary, apply_analog, configure_database_from_config,
}

module _ {E : Type 0} ⦃t : NameMap E⦄ where
  -- A known name that is not left out is found in the table, whatever the fallback.
  pub to_enum-known :
      (s : String) (fallback : E)
      → IsKnown E s
      → s ≢ ""
      → find s t.names ≡ some (to_enum s fallback)
  unfolding to_enum
  to_enum-known s fallback (inl e) h = absurd (h e)
  to_enum-known s fallback (inr (v, e)) h = ground arith

  named_or-known : (s : String) (a b x : E) → IsKnown E s → named_or s a x ≡ named_or s b x
  unfolding to_enum
  named_or-known s a b x (inl e) = ground (arith, string_eq_iff s "")
  named_or-known s a b x (inr (v, e)) = ground arith

module _ {D : Type 0} where
  apply_binary-known :
      (a b : PointClass) (pc : PointConfig D) (pt : BinaryPoint)
      → IsValidBinary pc
      → apply_binary a pc pt ≡ apply_binary b pc pt
  unfolding apply_binary
  apply_binary-known a b pc pt h = rw (named_or-known pc.event_class a b pt.clazz h.1)

  apply_analog-known :
      (S E : Type 0) ⦃s : NameMap S⦄ ⦃e : NameMap E⦄
      → (a a' : PointClass) (b b' : S) (c c' : E) (pc : PointConfig D) (pt : AnalogPoint D S E)
      → IsValidAnalog S E pc
      → apply_analog a b c pc pt ≡ apply_analog a' b' c' pc pt
  unfolding apply_analog
  apply_analog-known S E a a' b b' c c' pc pt h = rw (
    named_or-known pc.event_class a a' pt.clazz h.1,
    named_or-known pc.static_variation b b' pt.svariation h.2,
    named_or-known pc.event_variation c c' pt.evariation h.3,
  )

  -- Entries that two ways of applying treat alike configure alike.
  configure_section-agree {ℓ κ} :
      {P : Type ℓ} (start : P) (V : PointConfig D → Type κ) (f g : PointConfig D → P → P)
      → ((pc : PointConfig D) (pt : P) → V pc → f pc pt ≡ g pc pt)
      → (entries : List (PointConfig D)) (m : Dict ℕ P) → All V entries
      → configure_section start f entries m ≡ configure_section start g entries m
  unfolding configure_section
  configure_section-agree start V f g h [] m a = refl
  configure_section-agree start V f g h (pc ∷ entries) m (v, a) =
      rw (fun_ext {f = f pc} {g = g pc} (λ pt. h pc pt v))
        (configure_section-agree start V f g h entries _ a)

module _ {D : Type 0} (l : Formatting) (start : PointDefaults D) where
  -- The configuration of a database that validation has accepted is the same whatever value toEnum
  -- falls back to, in each of its uses: no unknown name changes what the SCADA sees.
  pub configure_database-fallback :
      (pt_cfg : PointDatabaseConfig D) (db : DatabaseConfig D) (a b c d : PointClass)
      (v : StaticAnalog) (w : EventAnalog) (x : StaticAnalogOutput) (y : EventAnalogOutput)
      → validate_point_database l pt_cfg ≡ accepted
      → configure_database_from_config start pt_cfg db ≡ record {
        binary_input =
            configure_section start.binary_input
              (apply_binary a)
              pt_cfg.binary_input
              db.binary_input;
        binary_output_status =
            configure_section start.binary_output_status
              (apply_binary b)
              pt_cfg.binary_output_status
              db.binary_output_status;
        analog_input =
            configure_section start.analog_input
              (apply_analog c v w)
              pt_cfg.analog_input
              db.analog_input;
        analog_output_status =
            configure_section start.analog_output_status
              (apply_analog d x y)
              pt_cfg.analog_output_status
              db.analog_output_status;
      }
  unfolding configure_database_from_config
  configure_database-fallback pt_cfg db a b c d v w x y h =
      let (bi, bo, ai, ao) = (validate_point_database_iff l pt_cfg).0 h in
      rw (
        configure_section-agree start.binary_input IsValidBinary (apply_binary class1)
            (apply_binary a) (apply_binary-known class1 a) pt_cfg.binary_input db.binary_input bi,
        configure_section-agree start.binary_output_status IsValidBinary (apply_binary class1)
            (apply_binary b) (apply_binary-known class1 b) pt_cfg.binary_output_status
            db.binary_output_status bo,
        configure_section-agree start.analog_input (IsValidAnalog StaticAnalog EventAnalog)
            (apply_analog class1 group30_var1 group32_var1) (apply_analog c v w)
            (apply_analog-known StaticAnalog EventAnalog class1 c group30_var1 v group32_var1 w)
            pt_cfg.analog_input db.analog_input ai,
        configure_section-agree start.analog_output_status
            (IsValidAnalog StaticAnalogOutput EventAnalogOutput)
            (apply_analog class1 group40_var1 group42_var1) (apply_analog d x y)
            (apply_analog-known StaticAnalogOutput EventAnalogOutput class1 d group40_var1 x
              group42_var1 y)
            pt_cfg.analog_output_status db.analog_output_status ao,
      )
