-- ===== src/Points/Database/Defaults.antt =====
-- The built-in database.
use dnp3_bridge.Base.{ℕ, ◌≡◌, ◌∙◌, [], ltb, some, none, find, if◌then◌else◌, nat_eq, arith}
use dnp3_bridge.Points.Names.{
  class0, class1, class2, group30_var2, group32_var2, group40_var2, group42_var2,
}
use dnp3_bridge.Points.Database.{PointDefaults, no_database, configure_default_database}
use dnp3_bridge.Points.Database.Settings.{find-set_points}

module _ {D : Type 0} (start : PointDefaults D) where
  -- The built-in database has the binary inputs 0 to 10 in class 1, the binary outputs 0 to 19 in
  -- class 0, the analog inputs 0 to 20 and the analog outputs 0 to 4 in class 2 with 16-bit
  -- variations, all else as opendnp3 constructs it, and no other point.
  pub configure_default_database-points :
      (i : ℕ)
      → let db = configure_default_database start no_database in
        (find i db.binary_input
          ≡ (if ltb i 11 then some (record start.binary_input { clazz = class1 }) else none))
        × (find i db.binary_output_status ≡ (
            if ltb i 20 then some (record start.binary_output_status { clazz = class0 }) else none))
        × (find i db.analog_input ≡ (
            if ltb i 21
            then some (record start.analog_input {
              clazz = class2;
              svariation = group30_var2;
              evariation = group32_var2;
            })
            else none))
        × (find i db.analog_output_status ≡ (
            if ltb i 5
            then some (record start.analog_output_status {
              clazz = class2;
              svariation = group40_var2;
              evariation = group42_var2;
            })
            else none))
  unfolding configure_default_database find
  configure_default_database-points i = (
    find-set_points start.binary_input _ 11 0 i [] tt (omega arith) ∙ ground arith,
    find-set_points start.binary_output_status _ 20 0 i [] tt (omega arith) ∙ ground arith,
    find-set_points start.analog_input _ 21 0 i [] tt (omega arith) ∙ ground arith,
    find-set_points start.analog_output_status _ 5 0 i [] tt (omega arith) ∙ ground arith,
  )
