-- ===== src/Simulator/Names/Default.antt =====
-- The simulator's names and the built-in database of src/dnp3/OutstationManager.cpp.
use dnp3_bridge.Base.{
  ℕ, zero, suc, ◌≡◌, refl, sym, ◌∙◌, ap, Bool, true, false, String, List, [], ◌∷◌, length, is_some,
  find, nat_eq, ltb, if◌then◌else◌, arith, not, ◌&&◌, Option, none, some, text_eq, ◌==◌,
}
use dnp3_bridge.Points.Database.{PointDefaults, no_database, configure_default_database}
use dnp3_bridge.Points.Database.Defaults.{configure_default_database-points}
use dnp3_bridge.Simulator.Names.{
  binary_input_names, binary_output_names, analog_input_names, analog_output_names, point_name,
}

-- The table has a name for the index, which is not the name of points without one.
abbrev pub is_named : List String → ℕ → Bool
is_named table i = not (point_name table i == "unknown")

abbrev is_proper : List String → Bool
is_proper [] = true
is_proper (name ∷ table) = not (name == "unknown") && is_proper table

named-short :
    (table : List String) (i : ℕ) → is_proper table ≡ true → is_named table i ≡ ltb i (length table)
unfolding point_name
named-short [] i h = ground arith
named-short (name ∷ table) zero h = ground arith
named-short (name ∷ table) (suc i) h = named-short table i (ground arith) ∙ ground arith

present :
    {A : Type 0} (o : Option A) (b : Bool) (a : A)
    → o ≡ (if b then some a else none)
    → is_some o ≡ b
present o true a h = ap is_some h
present o false a h = ap is_some h

module _ {D : Type 0} (start : PointDefaults D) where
  -- Of each of the four types the built-in database has exactly the points that the simulator has a
  -- name for.
  pub is_named-default :
      (i : ℕ)
      → let db = configure_default_database start no_database in
        (is_some (find i db.binary_input) ≡ is_named binary_input_names i)
        × (is_some (find i db.binary_output_status) ≡ is_named binary_output_names i)
        × (is_some (find i db.analog_input) ≡ is_named analog_input_names i)
        × (is_some (find i db.analog_output_status) ≡ is_named analog_output_names i)
  is_named-default i =
      let (bi, bo, ai, ao) = configure_default_database-points start i in
      (
        present _ _ _ bi ∙ sym (named-short binary_input_names i refl),
        present _ _ _ bo ∙ sym (named-short binary_output_names i refl),
        present _ _ _ ai ∙ sym (named-short analog_input_names i refl),
        present _ _ _ ao ∙ sym (named-short analog_output_names i refl),
      )
