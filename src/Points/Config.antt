-- ===== src/Points/Config.antt =====
-- PointConfig and PointDatabaseConfig of src/config/AppConfig.hpp. The type D stands for double.
use dnp3_bridge.Base.{ℕ, String, Bool, true, false, ◌&&◌, Option, List, [], ◌∷◌}

pub record PointConfig (D : Type 0) : Type 0 where
  pub start : ℕ  -- uint16
  pub end : ℕ  -- uint16, inclusive
  pub event_class : String
  pub deadband : Option D
  pub static_variation : String
  pub event_variation : String

pub record PointDatabaseConfig (D : Type 0) : Type 0 where
  pub binary_input : List (PointConfig D)
  pub binary_output_status : List (PointConfig D)
  pub analog_input : List (PointConfig D)
  pub analog_output_status : List (PointConfig D)

abbrev pub is_empty {ℓ} : {A : Type ℓ} → List A → Bool
is_empty [] = true
is_empty (x ∷ xs) = false

-- PointDatabaseConfig::empty
unfoldable pub no_points : {D : Type 0} → PointDatabaseConfig D → Bool
no_points db =
    is_empty db.binary_input
    && is_empty db.binary_output_status
    && is_empty db.analog_input
    && is_empty db.analog_output_status
