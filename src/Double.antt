-- ===== src/Double.antt =====
-- The C++ type double and the operations of <cmath> that src/dnp3/OutstationManager.cpp uses on it.
-- There are no floats here: the type and its operations are a parameter of the model.
use dnp3_bridge.Base.{◌≡◌, Bool, true}

pub record Double : Type 1 where
  pub D : Type 0
  pub zero : D
  pub is_finite : D → Bool
  pub minus : D → D → D
  pub fabs : D → D
  pub greater : D → D → Bool

-- IEEE 754: a finite number less itself is a zero, whose magnitude compares as 0.0 does.
abbrev pub SelfDifference : Double → Type 0
SelfDifference f =
    (v d : f.D) → f.is_finite v ≡ true → f.greater (f.fabs (f.minus v v)) d ≡ f.greater f.zero d
