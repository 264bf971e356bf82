-- ===== src/Tests/Sample.antt =====
-- The parameters of the model instantiated: doubles that are natural numbers or not a number, with
-- their distance for the difference.
use dnp3_bridge.Base.{
  ℕ, ◌+◌, ◌-◌, ◌≡◌, ap, Bool, true, false, String, Option, none, some, [], ◌∷◌, ltb, arith,
}
use dnp3_bridge.Double.{Double, SelfDifference}
use dnp3_bridge.DataModel.{PointUpdate, Quality, analog, binary}
use dnp3_bridge.Outstation.Updates.{OutstationManager}
use dnp3_bridge.Points.Names.{class1, group30_var1, group32_var1, group40_var1, group42_var1}
use dnp3_bridge.Points.Database.{PointDefaults}
use dnp3_bridge.Points.Validate.{Formatting}
use dnp3_bridge.Points.Config.{PointConfig}

abbrev pub is_number : Option ℕ → Bool
is_number none = false
is_number (some n) = true

abbrev pub distance : Option ℕ → Option ℕ → Option ℕ
distance (some a) (some b) = some (a - b + (b - a))
distance none _ = none
distance (some a) none = none

abbrev pub exceeds : Option ℕ → Option ℕ → Bool
exceeds (some a) (some b) = ltb b a
exceeds none _ = false
exceeds (some a) none = false

abbrev pub whole : Double
whole = record {
  D = Option ℕ;
  zero = some 0;
  is_finite = is_number;
  minus = distance;
  fabs = λ v. v;
  greater = exceeds;
}

self_distance : (n : ℕ) → n - n + (n - n) ≡ 0
self_distance n = omega arith

pub whole-SelfDifference : SelfDifference whole
whole-SelfDifference none d h = cc
whole-SelfDifference (some n) d h = ap (λ m. exceeds (some m) d) (self_distance n)

-- An outstation that is up, with a deadband of 5 at point 2.
abbrev pub up : OutstationManager (Option ℕ)
up = record {
  manager = true;
  channel = true;
  outstation = true;
  connected = false;
  analog_deadband = (2, some 5) ∷ [];
  analog_state = [];
  binary_state = [];
}

abbrev pub send : ℕ → ℕ → Quality → PointUpdate (Option ℕ)
send index value quality = analog (record { index = index; value = some value; quality = quality })

abbrev pub switch : ℕ → Bool → Quality → PointUpdate (Option ℕ)
switch index value quality = binary (record { index = index; value = value; quality = quality })

abbrev pub defaults : PointDefaults (Option ℕ)
defaults = record {
  binary_input = record { clazz = class1 };
  binary_output_status = record { clazz = class1 };
  analog_input = record {
    clazz = class1;
    deadband = some 0;
    svariation = group30_var1;
    evariation = group32_var1;
  };
  analog_output_status = record {
    clazz = class1;
    deadband = some 0;
    svariation = group40_var1;
    evariation = group42_var1;
  };
}

abbrev pub plain : Formatting
plain = record { decimal = λ n. "7"; join = λ names sep. ""; sort = λ names. names }

abbrev pub entry : ℕ → ℕ → String → Option (Option ℕ) → String → PointConfig (Option ℕ)
entry start end class deadband static = record {
  start = start;
  end = end;
  event_class = class;
  deadband = deadband;
  static_variation = static;
  event_variation = "";
}
