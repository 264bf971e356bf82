-- ===== src/Simulator/Measurements/Latest.antt =====
-- The value that a point of the simulator has.
use dnp3_bridge.Base.{
  ℕ, ◌≡◌, refl, ◌∙◌, true, Option, none, some, List, [], ◌∷◌, Dict, find, find-assign,
  if◌then◌else◌, ◌==◌, nat_eq, arith,
}
use dnp3_bridge.Simulator.Model.{PointValue, DataModel, Texts, add_log}
use dnp3_bridge.Simulator.Measurements.{
  Indexed, Values, binary_values, binary_output_values, analog_values, analog_output_values,
  other_values, of_bool, store_values, process,
}

-- The last measurement of the point in the collection.
abbrev pub last_at : {T : Type 0} → ℕ → List (Indexed T) → Option (Indexed T) → Option (Indexed T)
last_at i [] o = o
last_at i (pair ∷ values) o = last_at i values (if pair.index == i then some pair else o)

abbrev pub kept :
    {T D : Type 0}
    → (T → D)
    → ℕ
    → Option (Indexed T)
    → Option (PointValue D)
    → Option (PointValue D)
kept of now none old = old
kept of now (some pair) old =
    some (record { value = of pair.value; flags = pair.flags; received = true; last_update = now })

-- A point afterwards: the last measurement of it, with its flags and the time, or what it was.
abbrev pub after :
    {T D : Type 0}
    → (T → D)
    → ℕ
    → List (Indexed T)
    → ℕ
    → Dict ℕ (PointValue D)
    → Option (PointValue D)
after of now values i points = kept of now (last_at i values none) (find i points)

module _ {T D : Type 0} (of : T → D) (now i : ℕ) where
  last_at-kept :
      (values : List (Indexed T)) (o : Option (Indexed T)) (old : Option (PointValue D))
      → kept of now (last_at i values o) old
        ≡ kept of now (last_at i values none) (kept of now o old)
  last_at-kept [] none old = refl
  last_at-kept [] (some pair) old = refl
  last_at-kept (pair ∷ values) o old = ground (
    arith,
    last_at-kept values o old,
    last_at-kept values (some pair) old,
    last_at-kept values (some pair) (kept of now o old),
  )

  find-store_values :
      (values : List (Indexed T)) (points : Dict ℕ (PointValue D))
      → find i (store_values of now values points) ≡ after of now values i points
  unfolding store_values
  find-store_values [] points = refl
  find-store_values (pair ∷ values) points =
      find-store_values values _
      ∙ ground (
        arith,
        find-assign pair.index i
            (record {
              value = of pair.value;
              flags = pair.flags;
              received = true;
              last_update = now;
            })
            points,
        last_at-kept values (some pair) (find i points),
      )

module _ {D : Type 0} (t : Texts D) (zero one : D) where
  -- The four maps, at a point, after the values have been processed.
  abbrev Shows : ℕ → DataModel D → (bi ai bo ao : Option (PointValue D)) → Type 0
  Shows i m' bi ai bo ao =
      (find i m'.binary_inputs ≡ bi)
      × (find i m'.analog_inputs ≡ ai)
      × (find i m'.binary_outputs ≡ bo)
      × (find i m'.analog_outputs ≡ ao)

  abbrev pub IsUpdated : Values D → ℕ → DataModel D → DataModel D → ℕ → Type 0
  IsUpdated (binary_values values) now m m' i =
      Shows i m' (after (of_bool zero one) now values i m.binary_inputs) (find i m.analog_inputs)
        (find i m.binary_outputs) (find i m.analog_outputs)
  IsUpdated (analog_values values) now m m' i =
      Shows i m' (find i m.binary_inputs) (after (λ v. v) now values i m.analog_inputs)
        (find i m.binary_outputs) (find i m.analog_outputs)
  IsUpdated (binary_output_values values) now m m' i =
      Shows i m' (find i m.binary_inputs) (find i m.analog_inputs)
        (after (of_bool zero one) now values i m.binary_outputs) (find i m.analog_outputs)
  IsUpdated (analog_output_values values) now m m' i =
      Shows i m' (find i m.binary_inputs) (find i m.analog_inputs) (find i m.binary_outputs)
        (after (λ v. v) now values i m.analog_outputs)
  IsUpdated other_values now m m' i =
      Shows i m' (find i m.binary_inputs) (find i m.analog_inputs) (find i m.binary_outputs)
        (find i m.analog_outputs)

  -- After Process every point of the collection's type has the last measurement of it in the
  -- collection, with its flags and the time, or what it had before if there is none; the points of
  -- the other types, and all points for a type that the simulator ignores, have what they had.
  pub process-IsUpdated :
      (values : Values D) (now : ℕ) (m : DataModel D) (i : ℕ)
      → IsUpdated values now m (process t zero one values now m).0 i
  unfolding process add_log
  process-IsUpdated (binary_values values) now m i =
      (find-store_values (of_bool zero one) now i values m.binary_inputs, refl, refl, refl)
  process-IsUpdated (analog_values values) now m i =
      (refl, find-store_values (λ v. v) now i values m.analog_inputs, refl, refl)
  process-IsUpdated (binary_output_values values) now m i =
      (refl, refl, find-store_values (of_bool zero one) now i values m.binary_outputs, refl)
  process-IsUpdated (analog_output_values values) now m i =
      (refl, refl, refl, find-store_values (λ v. v) now i values m.analog_outputs)
  process-IsUpdated other_values now m i = (refl, refl, refl, refl)
