-- ===== src/Simulator/Tables/Shown.antt =====
-- From an update that the bridge delivers to the row that the simulator shows.
use dnp3_bridge.Base.{
  ℕ, String, ◌≡◌, refl, sym, ap, ◌∙◌, Bool, true, false, Option, none, some, List, [], ◌∷◌, map,
  find, nat_eq, arith, if◌then◌else◌, ◌==◌,
}
use mathlib.Core.Option
use dnp3_bridge.Double.{Double}
use dnp3_bridge.DataModel.{PointUpdate, BinaryUpdate, analog, binary}
use dnp3_bridge.Outstation.Flags.{AnalogQuality, to_flag_bits}
use dnp3_bridge.Outstation.Updates.{OutstationManager, Applied, analog_write, binary_write, drain}
use dnp3_bridge.Outstation.Updates.Delivery.{content, expected_write, drain-content}
use dnp3_bridge.Simulator.Model.{DataModel, Texts}
use dnp3_bridge.Simulator.Measurements.{Indexed, binary_values, of_bool, process}
use dnp3_bridge.Simulator.Measurements.Latest.{last_at, kept, process-IsUpdated}
use dnp3_bridge.Simulator.Tables.{build_row, binary_cell}

-- The flags of opendnp3's Binary for a value and the Flags that it is made with: it keeps the value
-- in them.
abbrev pub StateFlags : Type 0
StateFlags = Bool → ℕ → ℕ

-- The binary measurements among what Apply received, as the master receives them.
abbrev pub sent_binaries : {D : Type 0} → StateFlags → List (Applied D) → List (Indexed Bool)
sent_binaries b [] = []
sent_binaries b (analog_write w ∷ ws) = sent_binaries b ws
sent_binaries b (binary_write w ∷ ws) =
    record { index = w.index; value = w.value; flags = b w.value w.flags } ∷ sent_binaries b ws

-- The last binary update of the point in a batch.
abbrev pub last_binary :
    {D : Type 0} → ℕ → List (PointUpdate D) → Option BinaryUpdate → Option BinaryUpdate
last_binary i [] o = o
last_binary i (analog u ∷ us) o = last_binary i us o
last_binary i (binary u ∷ us) o = last_binary i us (if u.index == i then some u else o)

abbrev as_sent : StateFlags → AnalogQuality → BinaryUpdate → Indexed Bool
as_sent b q u = record {
  index = u.index;
  value = u.value;
  flags = b u.value (to_flag_bits q u.quality);
}

module _ {D : Type 0} (b : StateFlags) where
  sent_binaries-content :
      (ws : List (Applied D)) → sent_binaries b (map content ws) ≡ sent_binaries b ws
  sent_binaries-content [] = refl
  sent_binaries-content (analog_write w ∷ ws) = sent_binaries-content ws
  sent_binaries-content (binary_write w ∷ ws) = rw (sent_binaries-content ws) refl

  last_at-sent :
      (q : AnalogQuality) (i : ℕ) (us : List (PointUpdate D)) (o : Option BinaryUpdate)
      → last_at i (sent_binaries b (map (expected_write q) us)) (Option.map (as_sent b q) o)
        ≡ Option.map (as_sent b q) (last_binary i us o)
  last_at-sent q i [] o = refl
  last_at-sent q i (analog u ∷ us) o = last_at-sent q i us o
  last_at-sent q i (binary u ∷ us) o =
      ground (arith, last_at-sent q i us o, last_at-sent q i us (some u))

module _ (f : Double) (q : AnalogQuality) (b : StateFlags) (half one : f.D) (t : Texts f.D)
    (on_one : f.greater one half ≡ true) (off_zero : f.greater f.zero half ≡ false) where
  open f use {D}

  -- As long as 1.0 > 0.5 and not 0.0 > 0.5: while the outstation is up, if the master receives the
  -- binary measurements that a batch of updates makes the outstation write, in their order, and the
  -- batch has an update of a point, then the point's row shows 1 or 0 by the value of the last one,
  -- with the flags that opendnp3's Binary makes of its value and
  -- the flags of its quality.
  pub build_row-drain :
      (us : List (PointUpdate D)) (m : OutstationManager D) (names : List String) (i : ℕ)
      (u : BinaryUpdate) (now later : ℕ) (model : DataModel D)
      → m.outstation ≡ true
      → last_binary i us none ≡ some u
      → let received = binary_values (sent_binaries b (drain f q us m).1) in
        let points = (process t f.zero one received now model).0.binary_inputs in
        let row = build_row f half t (binary_cell f half t later) names points i in
        (row.value.text ≡ (if u.value then " 1 " else " 0 "))
        × (row.flags.text ≡ t.hex (b u.value (to_flag_bits q u.quality)))
  unfolding build_row
  build_row-drain us m names i u now later model on last =
      let batch = sent_binaries b (drain f q us m).1 in
      let sent : last_at i batch none ≡ some (as_sent b q u) =
        ap (λ ws. last_at i ws none)
          (sym (sent_binaries-content b (drain f q us m).1)
            ∙ ap (sent_binaries b) (drain-content f q us m on))
        ∙ (last_at-sent b q i us none ∙ ap (Option.map (as_sent b q)) last) in
      let at = (process-IsUpdated t f.zero one (binary_values batch) now model i).0 in
      let point =
        at ∙ ap (λ o. kept (of_bool f.zero one) now o (find i model.binary_inputs)) sent in
      rw point (by_value u.value)
    where
      by_value :
          (v : Bool)
          → (◌≡◌ {A = String}
              (if f.greater (of_bool f.zero one v) half then " 1 " else " 0 ")
              (if v then " 1 " else " 0 "))
            × (t.hex (b u.value (to_flag_bits q u.quality))
                ≡ t.hex (b u.value (to_flag_bits q u.quality)))
      by_value true = (rw on_one refl, refl)
      by_value false = (rw off_zero refl, refl)
