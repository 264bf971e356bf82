-- ===== src/Outstation/Lifecycle/Started.antt =====
-- What a start leaves behind: the configured deadbands, and points without a past.
use mathlib.Core.Option
use dnp3_bridge.Base.{
  ℕ, suc, ◌<◌, ◌≡◌, refl, ap, ◌∙◌, inl, inr, eqb, Bool-cases, Bool, false, Option, none, some, List,
  [], ◌∷◌, All, arith, Dict, find, assign, find-assign, or_else, IsAbove, IsAscending, eqb_iff,
  nat_eq,
}
use dnp3_bridge.Double.{Double}
use dnp3_bridge.DataModel.{PointUpdate, analog, binary}
use dnp3_bridge.Config.{AppConfig}
use dnp3_bridge.Points.Config.{no_points}
use dnp3_bridge.Points.Names.{
  StaticAnalog, EventAnalog, class1, group30_var1, group32_var1, static_analog_names,
  event_analog_names,
}
use dnp3_bridge.Points.Database.{AnalogPoint, PointDefaults, configure_section, apply_analog}
use dnp3_bridge.Points.Database.Settings.{
  FitsU16, settings, find-configure_section, configure_section-IsAscending,
}
use dnp3_bridge.Outstation.Flags.{AnalogQuality}
use dnp3_bridge.Outstation.Updates.{
  OutstationManager, update_analog, update_binary, visit, drain, deadband_of,
}
use dnp3_bridge.Outstation.Updates.Filter.{
  filter_events, analog_values, binary_values, analog_events, binary_events,
}
use dnp3_bridge.Outstation.Updates.Events.{analog_events-drain, binary_events-drain}
use dnp3_bridge.Outstation.Lifecycle.{load_deadbands, database_of, start, shutdown}

abbrev Points : Type 0 → Type 0
Points D = Dict ℕ (AnalogPoint D StaticAnalog EventAnalog)

module _ {D : Type 0} where
  above-IsAscending : (i : ℕ) (points : Points D) → IsAbove i points → IsAscending points
  above-IsAscending i [] a = tt
  above-IsAscending i ((k, pt) ∷ points) a = a.1

  load_deadbands-above :
      (i j : ℕ) (points : Points D) (deadbands : Dict ℕ D)
      → IsAbove i points
      → j < suc i
      → find j (load_deadbands deadbands points) ≡ find j deadbands
  unfolding load_deadbands
  load_deadbands-above i j [] deadbands a h = refl
  load_deadbands-above i j ((k, pt) ∷ points) deadbands a h =
      load_deadbands-above k j points (assign k pt.deadband deadbands) a.1 (omega arith)
      ∙ ground (arith, find-assign k j pt.deadband deadbands, eqb_iff k j)

  find-load_deadbands :
      (i : ℕ) (points : Points D) (deadbands : Dict ℕ D)
      → IsAscending points
      → find i (load_deadbands deadbands points)
        ≡ or_else (Option.map (λ pt. some pt.deadband) (find i points)) (find i deadbands)
  unfolding load_deadbands find
  find-load_deadbands i [] deadbands a = refl
  find-load_deadbands i ((k, pt) ∷ points) deadbands a = elim (Bool-cases (eqb k i)) [
    | inl e ↦
        rw (e, find)
          (load_deadbands-above k i points (assign k pt.deadband deadbands) a (ground arith)
            ∙ ground (arith, find-assign k i pt.deadband deadbands))
    | inr e ↦
        rw (e, find)
          (find-load_deadbands i points (assign k pt.deadband deadbands)
              (above-IsAscending k points a)
            ∙ ground (arith, find-assign k i pt.deadband deadbands))
  ]

deadband_or :
    {D : Type 0} (o : Option (AnalogPoint D StaticAnalog EventAnalog)) (zero : D)
    → or_else (or_else (Option.map (λ pt. some pt.deadband) o) none) zero
      ≡ or_else (Option.map (λ pt. pt.deadband) o) zero
deadband_or none zero = refl
deadband_or (some pt) zero = refl

abbrev pub first : {T : Type 0} → List T → Option T
first [] = none
first (x ∷ xs) = some x

first-filter_events :
    {T : Type 0} (moved : T → T → Bool) (vs : List T)
    → first (filter_events moved none vs) ≡ first vs
first-filter_events moved [] = refl
first-filter_events moved (v ∷ vs) = refl

module _ (f : Double) (q : AnalogQuality) (defaults : PointDefaults f.D) where
  open f use {D}

  drain-down :
      (us : List (PointUpdate D)) (m : OutstationManager D)
      → m.outstation ≡ false
      → (drain f q us m).1 ≡ []
  unfolding drain visit update_analog update_binary
  drain-down [] m off = refl
  drain-down (analog u ∷ us) m off = ground (arith, drain-down us m)
  drain-down (binary u ∷ us) m off = ground (arith, drain-down us m)

  configured_analogs :
      (cfg : AppConfig D)
      → no_points cfg.point_database ≡ false
      → (database_of defaults cfg).analog_input
        ≡ configure_section defaults.analog_input
            (apply_analog class1 group30_var1 group32_var1)
            cfg.point_database.analog_input
            []
  unfolding database_of
  configured_analogs cfg given = rw given refl

  -- After a start from a configuration with a point database, the deadband that updateAnalog applies
  -- to a point is that of the configured settings of this analog input, or 0.0 at a point that no
  -- entry covers.
  pub start-deadband :
      (cfg : AppConfig D) (m : OutstationManager D) (i : ℕ)
      → no_points cfg.point_database ≡ false
      → All FitsU16 cfg.point_database.analog_input
      → deadband_of f q i (start defaults cfg m).0
        ≡ or_else
            (Option.map
              (λ pt. pt.deadband)
              (settings defaults.analog_input
                (apply_analog class1 group30_var1 group32_var1)
                i
                none
                cfg.point_database.analog_input))
            f.zero
  unfolding start find
  start-deadband cfg m i given fits =
      let apply = apply_analog class1 group30_var1 group32_var1 in
      let entries = cfg.point_database.analog_input in
      let points = configure_section defaults.analog_input apply entries [] in
      let database = configured_analogs cfg given in
      ap (λ ps. or_else (find i (load_deadbands [] ps)) f.zero) database
      ∙ (ap (λ o. or_else o f.zero)
            (find-load_deadbands i points []
              (configure_section-IsAscending defaults.analog_input apply entries [] tt))
          ∙ (deadband_or (find i points) f.zero
              ∙ ap (λ o. or_else (Option.map (λ pt. pt.deadband) o) f.zero)
                  (find-configure_section defaults.analog_input apply i entries [] tt fits)))

  -- After any start, whatever had been sent before, the first value that a batch carries to a point
  -- is the first event of that point, whichever other points the batch updates before; and after a
  -- shutdown no update of a batch reaches anybody.
  pub start-first_event :
      (cfg : AppConfig D) (m : OutstationManager D) (i : ℕ) (us : List (PointUpdate D))
      → let m' = (start defaults cfg m).0 in
        (first (analog_events i (drain f q us m').1) ≡ first (analog_values i us))
        × (first (binary_events i (drain f q us m').1) ≡ first (binary_values i us))
        × ((drain f q us (shutdown m')).1 ≡ [])
  unfolding start shutdown find
  start-first_event cfg m i us =
      let m' = (start defaults cfg m).0 in
      (
        ap first (analog_events-drain f q i us m' refl)
            ∙ first-filter_events _ (analog_values i us),
        ap first (binary_events-drain f q i us m' refl)
            ∙ first-filter_events _ (binary_values i us),
        drain-down us (shutdown m') refl,
      )
