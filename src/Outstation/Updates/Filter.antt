-- ===== src/Outstation/Updates/Filter.antt =====
-- What a point's events ought to be, said without the outstation's maps: a deadband filter over the
-- values that the point receives.
use dnp3_bridge.Base.{
  ℕ, Bool, true, false, not, ◌||◌, ◌&&◌, Option, none, some, List, [], ◌∷◌, if◌then◌else◌, ◌==◌,
  nat_eq, bool_beq, or_else, ◌≡◌, refl, arith,
}
use dnp3_bridge.Double.{Double}
use dnp3_bridge.DataModel.{PointUpdate, analog, binary}
use dnp3_bridge.Outstation.Updates.{
  PointState, latch, Applied, analog_write, binary_write, EventMode, force, suppress,
}

-- The value that the next one is compared with, if there is one yet.
abbrev pub reference : {T : Type 0} → Option (PointState T) → Option T
reference none = none
reference (some s) = if s.seen then some s.last_evented else none

-- Keeps the values that differ from the last kept one as `moved` tells.
abbrev pub filter_events : {T : Type 0} → (T → T → Bool) → Option T → List T → List T
filter_events moved last [] = []
filter_events moved none (v ∷ vs) = v ∷ filter_events moved (some v) vs
filter_events moved (some l) (v ∷ vs) =
    let kept = v ∷ filter_events moved (some v) vs in
    let dropped = filter_events moved (some l) vs in if moved l v then kept else dropped

abbrev pub changed : Bool → Bool → Bool
changed l v = not (bool_beq v l)

abbrev pub leaves_band : (f : Double) → f.D → f.D → f.D → Bool
leaves_band f deadband l v =
    not (f.is_finite v) || not (f.is_finite l) || f.greater (f.fabs (f.minus v l)) deadband

abbrev pub is_force : EventMode → Bool
is_force force = true
is_force suppress = false

abbrev pub prepend_if : {T : Type 0} → Bool → T → List T → List T
prepend_if true v vs = v ∷ vs
prepend_if false v vs = vs

-- The values that the updates of a list carry to one point.
abbrev pub analog_values : {D : Type 0} → ℕ → List (PointUpdate D) → List D
analog_values i [] = []
analog_values i (analog u ∷ us) = prepend_if (u.index == i) u.value (analog_values i us)
analog_values i (binary u ∷ us) = analog_values i us

abbrev pub binary_values : {D : Type 0} → ℕ → List (PointUpdate D) → List Bool
binary_values i [] = []
binary_values i (analog u ∷ us) = binary_values i us
binary_values i (binary u ∷ us) = prepend_if (u.index == i) u.value (binary_values i us)

-- The values that were written to one point in the mode that generates an event.
abbrev pub analog_events : {D : Type 0} → ℕ → List (Applied D) → List D
analog_events i [] = []
analog_events i (analog_write w ∷ ws) =
    prepend_if (is_force w.mode && w.index == i) w.value (analog_events i ws)
analog_events i (binary_write w ∷ ws) = analog_events i ws

abbrev pub binary_events : {D : Type 0} → ℕ → List (Applied D) → List Bool
binary_events i [] = []
binary_events i (analog_write w ∷ ws) = binary_events i ws
binary_events i (binary_write w ∷ ws) =
    prepend_if (is_force w.mode && w.index == i) w.value (binary_events i ws)

-- One step of the filter, as the code makes it on the point's state.
pub filter_events-latch :
    {T : Type 0} (moved : T → T → Bool) (o : Option (PointState T)) (start v : T) (vs : List T)
    → let s = or_else o (record { last_evented = start; seen = false }) in
      let is_event = not s.seen || moved s.last_evented v in
      filter_events moved (reference o) (v ∷ vs)
      ≡ prepend_if is_event v (filter_events moved (reference (some (latch is_event v s))) vs)
filter_events-latch moved none start v vs = refl
filter_events-latch moved (some s) start v vs = ground arith
