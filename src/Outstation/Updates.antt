-- ===== src/Outstation/Updates.antt =====
-- updateAnalog and updateBinary of src/dnp3/OutstationManager.cpp, and the class's state. An
-- operation returns the new state with the measurements handed to the outstation's Apply.
pub mod Filter
pub mod Events
pub mod Delivery
pub mod Deadband
use dnp3_bridge.Base.{
  ℕ, Bool, true, false, not, ◌||◌, Option, none, some, List, [], ◌∷◌, ◌++◌, Dict, find, assign,
  or_else, if◌then◌else◌, bool_beq, nat_eq,
}
use dnp3_bridge.Double.{Double}
use dnp3_bridge.DataModel.{Quality, PointUpdate, analog, binary}
use dnp3_bridge.Outstation.Flags.{AnalogQuality, to_flag_bits}

-- What an event is generated from: the last value with an event, once there was one.
pub record PointState (T : Type 0) : Type 0 where
  pub last_evented : T
  pub seen : Bool

-- `manager`, `channel` and `outstation` tell whether the pointer is set.
pub record OutstationManager (D : Type 0) : Type 0 where
  pub manager : Bool
  pub channel : Bool
  pub outstation : Bool
  pub connected : Bool
  pub analog_deadband : Dict ℕ D
  pub analog_state : Dict ℕ (PointState D)
  pub binary_state : Dict ℕ (PointState Bool)

pub data EventMode : Type 0 where
  force suppress : EventMode

-- One builder.Update, as Apply receives it.
pub record Write (T : Type 0) : Type 0 where
  pub index : ℕ
  pub value : T
  pub flags : ℕ
  pub mode : EventMode

pub data Applied (D : Type 0) : Type 0 where
  analog_write : Write D → Applied D
  binary_write : Write Bool → Applied D

abbrev pub event_mode : Bool → EventMode
event_mode is_event = if is_event then force else suppress

-- The point's state after the update.
abbrev pub latch : {T : Type 0} → Bool → T → PointState T → PointState T
latch is_event value state = record {
  last_evented = if is_event then value else state.last_evented;
  seen = true;
}

unfoldable pub binary_event : PointState Bool → Bool → Bool
binary_event state value = not state.seen || not (bool_beq value state.last_evented)

module _ (f : Double) (q : AnalogQuality) where
  open f use {D, is_finite, minus, fabs, greater}

  unfoldable pub analog_event : D → PointState D → D → Bool
  analog_event deadband state value =
      not state.seen
      || not (is_finite value)
      || not (is_finite state.last_evented)
      || greater (fabs (minus value state.last_evented)) deadband

  -- operator[]: a point without a state gets a value-initialised one.
  abbrev pub analog_point : ℕ → OutstationManager D → PointState D
  analog_point index m =
      or_else (find index m.analog_state) (record { last_evented = f.zero; seen = false })

  abbrev pub binary_point : ℕ → OutstationManager D → PointState Bool
  binary_point index m =
      or_else (find index m.binary_state) (record { last_evented = false; seen = false })

  abbrev pub deadband_of : ℕ → OutstationManager D → D
  deadband_of index m = or_else (find index m.analog_deadband) f.zero

  unfoldable pub update_analog :
      ℕ → D → Quality → OutstationManager D → OutstationManager D × List (Applied D)
  update_analog index value quality m =
      let state = analog_point index m in
      let is_event = analog_event (deadband_of index m) state value in
      if m.outstation
      then (
        record m { analog_state = assign index (latch is_event value state) m.analog_state },
        analog_write (record {
          index = index;
          value = value;
          flags = to_flag_bits q quality;
          mode = event_mode is_event;
        })
            ∷ [],
      )
      else (m, [])

  unfoldable pub update_binary :
      ℕ → Bool → Quality → OutstationManager D → OutstationManager D × List (Applied D)
  update_binary index value quality m =
      let state = binary_point index m in
      let is_event = binary_event state value in
      if m.outstation
      then (
        record m { binary_state = assign index (latch is_event value state) m.binary_state },
        binary_write (record {
          index = index;
          value = value;
          flags = to_flag_bits q quality;
          mode = event_mode is_event;
        })
            ∷ [],
      )
      else (m, [])

  -- The visitor of Bridge::flushLoop.
  unfoldable pub visit :
      PointUpdate D → OutstationManager D → OutstationManager D × List (Applied D)
  visit (analog u) m = update_analog u.index u.value u.quality m
  visit (binary u) m = update_binary u.index u.value u.quality m

  -- The inner loop of Bridge::flushLoop over one batch.
  unfoldable pub drain :
      List (PointUpdate D) → OutstationManager D → OutstationManager D × List (Applied D)
  drain [] m = (m, [])
  drain (u ∷ us) m =
      let (m', now) = visit u m in let (m'', later) = drain us m' in (m'', now ++ later)
