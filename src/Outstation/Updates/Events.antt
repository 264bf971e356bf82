-- ===== src/Outstation/Updates/Events.antt =====
-- The events of a point, src/dnp3/OutstationManager.cpp.
use dnp3_bridge.Base.{
  ℕ, ◌≡◌, refl, true, false, List, [], ◌∷◌, arith, find, find-assign, nat_eq, eqb_iff,
}
use dnp3_bridge.Double.{Double}
use dnp3_bridge.DataModel.{PointUpdate, analog, binary}
use dnp3_bridge.Outstation.Flags.{AnalogQuality}
use dnp3_bridge.Outstation.Updates.{
  OutstationManager, latch, analog_event, binary_event, analog_point, binary_point, deadband_of,
  update_analog, update_binary, visit, drain,
}
use dnp3_bridge.Outstation.Updates.Filter.{
  reference, filter_events, filter_events-latch, changed, leaves_band, analog_values, binary_values,
  analog_events, binary_events,
}

module _ (f : Double) (q : AnalogQuality) (i : ℕ) where
  open f use {D}

  -- While the outstation is up, the analog values that a batch makes events of, at each point, are
  -- those that a deadband filter keeps of the values sent to that point, from the point's last event
  -- and with its own deadband. Neither the qualities nor the updates of other points matter.
  pub analog_events-drain :
      (us : List (PointUpdate D)) (m : OutstationManager D)
      → m.outstation ≡ true
      → analog_events i (drain f q us m).1
        ≡ filter_events
            (leaves_band f (deadband_of f q i m))
            (reference (find i m.analog_state))
            (analog_values i us)
  unfolding drain visit update_analog update_binary analog_event
  analog_events-drain [] m on = refl
  analog_events-drain (analog u ∷ us) m on =
      let s = analog_point f q u.index m in
      let is_event = analog_event f q (deadband_of f q u.index m) s u.value in
      ground (
        arith,
        analog_events-drain us (update_analog f q u.index u.value u.quality m).0,
        eqb_iff u.index i,
        find-assign u.index i (latch is_event u.value s) m.analog_state,
        filter_events-latch (leaves_band f (deadband_of f q u.index m))
            (find u.index m.analog_state) f.zero u.value (analog_values i us),
      )
  analog_events-drain (binary u ∷ us) m on =
      ground (arith, analog_events-drain us (update_binary f q u.index u.value u.quality m).0)

  -- While the outstation is up, the binary values that a batch makes events of, at each point, are
  -- the changes among the values sent to that point, from the point's last event.
  pub binary_events-drain :
      (us : List (PointUpdate D)) (m : OutstationManager D)
      → m.outstation ≡ true
      → binary_events i (drain f q us m).1
        ≡ filter_events changed (reference (find i m.binary_state)) (binary_values i us)
  unfolding drain visit update_analog update_binary binary_event
  binary_events-drain [] m on = refl
  binary_events-drain (analog u ∷ us) m on =
      ground (arith, binary_events-drain us (update_analog f q u.index u.value u.quality m).0)
  binary_events-drain (binary u ∷ us) m on =
      let s = binary_point f q u.index m in
      ground (
        arith,
        binary_events-drain us (update_binary f q u.index u.value u.quality m).0,
        eqb_iff u.index i,
        find-assign u.index i (latch (binary_event s u.value) u.value s) m.binary_state,
        filter_events-latch changed (find u.index m.binary_state) false u.value
            (binary_values i us),
      )
