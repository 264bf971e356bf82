-- ===== src/Outstation/Updates/Deadband.antt =====
-- One point under its deadband: how far the last event may lag behind, what non-finite values and
-- repetitions do.
use dnp3_bridge.Base.{
  ℕ, ◌≡◌, ◌⊎◌, true, false, some, [], ◌∷◌, arith, find, find-assign, nat_eq, beq_refl,
}
use dnp3_bridge.Double.{Double, SelfDifference}
use dnp3_bridge.DataModel.{Quality}
use dnp3_bridge.Outstation.Flags.{AnalogQuality, to_flag_bits}
use dnp3_bridge.Outstation.Updates.{
  PointState, OutstationManager, analog_write, force, suppress, latch, analog_event, analog_point,
  deadband_of, update_analog,
}
use dnp3_bridge.Outstation.Updates.Filter.{leaves_band}

module _ (f : Double) (q : AnalogQuality) (m : OutstationManager f.D)
    (on : m.outstation ≡ true) where
  open f use {D, is_finite, greater}

  -- After any update the point remembers an event whose value is the new one, or one that the new
  -- value has not left by more than the point's deadband, both being finite.
  pub update_analog-tracks :
      (i : ℕ) (v : D) (quality : Quality)
      → (s : PointState D) × (find i (update_analog f q i v quality m).0.analog_state ≡ some s)
        × (s.seen ≡ true)
        × ((s.last_evented ≡ v) ⊎ (leaves_band f (deadband_of f q i m) s.last_evented v ≡ false))
  unfolding update_analog
  update_analog-tracks i v quality =
      let s = analog_point f q i m in
      let e = analog_event f q (deadband_of f q i m) s v in
      let at = find-assign i i (latch e v s) m.analog_state in
      (
        latch e v s,
        ground (arith, at, beq_refl i),
        ground arith,
        unfold analog_event in ground arith,
      )

  -- A non-finite value cannot latch a point into silence: the update after it, whatever its value,
  -- is an event again.
  pub update_analog-non_finite :
      (i : ℕ) (v w : D) (quality quality' : Quality)
      → is_finite v ≡ false
      → (update_analog f q i w quality' (update_analog f q i v quality m).0).1
        ≡ analog_write
            (record { index = i; value = w; flags = to_flag_bits q quality'; mode = force })
          ∷ []
  unfolding update_analog analog_event
  update_analog-non_finite i v w quality quality' h =
      let s = analog_point f q i m in
      let e = analog_event f q (deadband_of f q i m) s v in
      ground (arith, find-assign i i (latch e v s) m.analog_state, beq_refl i)

  -- Under IEEE arithmetic and a deadband that is not negative, a finite value sent again is no
  -- event, whatever its quality.
  pub update_analog-repeat :
      (i : ℕ) (v : D) (quality quality' : Quality)
      → SelfDifference f
      → is_finite v ≡ true
      → greater f.zero (deadband_of f q i m) ≡ false
      → (update_analog f q i v quality' (update_analog f q i v quality m).0).1
        ≡ analog_write
            (record { index = i; value = v; flags = to_flag_bits q quality'; mode = suppress })
          ∷ []
  unfolding update_analog analog_event
  update_analog-repeat i v quality quality' law h nonneg =
      let s = analog_point f q i m in
      let e = analog_event f q (deadband_of f q i m) s v in
      ground (
        arith,
        find-assign i i (latch e v s) m.analog_state,
        beq_refl i,
        law v (deadband_of f q i m),
      )
