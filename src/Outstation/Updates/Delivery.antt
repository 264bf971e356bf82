-- ===== src/Outstation/Updates/Delivery.antt =====
-- The measurements that a batch hands to the outstation, src/dnp3/OutstationManager.cpp.
use dnp3_bridge.Base.{◌≡◌, refl, true, false, List, [], ◌∷◌, map, arith}
use dnp3_bridge.Double.{Double}
use dnp3_bridge.DataModel.{Quality, PointUpdate, analog, binary}
use dnp3_bridge.Outstation.Flags.{AnalogQuality, to_flag_bits}
use dnp3_bridge.Outstation.Updates.{
  OutstationManager, Applied, analog_write, binary_write, EventMode, suppress, update_analog,
  update_binary, visit, drain,
}

-- What a write says, its event mode left out.
abbrev pub content : {D : Type 0} → Applied D → Applied D
content (analog_write w) = analog_write (record w { mode = suppress })
content (binary_write w) = binary_write (record w { mode = suppress })

abbrev pub mode_of : {D : Type 0} → Applied D → EventMode
mode_of (analog_write w) = w.mode
mode_of (binary_write w) = w.mode

abbrev pub expected_write : {D : Type 0} → AnalogQuality → PointUpdate D → Applied D
expected_write q (analog u) =
    analog_write (record {
      index = u.index;
      value = u.value;
      flags = to_flag_bits q u.quality;
      mode = suppress;
    })
expected_write q (binary u) =
    binary_write (record {
      index = u.index;
      value = u.value;
      flags = to_flag_bits q u.quality;
      mode = suppress;
    })

-- The same update under another quality.
abbrev pub requalify : {D : Type 0} → (PointUpdate D → Quality) → PointUpdate D → PointUpdate D
requalify g (analog u) = analog (record u { quality = g (analog u) })
requalify g (binary u) = binary (record u { quality = g (binary u) })

module _ (f : Double) (q : AnalogQuality) where
  open f use {D}

  -- While the outstation is up, a batch is written update by update, in order and none left out,
  -- each with its value and the flags of its quality.
  pub drain-content :
      (us : List (PointUpdate D)) (m : OutstationManager D)
      → m.outstation ≡ true
      → map content (drain f q us m).1 ≡ map (expected_write q) us
  unfolding drain visit update_analog update_binary
  drain-content [] m on = refl
  drain-content (analog u ∷ us) m on =
      ground (arith, drain-content us (update_analog f q u.index u.value u.quality m).0)
  drain-content (binary u ∷ us) m on =
      ground (arith, drain-content us (update_binary f q u.index u.value u.quality m).0)

  -- Without an outstation a batch is dropped: nothing is written and no state changes.
  drain-off :
      (us : List (PointUpdate D)) (m : OutstationManager D)
      → m.outstation ≡ false
      → drain f q us m ≡ (m, [])
  unfolding drain visit update_analog update_binary
  drain-off [] m off = refl
  drain-off (analog u ∷ us) m off = ground (arith, drain-off us m off)
  drain-off (binary u ∷ us) m off = ground (arith, drain-off us m off)

  -- Whatever qualities the updates of a batch are given, the same writes are events, and the point
  -- states after it are the same: quality is carried but never triggers.
  pub drain-requalify :
      (g : PointUpdate D → Quality) (us : List (PointUpdate D)) (m : OutstationManager D)
      → let r = drain f q (map (requalify g) us) m in
        let s = drain f q us m in (map mode_of r.1 ≡ map mode_of s.1) × (r.0 ≡ s.0)
  unfolding drain visit update_analog update_binary
  drain-requalify g [] m = (refl, refl)
  drain-requalify g (analog u ∷ us) m =
      ground (arith, drain-requalify g us (update_analog f q u.index u.value u.quality m).0)
  drain-requalify g (binary u ∷ us) m =
      ground (arith, drain-requalify g us (update_binary f q u.index u.value u.quality m).0)
