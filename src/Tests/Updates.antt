-- ===== src/Tests/Updates.antt =====
-- Updates of points: src/dnp3/OutstationManager.cpp.
use dnp3_bridge.Base.{
  ℕ, ◌≡◌, refl, ◌⊎◌, true, false, Option, none, some, List, [], ◌∷◌, map, find, nat_eq,
}
use dnp3_bridge.DataModel.{PointUpdate, good, bad, restart}
use dnp3_bridge.Outstation.Flags.{to_flag_bits}
use dnp3_bridge.Outstation.Flags.Meaning.{opendnp3_quality}
use dnp3_bridge.Outstation.Updates.{PointState, analog_write, force, suppress, update_analog, drain}
use dnp3_bridge.Outstation.Updates.Filter.{analog_events, binary_events, leaves_band}
use dnp3_bridge.Outstation.Updates.Events.{analog_events-drain, binary_events-drain}
use dnp3_bridge.Outstation.Updates.Delivery.{
  content, mode_of, requalify, drain-content, drain-requalify,
}
use dnp3_bridge.Outstation.Updates.Deadband.{
  update_analog-tracks, update_analog-non_finite, update_analog-repeat,
}
use dnp3_bridge.Tests.Sample.{whole, whole-SelfDifference, up, send, switch}

-- Point 2 moves within and out of its deadband of 5; point 3 has none.
abbrev batch : List (PointUpdate (Option ℕ))
batch =
    send 2 100 good
    ∷ send 3 7 good
    ∷ send 2 104 bad
    ∷ switch 2 true good
    ∷ send 3 8 good
    ∷ send 2 106 good
    ∷ switch 2 true bad
    ∷ switch 2 false good
    ∷ []

analog_events-drain_example :
    analog_events 2 (drain whole opendnp3_quality batch up).1 ≡ some 100 ∷ some 106 ∷ []
unfolding find
analog_events-drain_example = analog_events-drain whole opendnp3_quality 2 batch up refl

binary_events-drain_example :
    binary_events 2 (drain whole opendnp3_quality batch up).1 ≡ true ∷ false ∷ []
unfolding find
binary_events-drain_example = binary_events-drain whole opendnp3_quality 2 batch up refl

drain-content_example :
    map content (drain whole opendnp3_quality (send 2 100 restart ∷ []) up).1
    ≡ analog_write (record { index = 2; value = some 100; flags = 3; mode = suppress }) ∷ []
unfolding to_flag_bits
drain-content_example = drain-content whole opendnp3_quality (send 2 100 restart ∷ []) up refl

drain-requalify_example :
    let r = drain whole opendnp3_quality (map (requalify (λ u. bad)) batch) up in
    let s = drain whole opendnp3_quality batch up in
    (map mode_of r.1 ≡ map mode_of s.1) × (r.0 ≡ s.0)
drain-requalify_example = drain-requalify whole opendnp3_quality (λ u. bad) batch up

update_analog-tracks_example :
    (s : PointState (Option ℕ)) × (find 2
        (update_analog whole opendnp3_quality 2 (some 9) bad up).0.analog_state
      ≡ some s)
    × (s.seen ≡ true)
    × ((s.last_evented ≡ some 9) ⊎ (leaves_band whole (some 5) s.last_evented (some 9) ≡ false))
unfolding find
update_analog-tracks_example = update_analog-tracks whole opendnp3_quality up refl 2 (some 9) bad

update_analog-non_finite_example :
    (update_analog whole opendnp3_quality 2
      (some 9)
      good
      (update_analog whole opendnp3_quality 2 none bad up).0).1
    ≡ analog_write (record { index = 2; value = some 9; flags = 1; mode = force }) ∷ []
unfolding to_flag_bits
update_analog-non_finite_example =
    update_analog-non_finite whole opendnp3_quality up refl 2 none (some 9) bad good refl

update_analog-repeat_example :
    (update_analog whole opendnp3_quality 2
      (some 9)
      bad
      (update_analog whole opendnp3_quality 2 (some 9) good up).0).1
    ≡ analog_write (record { index = 2; value = some 9; flags = 0; mode = suppress }) ∷ []
unfolding to_flag_bits find
update_analog-repeat_example =
    update_analog-repeat whole opendnp3_quality up refl 2 (some 9) good bad whole-SelfDifference
      refl refl
