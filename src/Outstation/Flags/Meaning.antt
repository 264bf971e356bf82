-- ===== src/Outstation/Flags/Meaning.antt =====
-- What the flag byte tells the SCADA.
use Prim.Native.Nat.{bit_and}
use dnp3_bridge.Base.{◌<◌, ◌≡◌, ◌↔◌, arith}
use dnp3_bridge.DataModel.{Quality, good, uncertain, bad, restart}
use dnp3_bridge.Outstation.Flags.{AnalogQuality, to_flag_bits}

-- opendnp3's AnalogQuality has ONLINE in bit 0 and RESTART in bit 1.
abbrev pub opendnp3_quality : AnalogQuality
opendnp3_quality = record { online_bit = 1; restart_bit = 2 }

-- What the SCADA can tell apart.
abbrev pub visible : Quality → Quality
visible uncertain = good
visible good = good
visible bad = bad
visible restart = restart

-- With ONLINE in bit 0 and RESTART in bit 1: the ONLINE bit is clear exactly for a bad quality, the
-- RESTART bit is set exactly for a restart, and no other bit is ever set.
to_flag_bits-meaning :
    (a : Quality)
    → ((bit_and (to_flag_bits opendnp3_quality a) 1 ≡ 0) ↔ (a ≡ bad))
      × ((bit_and (to_flag_bits opendnp3_quality a) 2 ≡ 2) ↔ (a ≡ restart))
      × (to_flag_bits opendnp3_quality a < 4)
unfolding to_flag_bits
to_flag_bits-meaning good = ground arith
to_flag_bits-meaning uncertain = ground arith
to_flag_bits-meaning bad = ground arith
to_flag_bits-meaning restart = ground arith

-- With these bits, two qualities have the same flags exactly if they are the same or both are good
-- or uncertain.
to_flag_bits-visible :
    (a b : Quality)
    → (to_flag_bits opendnp3_quality a ≡ to_flag_bits opendnp3_quality b) ↔ (visible a ≡ visible b)
unfolding to_flag_bits
to_flag_bits-visible good b = ground arith
to_flag_bits-visible uncertain b = ground arith
to_flag_bits-visible bad b = ground arith
to_flag_bits-visible restart b = ground arith
