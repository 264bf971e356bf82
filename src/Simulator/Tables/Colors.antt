-- ===== src/Simulator/Tables/Colors.antt =====
-- The colour of the flags that the bridge sends.
use dnp3_bridge.Base.{◌≡◌, refl}
use dnp3_bridge.DataModel.{Quality, good, uncertain, bad, restart}
use dnp3_bridge.Outstation.Flags.{to_flag_bits}
use dnp3_bridge.Outstation.Flags.Meaning.{opendnp3_quality}
use dnp3_bridge.Simulator.Tables.{gray_dark, flag_color}

-- The flags that the bridge makes of a quality have the same colour whatever the quality is: an
-- analog point, or a binary one that is off, looks the same good, bad or restarting. A binary point
-- that is on has the STATE bit of opendnp3 besides.
flag_color-blind :
    (quality : Quality) → flag_color (to_flag_bits opendnp3_quality quality) ≡ gray_dark
unfolding flag_color to_flag_bits
flag_color-blind good = refl
flag_color-blind uncertain = refl
flag_color-blind bad = refl
flag_color-blind restart = refl
