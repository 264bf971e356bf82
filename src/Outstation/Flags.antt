-- ===== src/Outstation/Flags.antt =====
-- toFlagBits of src/dnp3/OutstationManager.cpp. The bits are constants of opendnp3's AnalogQuality,
-- a parameter here.
pub mod Meaning
use Prim.Native.Nat.{bit_or}
use dnp3_bridge.Base.{ℕ}
use dnp3_bridge.DataModel.{Quality, good, uncertain, bad, restart}

pub record AnalogQuality : Type 0 where
  pub online_bit : ℕ
  pub restart_bit : ℕ

unfoldable pub to_flag_bits : AnalogQuality → Quality → ℕ
to_flag_bits q good = q.online_bit
to_flag_bits q uncertain = q.online_bit
to_flag_bits q bad = 0
to_flag_bits q restart = bit_or q.online_bit q.restart_bit
