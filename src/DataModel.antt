-- ===== src/DataModel.antt =====
-- src/bridge/DataModel.hpp: the point updates that travel from gRPC to the outstation. The type D
-- stands for double.
use dnp3_bridge.Base.{ℕ, Bool}

pub data Quality : Type 0 where
  good uncertain bad restart : Quality

pub record AnalogUpdate (D : Type 0) : Type 0 where
  pub index : ℕ  -- uint16
  pub value : D
  pub quality : Quality

pub record BinaryUpdate : Type 0 where
  pub index : ℕ  -- uint16
  pub value : Bool
  pub quality : Quality

pub data PointUpdate (D : Type 0) : Type 0 where
  analog : AnalogUpdate D → PointUpdate D
  binary : BinaryUpdate → PointUpdate D
