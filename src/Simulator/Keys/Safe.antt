-- ===== src/Simulator/Keys/Safe.antt =====
-- What the simulator asks of the master.
use dnp3_bridge.Base.{◌<◌, ◌^◌, ◌≢◌}
use dnp3_bridge.Commands.Handler.{other}
use dnp3_bridge.Simulator.Keys.{
  Action, scan_all_classes, scan_class1, scan_class2, exit_screen, out_of_range, select_and_operate,
  direct_operate,
}
use dnp3_bridge.Simulator.Session.{Simulator}

-- A command goes to a point of its table, with an operation that has a name or an int16; where an
-- array is read behind its end, nothing is sent.
abbrev pub IsAllowed : Action → Type 0
IsAllowed scan_all_classes = Unit {0}
IsAllowed scan_class1 = Unit {0}
IsAllowed scan_class2 = Unit {0}
IsAllowed exit_screen = Unit {0}
IsAllowed out_of_range = Unit {0}
IsAllowed (select_and_operate op i) = (op ≢ other) × (i < 20)
IsAllowed (direct_operate val i) = (val < 2 ^ 16) × (i < 5)
