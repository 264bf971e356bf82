-- ===== src/Commands/Handler/Selecting.antt =====
-- Select under a configured command mode, src/dnp3/ForwardingCommandHandler.cpp and start in
-- src/dnp3/OutstationManager.cpp.
use dnp3_bridge.Base.{
  ℕ, ◌≡◌, ◌↔◌, inl, inr, String, ◌==◌, text_eq, string_eq_iff, Bool-cases, arith,
}
use dnp3_bridge.Commands.Message.{success, not_supported}
use dnp3_bridge.Commands.Handler.{AnalogTypes, Command, select}
use dnp3_bridge.Outstation.Lifecycle.{command_mode_of}

module _ {D : Type 0} (a : AnalogTypes D) where
  -- Under a configuration's command_mode, Select accepts a command if the mode is spelled
  -- select_before_operate, and any other text, the default direct_operate among them, makes it answer
  -- NOT_SUPPORTED to every command.
  select-command_mode_of :
      (mode : String) (command : Command a) (index : ℕ)
      → ((select a (command_mode_of mode) command index ≡ success)
          ↔ (mode ≡ "select_before_operate"))
        × ((select a (command_mode_of mode) command index ≡ not_supported)
            ↔ ¬ (mode ≡ "select_before_operate"))
  unfolding select command_mode_of
  select-command_mode_of mode command index = elim (Bool-cases (mode == "select_before_operate")) [
    | inl same ↦ ground (arith, string_eq_iff mode "select_before_operate")
    | inr other ↦ ground (arith, string_eq_iff mode "select_before_operate")
  ]
