-- ===== src/Simulator/Session.antt =====
-- The simulator while it runs, main of tools/dnp3-master-sim/main.cpp: the screen's events and the
-- callbacks that opendnp3's threads make, in any order.
use dnp3_bridge.Base.{ℕ, String, List, [], ◌∷◌, ◌++◌}
use dnp3_bridge.Simulator.Model.{DataModel, Texts, Posted, on_channel_state, command_result}
use dnp3_bridge.Simulator.Measurements.{Values, process}
use dnp3_bridge.Simulator.Keys.{Event, custom, Action, Ui, Widgets, on_event, new_ui}

-- The simulator: the screen's state, the events that notify posted and that are not handled yet, and
-- all that the handlers have asked for.
pub record Simulator (D : Type 0) : Type 0 where
  pub ui : Ui D
  pub posted : List Posted
  pub actions : List Action

-- One call of a callback or a handler. The callbacks run on opendnp3's thread. What ftxui's widgets
-- make of an event comes with the event, since it also depends on what they have hovered or where
-- their cursor is.
pub data Step {D : Type 0} (t : Texts D) : Type 0 where
  key : Widgets → Event → ℕ → String → Step t
  redraw : Widgets → ℕ → String → Step t
  measured : Values D → ℕ → Step t
  state_changed : t.State → ℕ → Step t
  answered : String → List (ℕ × String) → ℕ → Step t

module _ {D : Type 0} (t : Texts D) (zero one : D) where
  abbrev after_event : List Posted → Simulator D → Ui D × List Action → Simulator D
  after_event posted s (ui, actions) = record {
    ui = ui;
    posted = posted;
    actions = s.actions ++ actions;
  }

  abbrev after_call : Simulator D → DataModel D × List Posted → Simulator D
  after_call s (m, posted) = record s {
    ui = record s.ui { model = m };
    posted = s.posted ++ posted;
  }

  -- The screen handles a posted event.
  unfoldable pub take_posted : Widgets → List Posted → ℕ → String → Simulator D → Simulator D
  unfolding on_event
  take_posted w [] now ts s = s
  take_posted w (p ∷ posted) now ts s = after_event posted s (on_event t w custom now ts s.ui)

  unfoldable pub step : Step t → Simulator D → Simulator D
  unfolding on_event take_posted process on_channel_state command_result
  step (key w event now ts) s = after_event s.posted s (on_event t w event now ts s.ui)
  step (redraw w now ts) s = take_posted w s.posted now ts s
  step (measured values now) s = after_call s (process t zero one values now s.ui.model)
  step (state_changed state now) s = after_call s (on_channel_state t state now s.ui.model)
  step (answered summary results now) s =
      after_call s (command_result t summary results now s.ui.model)

  unfoldable pub run : Simulator D → List (Step t) → Simulator D
  unfolding step
  run s [] = s
  run s (e ∷ es) = run (step e s) es

abbrev pub new_simulator : {D : Type 0} → Simulator D
new_simulator = record { ui = new_ui; posted = []; actions = [] }
