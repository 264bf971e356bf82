-- ===== src/Simulator/Keys/Dialogs.antt =====
-- The dialogs, their indices and the child that is shown.
use dnp3_bridge.Base.{
  ℕ, zero, suc, ◌<◌, ◌≡◌, true, false, ◌&&◌, Option, none, some, List, [], ◌∷◌, arith, String,
}
use dnp3_bridge.Commands.Handler.{OperationType}
use dnp3_bridge.Simulator.Model.{Texts, Posted}
use dnp3_bridge.Simulator.Keys.{
  Event, escape, arrow_up, arrow_down, return_key, custom, other_event, character, Ui, Widgets,
  Handled, send_crob, send_analog, catch_crob, catch_analog, press, catch_root, on_event, to_child,
  to_container, new_ui, to_radiobox, to_input,
}
use dnp3_bridge.Simulator.Session.{
  Simulator, Step, key, redraw, measured, state_changed, answered, take_posted, step, run,
}

-- At most one dialog is open, an open dialog is the shown child, and the points are in range.
pub record IsConsistent {D : Type 0} (ui : Ui D) : Type 0 where
  pub single : (ui.show_crob_modal && ui.show_analog_modal) ≡ false
  pub crob_shown : ui.show_crob_modal ≡ true → ui.tab_index ≡ 1
  pub analog_shown : ui.show_analog_modal ≡ true → ui.tab_index ≡ 2
  pub crob_range : ui.crob_index < 20
  pub analog_range : ui.analog_index < 5

module _ {D : Type 0} (t : Texts D) (w : Widgets) where
  send_crob-IsConsistent :
      (op : Option OperationType) (now : ℕ) (ui : Ui D)
      → IsConsistent ui
      → IsConsistent (send_crob t w op now ui).0
  unfolding send_crob
  send_crob-IsConsistent none now ui v = v
  send_crob-IsConsistent (some op) now ui v = ground arith

  send_analog-IsConsistent :
      (n : Option ℕ) (now : ℕ) (ui : Ui D)
      → IsConsistent ui
      → IsConsistent (send_analog t w n now ui).0
  unfolding send_analog
  send_analog-IsConsistent none now ui v = ground arith
  send_analog-IsConsistent (some n) now ui v = ground arith

  catch_crob-IsConsistent :
      (e : Event) (now : ℕ) (ui : Ui D) → IsConsistent ui → IsConsistent (catch_crob t w e now ui).0
  unfolding catch_crob
  catch_crob-IsConsistent escape now ui v = ground arith
  catch_crob-IsConsistent arrow_up now ui v = ground arith
  catch_crob-IsConsistent arrow_down now ui v = ground arith
  catch_crob-IsConsistent return_key now ui v = send_crob-IsConsistent _ now ui v
  catch_crob-IsConsistent _ now ui v = v

  catch_analog-IsConsistent :
      (e : Event) (now : ℕ) (ui : Ui D)
      → IsConsistent ui
      → IsConsistent (catch_analog t w e now ui).0
  unfolding catch_analog
  catch_analog-IsConsistent escape now ui v = ground arith
  catch_analog-IsConsistent arrow_up now ui v = ground arith
  catch_analog-IsConsistent arrow_down now ui v = ground arith
  catch_analog-IsConsistent return_key now ui v = send_analog-IsConsistent _ now ui v
  catch_analog-IsConsistent _ now ui v = v

  pub catch_root-IsConsistent :
      (e : Event) (now : ℕ) (ts : String) (ui : Ui D)
      → IsConsistent ui
      → IsConsistent (catch_root t w e now ts ui).0
  unfolding catch_root press
  catch_root-IsConsistent (character c) now ts ui v = ground arith
  catch_root-IsConsistent escape now ts ui v = ground arith
  catch_root-IsConsistent arrow_up now ts ui v = ground arith
  catch_root-IsConsistent arrow_down now ts ui v = ground arith
  catch_root-IsConsistent return_key now ts ui v = ground arith
  catch_root-IsConsistent custom now ts ui v = ground arith
  catch_root-IsConsistent other_event now ts ui v = ground arith

  to_radiobox-IsConsistent :
      (e : Event) (h : Handled D) → IsConsistent h.0 → IsConsistent (to_radiobox t w e h).0
  to_radiobox-IsConsistent e (ui, actions, true) v = v
  to_radiobox-IsConsistent e (ui, actions, false) v = ground (arith)

  to_input-IsConsistent :
      (e : Event) (h : Handled D) → IsConsistent h.0 → IsConsistent (to_input t w e h).0
  to_input-IsConsistent e (ui, actions, true) v = v
  to_input-IsConsistent e (ui, actions, false) v = ground arith

  to_child-IsConsistent :
      (tab : ℕ) (e : Event) (now : ℕ) (ui : Ui D)
      → IsConsistent ui
      → IsConsistent (to_child t w tab e now ui).0
  to_child-IsConsistent zero e now ui v = v
  to_child-IsConsistent (suc zero) e now ui v =
      to_radiobox-IsConsistent e _ (catch_crob-IsConsistent e now ui v)
  to_child-IsConsistent (suc (suc zero)) e now ui v =
      to_input-IsConsistent e _ (catch_analog-IsConsistent e now ui v)
  to_child-IsConsistent (suc (suc (suc tab))) e now ui v = v

  to_container-IsConsistent :
      (e : Event) (now : ℕ) (h : Handled D)
      → IsConsistent h.0
      → IsConsistent (to_container t w e now h).0
  to_container-IsConsistent e now (ui, actions, true) v = v
  to_container-IsConsistent e now (ui, actions, false) v =
      to_child-IsConsistent ui.tab_index e now ui v

  pub on_event-IsConsistent :
      (e : Event) (now : ℕ) (ts : String) (ui : Ui D)
      → IsConsistent ui
      → IsConsistent (on_event t w e now ts ui).0
  unfolding on_event
  on_event-IsConsistent e now ts ui v =
      to_container-IsConsistent e now _ (catch_root-IsConsistent e now ts ui v)

module _ {D : Type 0} (t : Texts D) (zero one : D) where
  take_posted-IsConsistent :
      (w : Widgets) (posted : List Posted) (now : ℕ) (ts : String) (s : Simulator D)
      → IsConsistent s.ui
      → IsConsistent (take_posted t zero one w posted now ts s).ui
  unfolding take_posted
  take_posted-IsConsistent w [] now ts s v = v
  take_posted-IsConsistent w (p ∷ posted) now ts s v =
      on_event-IsConsistent t w custom now ts s.ui v

  pub step-IsConsistent :
      (e : Step t) (s : Simulator D) → IsConsistent s.ui → IsConsistent (step t zero one e s).ui
  unfolding step
  step-IsConsistent (key w e now ts) s v = on_event-IsConsistent t w e now ts s.ui v
  step-IsConsistent (redraw w now ts) s v = take_posted-IsConsistent w s.posted now ts s v
  step-IsConsistent (measured values now) s v = ground arith
  step-IsConsistent (state_changed state now) s v = ground arith
  step-IsConsistent (answered summary results now) s v = ground arith

  -- After any sequence of keys, redraws and callbacks at most one dialog is open, an open dialog is
  -- the child that is shown and gets the keys, and the points are within their tables.
  run-IsConsistent :
      (es : List (Step t)) (s : Simulator D)
      → IsConsistent s.ui
      → IsConsistent (run t zero one s es).ui
  unfolding run
  run-IsConsistent [] s v = v
  run-IsConsistent (e ∷ es) s v =
      run-IsConsistent es (step t zero one e s) (step-IsConsistent e s v)

pub new_ui-IsConsistent : (D : Type 0) → IsConsistent (new_ui {D = D})
new_ui-IsConsistent D = ground arith
