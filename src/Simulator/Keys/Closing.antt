-- ===== src/Simulator/Keys/Closing.antt =====
-- The child that is shown once a dialog has closed.
use dnp3_bridge.Base.{ℕ, ◌≡◌, ◌||◌, if◌then◌else◌, true, false, arith, String}
use dnp3_bridge.Simulator.Model.{Texts}
use dnp3_bridge.Simulator.Keys.{
  Event, escape, arrow_up, arrow_down, return_key, custom, other_event, character, Ui, Widgets,
  send_crob, send_analog, catch_crob, catch_analog, catch_root, on_event,
}

module _ {D : Type 0} (t : Texts D) (w : Widgets) where
  -- A dialog that an event closes stays the child that is shown; only the next event, such as one
  -- that a callback posts, takes the screen back to the tables.
  on_event-still_shown :
      (e : Event) (now later : ℕ) (ts ts' : String) (ui : Ui D)
      → (ui.show_crob_modal || ui.show_analog_modal) ≡ true
      → (on_event t w e now ts ui).0.show_crob_modal ≡ false
      → (on_event t w e now ts ui).0.show_analog_modal ≡ false
      → let ui' = (on_event t w e now ts ui).0 in
        (ui'.tab_index ≡ (if ui.show_crob_modal then 1 else 2))
        × ((on_event t w custom later ts' ui').0.tab_index ≡ 0)
  unfolding on_event catch_root catch_crob send_crob catch_analog send_analog
  on_event-still_shown escape now later ts ts' ui o c a = ground arith
  on_event-still_shown arrow_up now later ts ts' ui o c a = ground arith
  on_event-still_shown arrow_down now later ts ts' ui o c a = ground arith
  on_event-still_shown return_key now later ts ts' ui o c a = ground arith
  on_event-still_shown custom now later ts ts' ui o c a = ground arith
  on_event-still_shown other_event now later ts ts' ui o c a = ground arith
  on_event-still_shown (character k) now later ts ts' ui o c a = ground arith
