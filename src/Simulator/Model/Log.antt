-- ===== src/Simulator/Model/Log.antt =====
-- What the event log holds.
use dnp3_bridge.Base.{
  ◌≤◌, ◌≡◌, sym, ap, ◌∙◌, inl, inr, Bool-cases, List, [], ◌∷◌, ◌++◌, length, length-append, leb,
  append-nil, append_assoc, arith, newest, newest_short, newest-append, length-newest, pop-push,
}
use dnp3_bridge.Simulator.Model.{LogEntry, DataModel, max_log_entries, add_log}

module _ {D : Type 0} where
  abbrev pub add_logs : List LogEntry → DataModel D → DataModel D
  add_logs [] m = m
  add_logs (e ∷ es) m = add_logs es (add_log e.text e.timestamp m)

  pub add_log-newest :
      (e : LogEntry) (m : DataModel D)
      → length m.event_log ≤ max_log_entries
      → (add_log e.text e.timestamp m).event_log ≡ newest max_log_entries (m.event_log ++ e ∷ [])
  unfolding add_log
  add_log-newest e m h = elim (Bool-cases (leb 200 (length m.event_log))) [
    | inl full ↦ rw full (pop-push 200 m.event_log e (omega arith) (ground arith))
    | inr room ↦ rw room (
        sym (
          newest_short 200 (m.event_log ++ e ∷ [])
            (ground (arith, length-append m.event_log (e ∷ [])))))
  ]

  -- After any entries the log holds the newest 200 of what it held and of these entries, in order.
  pub add_logs-newest :
      (es : List LogEntry) (m : DataModel D)
      → length m.event_log ≤ max_log_entries
      → (add_logs es m).event_log ≡ newest max_log_entries (m.event_log ++ es)
  add_logs-newest [] m h =
      sym (newest_short 200 m.event_log h) ∙ ap (newest 200) (sym (append-nil m.event_log))
  add_logs-newest (e ∷ es) m h =
      let once = add_log-newest e m h in
      add_logs-newest es (add_log e.text e.timestamp m)
        (rw once (length-newest 200 (m.event_log ++ e ∷ [])))
      ∙ (ap (λ log. newest 200 (log ++ es)) once
          ∙ (newest-append 200 (m.event_log ++ e ∷ []) es
              ∙ ap (newest 200) (append_assoc m.event_log (e ∷ []) es)))
