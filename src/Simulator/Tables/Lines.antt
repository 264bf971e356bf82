-- ===== src/Simulator/Tables/Lines.antt =====
-- The lines of the event log.
use dnp3_bridge.Base.{
  ◌-◌, ◌≡◌, refl, ap, ◌∙◌, inl, inr, Bool-cases, List, length, ltb, map, arith, newest,
  newest-newest, drop,
}
use dnp3_bridge.Simulator.Model.{LogEntry, new_model}
use dnp3_bridge.Simulator.Model.Log.{add_logs, add_logs-newest}
use dnp3_bridge.Simulator.Tables.{line, or_no_events, log_lines}

log_lines-newest : (log : List LogEntry) → log_lines log ≡ or_no_events (map line (newest 8 log))
unfolding log_lines
log_lines-newest log = elim (Bool-cases (ltb 8 (length log))) [
  | inl more ↦ rw more refl
  | inr few ↦
      rw few
        (ap (λ k. or_no_events (map line (drop k log))) {x = 0} {y = length log - 8} (ground arith))
]

-- Whatever has been logged since the start, the event log shows the newest eight entries in their
-- order, or that there are none; that only 200 are kept is not seen.
pub log_lines-add_logs :
    (D : Type 0) (es : List LogEntry)
    → log_lines (add_logs es (new_model {D = D})).event_log ≡ or_no_events (map line (newest 8 es))
log_lines-add_logs D es =
    ap log_lines (add_logs-newest es (new_model {D = D}) (omega arith))
    ∙ (log_lines-newest (newest 200 es)
        ∙ ap (λ log. or_no_events (map line log)) (newest-newest 8 200 es (omega arith)))
