-- ===== src/Commands/Interleaving/Pending.antt =====
-- What the map of pending promises holds in any interleaving.
use dnp3_bridge.Base.{
  ℕ, ◌+◌, ◌^◌, ◌<◌, ◌≡◌, ◌≢◌, ◌↔◌, inl, inr, ◌∙◌, sym, true, false, none, some, Option,
  Option-cases, List, arith, find, nat_eq,
}
use dnp3_bridge.Commands.Message.{CommandStatus}
use dnp3_bridge.Commands.Interleaving.{
  Phase, idle, numbered, stored, awaiting, expired, returned, threw, System, Event, initial, run,
}
use dnp3_bridge.Commands.Interleaving.Invariant.{is_open, IsJustified}
use dnp3_bridge.Commands.Interleaving.Change.{open-numbered}
use dnp3_bridge.Commands.Interleaving.Steps.{run-initial-Inv}

threw-IsJustified : (ph : Phase) (a : Option CommandStatus) → ph ≡ threw → ¬ IsJustified ph a
threw-IsJustified threw a e j = j
threw-IsJustified idle a e j = cc
threw-IsJustified numbered a e j = cc
threw-IsJustified stored a e j = cc
threw-IsJustified awaiting a e j = cc
threw-IsJustified expired a e j = cc
threw-IsJustified (returned status) a e j = cc

module _ {D : Type 0} (es : List (Event D))
    (few : (run {D = D} initial es).started + 1 < 2 ^ 64) where
  abbrev now : System D
  now = run initial es

  -- In every interleaving of fewer than 2^64 - 1 calls, an id is in the map, with the promise of
  -- some call, exactly when it is the id that this call carries, the call's promise has been stored
  -- and not yet given up, and no answer has come.
  pub pending_iff :
      (id t : ℕ)
      → (find id (run {D = D} initial es).dispatcher.pending ≡ some t) ↔ (
          (id ≡ ((run {D = D} initial es).calls t).request.command_id)
          × (is_open ((run {D = D} initial es).calls t).phase ≡ true)
          × (((run {D = D} initial es).calls t).answer ≡ none))
  pending_iff id t =
      let v = run-initial-Inv es few in
      (
        (λ h.
            let (e, opened, unanswered) = v.owner id t h in
            (e ∙ sym (open-numbered now t v opened), opened, unanswered)),
        λ (e, opened, unanswered).
            rw (e, open-numbered now t v opened) ((v.coherent t).kept opened unanswered),
      )

  -- Once every call has returned the map is empty: no interleaving leaves a promise behind.
  pending-no_leak :
      ((t : ℕ) → is_open ((run {D = D} initial es).calls t).phase ≡ false)
      → (id : ℕ) → find id (run {D = D} initial es).dispatcher.pending ≡ none
  pending-no_leak closed id = elim (Option-cases (find id now.dispatcher.pending)) [
    | inl e ↦ e
    | inr (t, e) ↦ absurd (ground (arith, closed t, (run-initial-Inv es few).owner id t e))
  ]

  -- get_future never throws: no call finds its id in the map already.
  pub store-never_throws : (t : ℕ) → ((run {D = D} initial es).calls t).phase ≢ threw
  store-never_throws t e = threw-IsJustified _ _ e (((run-initial-Inv es few).coherent t).justified)
