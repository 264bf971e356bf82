-- ===== src/Commands/Interleaving/Late.antt =====
-- How a waiting call ends, and what an answer does that comes between the timeout and its clean-up.
use dnp3_bridge.Base.{
  ℕ, ◌+◌, ◌^◌, ◌<◌, ◌≡◌, refl, true, none, some, List, arith, find, find-erase, beq_refl, nat_eq,
}
use dnp3_bridge.Commands.Message.{CommandStatus, timeout}
use dnp3_bridge.Commands.Dispatcher.{fulfill, give_up}
use dnp3_bridge.Commands.Interleaving.{
  awaiting, expired, returned, System, Event, expire, abandon, respond, initial, expire_call,
  abandon_call, respond_call, step, run,
}
use dnp3_bridge.Commands.Interleaving.Invariant.{is_open}
use dnp3_bridge.Commands.Interleaving.Change.{open-numbered}
use dnp3_bridge.Commands.Interleaving.Steps.{run-initial-Inv}

module _ {D : Type 0} where
  abandon-returns :
      (s : System D) (t : ℕ)
      → (s.calls t).phase ≡ expired
      → (((step (abandon t) s).calls t).phase ≡ returned timeout)
        × (find (s.calls t).request.command_id (step (abandon t) s).dispatcher.pending ≡ none)
  unfolding step abandon_call give_up
  abandon-returns s t h =
      let id = (s.calls t).request.command_id in
      ground (arith, beq_refl t, beq_refl id, find-erase id id s.dispatcher.pending)

  expire-expires :
      (s : System D) (t : ℕ)
      → (s.calls t).phase ≡ awaiting
      → (s.calls t).answer ≡ none
      → (((step (expire t) s).calls t).phase ≡ expired)
        × (((step (expire t) s).calls t).request.command_id ≡ (s.calls t).request.command_id)
  unfolding step expire_call
  expire-expires s t h a = ground (arith, beq_refl t)

  -- A waiting call without an answer can always end by itself: the timeout and its clean-up return
  -- TIMEOUT and take its id out of the map.
  expire-abandon-returns :
      (s : System D) (t : ℕ)
      → (s.calls t).phase ≡ awaiting
      → (s.calls t).answer ≡ none
      → let s' = step (abandon t) (step (expire t) s) in
        ((s'.calls t).phase ≡ returned timeout)
        × (find (s.calls t).request.command_id s'.dispatcher.pending ≡ none)
  expire-abandon-returns s t h a =
      let (expires, same) = expire-expires s t h a in
      let (returns, gone) = abandon-returns (step (expire t) s) t expires in
      (returns, rw same at gone)

  respond-expired :
      (s : System D) (t id : ℕ) (status : CommandStatus)
      → find id s.dispatcher.pending ≡ some t
      → (s.calls t).phase ≡ expired
      → ((step (respond id status) s).calls t).phase ≡ expired
  unfolding step respond_call fulfill
  respond-expired s t id status e h = rw (e, step, respond_call, fulfill) (rw (beq_refl t) h)

  -- In every interleaving of fewer than 2^64 - 1 calls, while a call has timed out and its id is
  -- still in the map, an answer to it is accepted, so that Python is told of success, and yet the
  -- call then returns TIMEOUT to the SCADA.
  pub respond-too_late :
      (es : List (Event D)) (t : ℕ) (status : CommandStatus)
      → (run {D = D} initial es).started + 1 < 2 ^ 64
      → ((run {D = D} initial es).calls t).phase ≡ expired
      → ((run {D = D} initial es).calls t).answer ≡ none
      → let s = run {D = D} initial es in
        let id = (s.calls t).request.command_id in
        ((fulfill id s.dispatcher).1 ≡ some t)
        × (((step (abandon t) (step (respond id status) s)).calls t).phase ≡ returned timeout)
  unfolding fulfill
  respond-too_late es t status few h a =
      let s : System D = run initial es in
      let v = run-initial-Inv es few in
      let opened : is_open (s.calls t).phase ≡ true = rw h refl in
      let entry = (v.coherent t).kept opened a in
      let id = open-numbered s t v opened in
      let found : find (s.calls t).request.command_id s.dispatcher.pending ≡ some t = rw id entry in
      (
        rw (found, fulfill) refl,
        (abandon-returns (step (respond (s.calls t).request.command_id status) s) t
            (respond-expired s t (s.calls t).request.command_id status found h)).0,
      )
