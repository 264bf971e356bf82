-- ===== src/Commands/Interleaving/Blocks.antt =====
-- The invariant under each block of a call, src/dnp3/CommandDispatcher.cpp.
use dnp3_bridge.Base.{
  ℕ, suc, ◌+◌, ◌^◌, ◌<◌, ◌≡◌, refl, sym, inl, inr, true, Option, none, some, arith, find,
  find-assign, nat_eq, eqb, eqb_iff, Bool-cases, Option-cases,
}
use dnp3_bridge.Commands.Message.{
  CommandStatus, CommandRequest, timeout, not_supported, downstream_fail,
}
use dnp3_bridge.Commands.Dispatcher.{
  Dispatcher, number_request, store_promise, WriteOutcome, written, refused, raised, write_request,
  give_up, forget, fulfill,
}
use dnp3_bridge.Commands.Interleaving.{
  Phase, numbered, stored, awaiting, expired, returned, System, begin_call, store_call, write_call,
  collect_call, expire_call, abandon_call, respond_call,
}
use dnp3_bridge.Commands.Interleaving.Invariant.{is_open, IsCoherent, Inv}
use dnp3_bridge.Commands.Interleaving.Change.{
  change-Inv, open-not-idle, phase-Inv, forget-Inv, answer-Inv,
}

-- The branches of the block under writer_mutex_.
write_request-no_writer :
    (id : ℕ) (o : WriteOutcome) (d : Dispatcher)
    → d.active_writer ≡ none
    → write_request id o d ≡ (forget id d, some not_supported)
unfolding write_request
write_request-no_writer id o d h = ground arith

write_request-written :
    (id w : ℕ) (d : Dispatcher) → d.active_writer ≡ some w → write_request id written d ≡ (d, none)
unfolding write_request
write_request-written id w d h = ground arith

write_request-refused :
    (id w : ℕ) (d : Dispatcher)
    → d.active_writer ≡ some w
    → write_request id refused d ≡ (forget id d, some downstream_fail)
unfolding write_request
write_request-refused id w d h = ground arith

write_request-raised :
    (id w : ℕ) (d : Dispatcher)
    → d.active_writer ≡ some w
    → write_request id raised d ≡ (forget id d, some downstream_fail)
unfolding write_request
write_request-raised id w d h = ground arith

module _ {D : Type 0} where
  pub store_call-Inv :
      (ph : Phase) (t : ℕ) (s : System D) → ph ≡ (s.calls t).phase → Inv s → Inv (store_call ph t s)
  unfolding store_call store_promise
  store_call-Inv numbered t s e v =
      rw (fresh, store_call, store_promise)
        (change-Inv s t _ _ (some t) v refl
          (record {
            same_idle = ground arith;
            numbered = inr at;
            unset = λ h. absurd (cc);
            justified = tt;
            owner = λ u h. ground (arith, (v.coherent t).unset);
            kept = λ o a. refl;
          })
          (λ id. rw at (find-assign (suc t) id t s.dispatcher.pending)))
    where
      at : (s.calls t).request.command_id ≡ suc t
      at = ground (arith, (v.coherent t).numbered)

      fresh : find (s.calls t).request.command_id s.dispatcher.pending ≡ none
      fresh = elim (Option-cases (find (s.calls t).request.command_id s.dispatcher.pending)) [
        | inl h ↦ h
        | inr (u, h) ↦ absurd (ground (arith, at, v.owner (s.calls t).request.command_id u h))
      ]
  store_call-Inv _ t s e v = v

  pub write_call-Inv :
      (ph : Phase) (t : ℕ) (outcome : WriteOutcome) (s : System D)
      → ph ≡ (s.calls t).phase
      → Inv s
      → Inv (write_call ph t outcome s)
  unfolding write_call
  write_call-Inv stored t outcome s e v = sent outcome s.dispatcher.active_writer refl
    where
      opened : is_open (s.calls t).phase ≡ true
      opened = rw (← e)

      sent :
          (o : WriteOutcome) (w : Option ℕ)
          → s.dispatcher.active_writer ≡ w
          → Inv (write_call stored t o s)
      sent o none h =
          rw (write_request-no_writer _ o s.dispatcher h)
            (forget-Inv s t v opened (returned not_supported) (refl, refl, refl) (inl refl))
      sent written (some w) h =
          rw (write_request-written _ w s.dispatcher h)
            (phase-Inv s t v opened awaiting (refl, refl) tt (inl refl))
      sent refused (some w) h =
          rw (write_request-refused _ w s.dispatcher h)
            (forget-Inv s t v opened (returned downstream_fail) (refl, refl, refl) (inr (inl refl)))
      sent raised (some w) h =
          rw (write_request-raised _ w s.dispatcher h)
            (forget-Inv s t v opened (returned downstream_fail) (refl, refl, refl) (inr (inl refl)))
  write_call-Inv _ t outcome s e v = v

  pub collect_call-Inv :
      (ph : Phase) (a : Option CommandStatus) (t : ℕ) (s : System D)
      → ph ≡ (s.calls t).phase
      → a ≡ (s.calls t).answer
      → Inv s
      → Inv (collect_call ph a t s)
  unfolding collect_call
  collect_call-Inv awaiting (some status) t s e f v =
      phase-Inv s t v (rw (← e)) (returned status) (refl, refl) (inr (inr (inr (sym f))))
        (inr (rw (← f)))
  collect_call-Inv _ a t s e f v = v

  pub expire_call-Inv :
      (ph : Phase) (a : Option CommandStatus) (t : ℕ) (s : System D)
      → ph ≡ (s.calls t).phase
      → Inv s
      → Inv (expire_call ph a t s)
  unfolding expire_call
  expire_call-Inv awaiting none t s e v =
      phase-Inv s t v (rw (← e)) expired (refl, refl) tt (inl refl)
  expire_call-Inv _ a t s e v = v

  pub abandon_call-Inv :
      (ph : Phase) (t : ℕ) (s : System D)
      → ph ≡ (s.calls t).phase
      → Inv s
      → Inv (abandon_call ph t s)
  unfolding abandon_call give_up
  abandon_call-Inv expired t s e v =
      forget-Inv s t v (rw (← e)) (returned timeout) (refl, refl, refl) (inr (inr (inl refl)))
  abandon_call-Inv _ t s e v = v

  pub respond_call-Inv :
      (id : ℕ) (status : CommandStatus) (s : System D) → Inv s → Inv (respond_call id status s)
  unfolding respond_call fulfill
  respond_call-Inv id status s v = elim (Option-cases (find id s.dispatcher.pending)) [
    | inl h ↦ rw (h, respond_call, fulfill) v
    | inr (t, h) ↦
        rw (h, respond_call, fulfill)
          (answer-Inv s t v (v.owner id t h).1 status id (v.owner id t h).0)
  ]

  begin_call-IsCoherent :
      (request : CommandRequest D) (s : System D) (u : ℕ)
      → Inv s
      → IsCoherent (begin_call request s) u ((begin_call request s).calls u)
  unfolding begin_call number_request
  begin_call-IsCoherent request s u v = elim (Bool-cases (eqb s.started u)) [
    | inl e ↦ rw e (record {
      idle = λ h. absurd (ground arith);
      started = λ h. absurd (cc);
      numbered = inr (ground (arith, v.counter));
      unset = λ h. refl;
      kept = λ o a. absurd (cc);
      justified = tt;
    })
    | inr e ↦ rw e (
        let other = v.coherent u in
        record {
          idle = λ h. other.idle (omega arith);
          started = λ h. ground (arith, other.started h);
          numbered = other.numbered;
          unset = other.unset;
          kept = other.kept;
          justified = other.justified;
        })
  ]

  pub begin_call-Inv :
      (request : CommandRequest D) (s : System D)
      → Inv s
      → s.started + 2 < 2 ^ 64
      → Inv (begin_call request s)
  unfolding begin_call number_request
  begin_call-Inv request s v h = record {
    counter = ground (arith, v.counter);
    owner = λ id u p. ground (
      arith,
      v.owner id u p,
      (v.coherent u).idle,
      eqb_iff s.started u,
      open-not-idle (s.calls u).phase,
    );
    coherent = λ u. begin_call-IsCoherent request s u v;
  }

  pub writer-Inv :
      (w : Option ℕ) (s : System D)
      → Inv s
      → Inv (record s { dispatcher = record s.dispatcher { active_writer = w } })
  writer-Inv w s v = record {
    counter = v.counter;
    owner = v.owner;
    coherent = λ t.
        let c = v.coherent t in
        record {
          idle = c.idle;
          started = c.started;
          numbered = c.numbered;
          unset = c.unset;
          kept = c.kept;
          justified = c.justified;
        };
  }
