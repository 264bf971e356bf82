-- ===== src/Commands/Interleaving/Change.antt =====
-- The invariant under a change of one call, with the map changed at most at its id.
use dnp3_bridge.Base.{
  ℕ, suc, ◌≡◌, refl, ◌∙◌, sym, subst, ◌⊎◌, inl, inr, true, false, Option, none, some, arith, Dict,
  find, find-erase, is_some, if◌then◌else◌, ◌==◌, nat_eq, eqb, eqb_iff, Bool-cases, beq_refl,
}
use dnp3_bridge.Commands.Message.{CommandStatus}
use dnp3_bridge.Commands.Dispatcher.{Dispatcher, forget}
use dnp3_bridge.Commands.Interleaving.{
  Phase, idle, numbered, stored, awaiting, expired, returned, threw, Call, System, set_call,
  set_phase, deliver,
}
use dnp3_bridge.Commands.Interleaving.Invariant.{
  is_open, is_unstored, is_idle, IsJustified, IsNumbered, IsCoherent, Inv,
}

-- A map that stays as it is.
pub same_entry :
    (t id : ℕ) (m : Dict ℕ ℕ) → find id m ≡ (if suc t == id then find (suc t) m else find id m)
same_entry t id m = ground (arith, eqb_iff (suc t) id)

pub open-IsJustified :
    (ph : Phase) (a : Option CommandStatus) → is_open ph ≡ true → IsJustified ph a
open-IsJustified stored a h = tt
open-IsJustified awaiting a h = tt
open-IsJustified expired a h = tt
open-IsJustified idle a h = tt
open-IsJustified numbered a h = tt
open-IsJustified threw a h = absurd (cc)
open-IsJustified (returned status) a h = absurd (cc)

pub open-not-idle :
    (ph : Phase) → is_open ph ≡ true → (is_idle ph ≡ false) × (is_unstored ph ≡ false)
open-not-idle ph h = ground arith

module _ {D : Type 0} where
  -- What a changed call and the map's entry x for its id have to satisfy.
  pub record IsFit (t : ℕ) (old c : Call D) (x : Option ℕ) : Type 0 where
    pub same_idle : is_idle c.phase ≡ is_idle old.phase
    pub numbered : IsNumbered t c
    pub unset : is_unstored c.phase ≡ true → c.answer ≡ none
    pub justified : IsJustified c.phase c.answer
    pub owner : (u : ℕ) → x ≡ some u → (u ≡ t) × (is_open c.phase ≡ true) × (c.answer ≡ none)
    pub kept : is_open c.phase ≡ true → c.answer ≡ none → x ≡ some t

  module _ (s : System D) (t : ℕ) (c : Call D) (d : Dispatcher) (x : Option ℕ) where
    abbrev pub changed : System D
    changed = record s { dispatcher = d; calls = set_call t c s.calls }

    change-owner :
        Inv s
        → IsFit t (s.calls t) c x
        → (id u : ℕ) → find id d.pending ≡ (if suc t == id then x else find id s.dispatcher.pending)
        → find id d.pending ≡ some u
        → (id ≡ suc u)
          × (is_open (changed.calls u).phase ≡ true)
          × ((changed.calls u).answer ≡ none)
    change-owner v fit id u p h =
        ground (arith, fit.owner u, v.owner id u, eqb_iff (suc t) id, eqb_iff t u)

    change-IsCoherent :
        Inv s
        → IsFit t (s.calls t) c x
        → ((id : ℕ) → find id d.pending ≡ (if suc t == id then x else find id s.dispatcher.pending))
        → (u : ℕ) → IsCoherent changed u (changed.calls u)
    change-IsCoherent v fit p u = elim (Bool-cases (eqb t u)) [
      | inl e ↦ rw e (subst (λ n. IsCoherent changed n c) ((eqb_iff t u).0 e) fitted)
      | inr e ↦ rw e (kept_others e)
    ]
      where
        old : IsCoherent s t (s.calls t)
        old = v.coherent t

        fitted : IsCoherent changed t c
        fitted = record {
          idle = λ h. fit.same_idle ∙ old.idle h;
          started = λ h. old.started (sym fit.same_idle ∙ h);
          numbered = fit.numbered;
          unset = fit.unset;
          kept = λ o a. ground (arith, p (suc t), beq_refl (suc t), fit.kept o a);
          justified = fit.justified;
        }

        kept_others : eqb t u ≡ false → IsCoherent changed u (s.calls u)
        kept_others e =
            let other = v.coherent u in
            record {
              idle = other.idle;
              started = other.started;
              numbered = other.numbered;
              unset = other.unset;
              kept = λ o a. ground (arith, p (suc u), other.kept o a, eqb_iff t u);
              justified = other.justified;
            }

    pub change-Inv :
        Inv s
        → d.next_id ≡ s.dispatcher.next_id
        → IsFit t (s.calls t) c x
        → ((id : ℕ) → find id d.pending ≡ (if suc t == id then x else find id s.dispatcher.pending))
        → Inv changed
    change-Inv v n fit p = record {
      counter = n ∙ v.counter;
      owner = λ id u. change-owner v fit id u (p id);
      coherent = change-IsCoherent v fit p;
    }

  module _ (s : System D) (t : ℕ) (v : Inv s) (opened : is_open (s.calls t).phase ≡ true) where
    pub open-numbered : (s.calls t).request.command_id ≡ suc t
    open-numbered = ground (arith, (v.coherent t).numbered, open-not-idle (s.calls t).phase opened)

    -- The phase goes on and the map stays.
    pub phase-Inv :
        (ph : Phase)
        → (is_idle ph ≡ false) × (is_unstored ph ≡ false)
        → IsJustified ph (s.calls t).answer
        → (is_open ph ≡ true) ⊎ (is_some (s.calls t).answer ≡ true)
        → Inv (set_phase t ph s)
    phase-Inv ph started justified still =
        change-Inv s t _ s.dispatcher (find (suc t) s.dispatcher.pending) v refl
          (record {
            same_idle = ground (arith, open-not-idle (s.calls t).phase opened);
            numbered = inr open-numbered;
            unset = λ h. ground arith;
            justified = justified;
            owner = λ u h. ground (arith, v.owner (suc t) u h);
            kept = λ o a. (v.coherent t).kept opened a;
          })
          (λ id. same_entry t id s.dispatcher.pending)

    -- The call ends and its id leaves the map.
    pub forget-Inv :
        (ph : Phase)
        → (is_idle ph ≡ false) × (is_unstored ph ≡ false) × (is_open ph ≡ false)
        → IsJustified ph (s.calls t).answer
        → Inv (
            set_phase t ph
              (record s { dispatcher = forget (s.calls t).request.command_id s.dispatcher }))
    forget-Inv ph ended justified =
        change-Inv s t _ (forget (s.calls t).request.command_id s.dispatcher) none v refl
          (record {
            same_idle = ground (arith, open-not-idle (s.calls t).phase opened);
            numbered = inr open-numbered;
            unset = λ h. ground arith;
            justified = justified;
            owner = λ u h. absurd (cc);
            kept = λ o a. ground arith;
          })
          (λ id. rw open-numbered (find-erase (suc t) id s.dispatcher.pending))

    -- The answer arrives and its id leaves the map.
    pub answer-Inv :
        (status : CommandStatus) (id : ℕ)
        → id ≡ suc t
        → Inv (deliver status (forget id s.dispatcher, some t) s)
    answer-Inv status id e =
        change-Inv s t _ (forget id s.dispatcher) none v refl
          (record {
            same_idle = refl;
            numbered = inr open-numbered;
            unset = λ h. ground (arith, open-not-idle (s.calls t).phase opened);
            justified = open-IsJustified (s.calls t).phase (some status) opened;
            owner = λ u h. absurd (cc);
            kept = λ o a. absurd (cc);
          })
          (λ j. rw e (find-erase (suc t) j s.dispatcher.pending))
