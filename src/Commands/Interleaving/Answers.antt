-- ===== src/Commands/Interleaving/Answers.antt =====
-- Which answer a call gets, src/dnp3/CommandDispatcher.cpp.
use dnp3_bridge.Base.{
  ℕ, suc, ◌+◌, ◌^◌, ◌<◌, ◌≡◌, refl, sym, ap, subst, ◌∙◌, ◌⊎◌, inl, inr, none, some, List, [], ◌∷◌,
  arith, find, nat_eq, Option-cases, beq_refl,
}
use dnp3_bridge.Commands.Message.{CommandStatus, not_supported, downstream_fail, timeout}
use dnp3_bridge.Commands.Dispatcher.{fulfill}
use dnp3_bridge.Commands.Interleaving.{
  returned, System, Event, respond, initial, respond_call, step, run,
}
use mathlib.Core.Option.{some-injective}
use dnp3_bridge.Commands.Interleaving.Steps.{
  step-Inv, step-started, run-started, run-Inv, initial-Inv, run-initial-Inv,
}
use dnp3_bridge.Commands.Interleaving.Invariant.{IsJustified, Inv}
use dnp3_bridge.Commands.Interleaving.AnswerSteps.{
  fulfill-find, not_idle-numbered, answer_of, step-AnswerStep,
}

module _ {D : Type 0} where
  abbrev pub IsAmong : Event D → List (Event D) → Type 0
  IsAmong e [] = ⊥
  IsAmong e (x ∷ xs) = (x ≡ e) ⊎ IsAmong e xs

  run-answer :
      (es : List (Event D)) (s : System D) (t : ℕ) (status : CommandStatus)
      → Inv s
      → (run s es).started + 1 < 2 ^ 64
      → answer_of (run s es) t ≡ some status
      → (answer_of s t ≡ some status) ⊎ IsAmong (respond (suc t) status) es
  unfolding run
  run-answer [] s t status v few h = inl h
  run-answer (e ∷ es) s t status v few h =
      let v' = step-Inv e s v (omega (arith, few, run-started es (step e s))) in
      elim (run-answer es (step e s) t status v' few h) [
        | inr later ↦ inr (inr later)
        | inl now ↦ elim (step-AnswerStep e s t v) [
          | inl same ↦ inl (sym same ∙ now)
          | inr (st, at, before, after) ↦
              inr (inl (at ∙ ap (respond (suc t)) (some-injective st status (sym after ∙ now))))
        ]
      ]

  run-answer_stays :
      (es : List (Event D)) (s : System D) (t : ℕ) (status : CommandStatus)
      → Inv s
      → (run s es).started + 1 < 2 ^ 64
      → answer_of s t ≡ some status
      → answer_of (run s es) t ≡ some status
  unfolding run
  run-answer_stays [] s t status v few h = h
  run-answer_stays (e ∷ es) s t status v few h =
      let v' = step-Inv e s v (omega (arith, few, run-started es (step e s))) in
      run-answer_stays es (step e s) t status v' few (elim (step-AnswerStep e s t v) [
        | inl same ↦ same ∙ h
        | inr (st, at, before, after) ↦ absurd (cc)
      ])

  -- In every interleaving of fewer than 2^64 - 1 calls, a call of dispatch returns NOT_SUPPORTED,
  -- DOWNSTREAM_FAIL, TIMEOUT, or a status that somebody gave in an answer to this very call's id:
  -- answers never cross over to other calls.
  pub returned_justified :
      (es : List (Event D)) (t : ℕ) (status : CommandStatus)
      → (run {D = D} initial es).started + 1 < 2 ^ 64
      → ((run {D = D} initial es).calls t).phase ≡ returned status
      → (status ≡ not_supported)
        ⊎ (status ≡ downstream_fail)
        ⊎ (status ≡ timeout)
        ⊎ IsAmong (respond ((run {D = D} initial es).calls t).request.command_id status) es
  returned_justified es t status few h =
      let v = run-initial-Inv es few in
      let id = not_idle-numbered v t (rw h refl) in
      elim (subst (λ ph. IsJustified ph (answer_of (run initial es) t)) h
        (v.coherent t).justified) [
          | inl e ↦ inl e
          | inr (inl e) ↦ inr (inl e)
          | inr (inr (inl e)) ↦ inr (inr (inl e))
          | inr (inr (inr e)) ↦ elim (run-answer es initial t status initial-Inv few e) [
            | inl begun ↦ absurd (cc)
            | inr given ↦ inr (inr (inr (rw id given)))
          ]
        ]

  respond-accepted :
      (id : ℕ) (status : CommandStatus) (s : System D) (t : ℕ)
      → find id s.dispatcher.pending ≡ some t
      → answer_of (step (respond id status) s) t ≡ some status
  unfolding step respond_call fulfill
  respond-accepted id status s t e =
      rw (e, step, respond_call, fulfill, answer_of) (rw (beq_refl t) refl)

  -- A call that has its answer has no entry.
  no_entry :
      (id : ℕ) (s : System D) (t : ℕ)
      → id ≡ suc t
      → Inv s
      → (status : CommandStatus) → answer_of s t ≡ some status
      → (fulfill id s.dispatcher).1 ≡ none
  unfolding fulfill
  no_entry id s t at v status h = elim (Option-cases (find id s.dispatcher.pending)) [
    | inl e ↦ rw (e, fulfill) refl
    | inr (u, e) ↦ absurd (ground (arith, v.owner id u e))
  ]

  -- A call takes one answer. Once fulfill has accepted an answer to an id, then, whatever happens
  -- next, the call keeps that answer and every later answer to the id is refused as unknown.
  pub fulfill-once :
      (es fs : List (Event D)) (id t : ℕ) (status : CommandStatus)
      → (run {D = D} (step (respond id status) (run initial es)) fs).started + 1 < 2 ^ 64
      → (fulfill id (run {D = D} initial es).dispatcher).1 ≡ some t
      → let s = run {D = D} (step (respond id status) (run initial es)) fs in
        ((s.calls t).answer ≡ some status) × ((fulfill id s.dispatcher).1 ≡ none)
  fulfill-once es fs id t status few h =
      let s : System D = run initial es in
      let few₁ : (step (respond id status) s).started + 1 < 2 ^ 64 =
        omega (arith, few, run-started fs (step (respond id status) s)) in
      let few₀ : s.started + 1 < 2 ^ 64 = omega (arith, few₁, step-started (respond id status) s) in
      let v = run-initial-Inv es few₀ in
      let v₁ = step-Inv (respond id status) s v few₁ in
      let entry = fulfill-find id s.dispatcher t h in
      let kept =
        run-answer_stays fs (step (respond id status) s) t status v₁ few
          (respond-accepted id status s t entry) in
      (kept, no_entry id _ t (v.owner id t entry).0 (run-Inv fs _ v₁ few) status kept)
