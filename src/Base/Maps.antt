-- ===== src/Base/Maps.antt =====
-- std::unordered_map as an association list: the operations that the program calls, and their laws.
use mathlib.Core.Path.{◌≡◌, refl}
use mathlib.Core.Bool.{Bool, true, false}
use mathlib.Core.Option.{Option, none, some}
use mathlib.Core.List.{List, [], ◌∷◌}
use native.Mathlib.Omega.{arith}
use dnp3_bridge.Base.Tests.{Eq, ◌==◌, if◌then◌else◌}

abbrev pub Dict {ℓ κ} : Type ℓ → Type κ → Type (ℓ ⊔ κ)
Dict K V = List (K × V)

abbrev pub or_else {ℓ} : {A : Type ℓ} → Option A → A → A
or_else none d = d
or_else (some a) d = a

abbrev pub is_some {ℓ} : {A : Type ℓ} → Option A → Bool
is_some none = false
is_some (some a) = true

module _ {ℓ κ} {K : Type ℓ} {V : Type κ} ⦃e : Eq K⦄ where
  unfoldable pub find : K → Dict K V → Option V
  find k [] = none
  find k ((j, v) ∷ m) = if j == k then some v else find k m

  -- m[k] = v
  unfoldable pub assign : K → V → Dict K V → Dict K V
  assign k v [] = (k, v) ∷ []
  assign k v ((j, w) ∷ m) = if j == k then (k, v) ∷ m else (j, w) ∷ assign k v m

  -- m.erase(k)
  unfoldable pub erase : K → Dict K V → Dict K V
  erase k [] = []
  erase k ((j, w) ∷ m) = if j == k then erase k m else (j, w) ∷ erase k m

  -- m.emplace(k, v): an entry that is there stays as it is.
  unfoldable pub emplace : K → V → Dict K V → Dict K V
  unfolding find
  emplace k v m = if is_some (find k m) then m else (k, v) ∷ m

  pub find-assign :
      (k j : K) (v : V) (m : Dict K V)
      → find j (assign k v m) ≡ (if k == j then some v else find j m)
  unfolding find assign
  find-assign k j v [] = refl
  find-assign k j v ((i, w) ∷ m) =
      ground (arith, e.beq_iff k j, e.beq_iff i k, e.beq_iff i j, find-assign k j v m)

  pub find-erase :
      (k j : K) (m : Dict K V) → find j (erase k m) ≡ (if k == j then none else find j m)
  unfolding find erase
  find-erase k j [] = ground arith
  find-erase k j ((i, w) ∷ m) =
      ground (arith, e.beq_iff k j, e.beq_iff i k, e.beq_iff i j, find-erase k j m)

  pub find-emplace :
      (k j : K) (v : V) (m : Dict K V)
      → find j (emplace k v m)
        ≡ (if is_some (find k m) then find j m else if k == j then some v else find j m)
  unfolding find emplace
  find-emplace k j v m = ground arith

pub beq_refl {ℓ} : {K : Type ℓ} ⦃e : Eq K⦄ (k : K) → (k == k) ≡ true
beq_refl ⦃e⦄ k = (e.beq_iff k k).1 refl
