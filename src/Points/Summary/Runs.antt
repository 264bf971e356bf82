-- ===== src/Points/Summary/Runs.antt =====
-- The points that the logged runs stand for, src/dnp3/OutstationManager.cpp.
use dnp3_bridge.Base.{
  ℕ, zero, suc, ◌+◌, ◌-◌, ◌≤◌, ◌≡◌, refl, ◌∙◌, true, ◌≢◌, ◌⊎◌, String, List, [], ◌∷◌, ◌++◌, map,
  Dict, arith, string_eq_iff, text_eq, ◌==◌, Bool-cases, eqb, not, ◌||◌, inl, inr,
}
use dnp3_bridge.Points.Summary.{Run, point_runs_from, described_runs, log_point_runs}

-- The indices from i on, all with one description.
abbrev pub span : ℕ → ℕ → String → Dict ℕ String
span zero i desc = []
span (suc n) i desc = (i, desc) ∷ span n (suc i) desc

abbrev pub points_of : Run → Dict ℕ String
points_of r = span (suc r.last - r.first) r.first r.desc

abbrev pub expand : List Run → Dict ℕ String
expand [] = []
expand (r ∷ rs) = points_of r ++ expand rs

span-last :
    (n i : ℕ) (desc : String) (m : Dict ℕ String)
    → span (suc n) i desc ++ m ≡ span n i desc ++ (i + n, desc) ∷ m
span-last zero i desc m = ground arith
span-last (suc n) i desc m = rw (span-last n (suc i) desc m) (ground arith)

span-one : (i : ℕ) (desc : String) → span (suc i - i) i desc ≡ (i, desc) ∷ []
span-one i desc = let e : suc i - i ≡ 1 = omega arith in rw e refl

-- A point that follows on the run lengthens it by one.
span-longer :
    (first prev i : ℕ) (desc next_desc : String) (m : Dict ℕ String)
    → first ≤ prev
    → i ≡ prev + 1
    → next_desc ≡ desc
    → span (suc i - first) first desc ++ m
      ≡ span (suc prev - first) first desc ++ (i, next_desc) ∷ m
span-longer first prev i desc next_desc m h e d =
    let rounds : suc i - first ≡ suc (suc prev - first) = omega arith in
    let at : first + (suc prev - first) ≡ i = omega arith in
    rw rounds (rw (span-last (suc prev - first) first desc m, at, d) refl)

expand-point_runs_from :
    (run_start prev : ℕ) (desc : String) (points : Dict ℕ String)
    → run_start ≤ prev
    → expand (point_runs_from run_start prev desc points)
      ≡ span (suc prev - run_start) run_start desc ++ points
unfolding point_runs_from
expand-point_runs_from run_start prev desc [] h = refl
expand-point_runs_from run_start prev desc ((i, next_desc) ∷ points) h =
    elim (Bool-cases (not (eqb i (prev + 1)) || not (next_desc == desc))) [
      | inl e ↦ rw e (
          rw (expand-point_runs_from i i next_desc points (omega arith), span-one i next_desc) refl)
      | inr e ↦ rw e (
          expand-point_runs_from run_start i desc points (ground arith)
          ∙ span-longer run_start prev i desc next_desc points h (ground arith)
              (ground (arith, string_eq_iff next_desc desc)))
    ]

expand-described_runs : (points : Dict ℕ String) → expand (described_runs points) ≡ points
unfolding described_runs
expand-described_runs [] = refl
expand-described_runs ((i, desc) ∷ points) =
    expand-point_runs_from i i desc points (omega arith) ∙ rw (span-one i desc) refl

-- Expanding the logged runs gives back every point with its description, in order: nothing is
-- lost, made up or described wrongly.
expand-log_point_runs {ℓ} :
    {P : Type ℓ} (points : Dict ℕ P) (describe : P → String)
    → expand (log_point_runs points describe) ≡ map (λ point. (point.0, describe point.1)) points
unfolding log_point_runs
expand-log_point_runs points describe = expand-described_runs _

-- No run could be merged with the one behind it.
abbrev pub IsSplit : List Run → Type 0
IsSplit [] = Unit {0}
IsSplit (r ∷ []) = Unit {0}
IsSplit (r ∷ s ∷ rs) = ((s.first ≢ r.last + 1) ⊎ (s.desc ≢ r.desc)) × IsSplit (s ∷ rs)

-- The first run begins here.
abbrev Begins : ℕ → String → List Run → Type 0
Begins i desc [] = ⊥
Begins i desc (r ∷ rs) = (r.first ≡ i) × (r.desc ≡ desc)

point_runs_from-Begins :
    (run_start prev : ℕ) (desc : String) (points : Dict ℕ String)
    → Begins run_start desc (point_runs_from run_start prev desc points)
unfolding point_runs_from
point_runs_from-Begins run_start prev desc [] = (refl, refl)
point_runs_from-Begins run_start prev desc ((i, next_desc) ∷ points) =
    elim (Bool-cases (not (eqb i (prev + 1)) || not (next_desc == desc))) [
      | inl e ↦ rw e (refl, refl)
      | inr e ↦ rw e (point_runs_from-Begins run_start i desc points)
    ]

IsSplit-cons :
    (r : Run) (i : ℕ) (desc : String) (rs : List Run)
    → Begins i desc rs
    → IsSplit rs
    → (i ≢ r.last + 1) ⊎ (desc ≢ r.desc)
    → IsSplit (r ∷ rs)
IsSplit-cons r i desc [] b h c = tt
IsSplit-cons r i desc (s ∷ rs) b h c = (rw (b.0, b.1) c, h)

point_runs_from-IsSplit :
    (run_start prev : ℕ) (desc : String) (points : Dict ℕ String)
    → IsSplit (point_runs_from run_start prev desc points)
unfolding point_runs_from
point_runs_from-IsSplit run_start prev desc [] = tt
point_runs_from-IsSplit run_start prev desc ((i, next_desc) ∷ points) =
    elim (Bool-cases (not (eqb i (prev + 1)) || not (next_desc == desc))) [
      | inl e ↦ rw e (
          IsSplit-cons (record { first = run_start; last = prev; desc = desc }) i next_desc _
            (point_runs_from-Begins i i next_desc points)
            (point_runs_from-IsSplit i i next_desc points) (apart i prev next_desc desc e))
      | inr e ↦ rw e (point_runs_from-IsSplit run_start i desc points)
    ]
  where
    apart :
        (i prev : ℕ) (d e : String)
        → (not (eqb i (prev + 1)) || not (d == e)) ≡ true
        → (i ≢ prev + 1) ⊎ (d ≢ e)
    apart i prev d e h = ground (arith, string_eq_iff d e)

-- The logged runs are as long as can be: a run ends only where the next index does not follow on or
-- the description changes.
log_point_runs-IsSplit {ℓ} :
    {P : Type ℓ} (points : Dict ℕ P) (describe : P → String)
    → IsSplit (log_point_runs points describe)
unfolding log_point_runs described_runs
log_point_runs-IsSplit [] describe = tt
log_point_runs-IsSplit ((i, p) ∷ points) describe = point_runs_from-IsSplit i i (describe p) _

-- Expanding the logged runs gives back every point with its description, in order, and the runs
-- are as long as can be: a run ends only where the next index does not follow on or the
-- description changes.
pub log_point_runs_lem {ℓ} :
    {P : Type ℓ} (points : Dict ℕ P) (describe : P → String)
    → (expand (log_point_runs points describe) ≡ map (λ point. (point.0, describe point.1)) points)
      × IsSplit (log_point_runs points describe)
log_point_runs_lem points describe =
    (expand-log_point_runs points describe, log_point_runs-IsSplit points describe)
