-- ===== src/Points/Database/Settings.antt =====
-- The settings of one point, read off the configuration without its loops.
use dnp3_bridge.Base.{
  ℕ, zero, suc, ◌+◌, ◌-◌, ◌^◌, ◌≤◌, ◌<◌, ◌≡◌, refl, ◌∙◌, ap, Bool, ◌&&◌, Option, some, List, [],
  ◌∷◌, All, arith, Dict, find, upsert, IsAscending, find-upsert, upsert-IsAscending, or_else, u16,
  ltb, leb, if◌then◌else◌, nat_eq, eqb_iff,
}
use dnp3_bridge.Points.Config.{PointConfig}
use dnp3_bridge.Points.Database.{set_points, configure_section}

module _ {ℓ} {P : Type ℓ} (start : P) where
  set_points-IsAscending :
      (update : P → P) (rounds i : ℕ) (m : Dict ℕ P)
      → IsAscending m
      → IsAscending (set_points start update rounds i m)
  unfolding set_points
  set_points-IsAscending update zero i m a = a
  set_points-IsAscending update (suc rounds) i m a =
      set_points-IsAscending update rounds (suc i) _ (upsert-IsAscending (u16 i) start update m a)

  -- The loop sets each index of its range once, and no other.
  pub find-set_points :
      (update : P → P) (rounds i j : ℕ) (m : Dict ℕ P)
      → IsAscending m
      → i + rounds ≤ 2 ^ 16
      → find j (set_points start update rounds i m) ≡ (
          if leb i j && ltb j (i + rounds)
          then some (update (or_else (find j m) start))
          else find j m)
  unfolding set_points
  find-set_points update zero i j m a h = ground arith
  find-set_points update (suc rounds) i j m a h = ground (
    arith,
    find-set_points update rounds (suc i) j (upsert (u16 i) start update m)
        (upsert-IsAscending (u16 i) start update m a),
    find-upsert (u16 i) j start update m a,
    eqb_iff (u16 i) j,
  )

-- Both ends of an entry fit their type, uint16_t.
abbrev pub FitsU16 : {D : Type 0} → PointConfig D → Type 0
FitsU16 pc = (pc.start < 2 ^ 16) × (pc.end < 2 ^ 16)

abbrev pub covers : {D : Type 0} → PointConfig D → ℕ → Bool
covers pc i = leb pc.start i && leb i pc.end

module _ {ℓ} {D : Type 0} {P : Type ℓ} (start : P) (apply : PointConfig D → P → P) where
  -- The entries that cover the point, applied in their order.
  abbrev pub settings : ℕ → Option P → List (PointConfig D) → Option P
  settings i o [] = o
  settings i o (pc ∷ entries) =
      settings i (if covers pc i then some (apply pc (or_else o start)) else o) entries

  -- The configured map has a point exactly at the indices that some entry covers, and its settings
  -- are those of the covering entries, applied in the order of the section to the settings that
  -- were there or to a new point's; an entry whose range is reversed covers nothing.
  pub find-configure_section :
      (i : ℕ) (entries : List (PointConfig D)) (m : Dict ℕ P)
      → IsAscending m
      → All FitsU16 entries
      → find i (configure_section start apply entries m) ≡ settings i (find i m) entries
  unfolding configure_section
  find-configure_section i [] m a h = refl
  find-configure_section i (pc ∷ entries) m a (fits, h) =
      find-configure_section i entries _
        (set_points-IsAscending start (apply pc) (suc pc.end - pc.start) pc.start m a) h
      ∙ ap (λ o. settings i o entries) (found (suc pc.end - pc.start) (omega arith) (ground arith))
    where
      found :
          (rounds : ℕ)
          → pc.start + rounds ≤ 2 ^ 16
          → (leb pc.start i && ltb i (pc.start + rounds)) ≡ covers pc i
          → find i (set_points start (apply pc) rounds pc.start m)
            ≡ (if covers pc i then some (apply pc (or_else (find i m) start)) else find i m)
      found rounds h e = rw (← e) (find-set_points start (apply pc) rounds pc.start i m a h)

  pub configure_section-IsAscending :
      (entries : List (PointConfig D)) (m : Dict ℕ P)
      → IsAscending m
      → IsAscending (configure_section start apply entries m)
  unfolding configure_section
  configure_section-IsAscending [] m a = a
  configure_section-IsAscending (pc ∷ entries) m a =
      configure_section-IsAscending entries _
        (set_points-IsAscending start (apply pc) (suc pc.end - pc.start) pc.start m a)
