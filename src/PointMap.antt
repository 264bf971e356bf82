-- ===== src/PointMap.antt =====
-- src/dnp3/PointMap.cpp: names of points.
use dnp3_bridge.Base.{
  ℕ, ◌≡◌, String, true, false, Option, none, some, [], ◌∷◌, Dict, find, emplace, find-emplace,
  if◌then◌else◌, ◌==◌, Eq, text_eq, Bool-cases, Option-cases, inl, inr, arith,
}

pub data PointType : Type 0 where
  analog binary counter : PointType

pub record PointAddress : Type 0 where
  pub type : PointType
  pub index : ℕ  -- uint16

unfoldable pub add : String → PointAddress → Dict String PointAddress → Dict String PointAddress
add name address m = emplace name address m

unfoldable pub resolve : String → Dict String PointAddress → Option PointAddress
resolve name m = find name m

abbrev pub add_all : Dict String PointAddress → Dict String PointAddress → Dict String PointAddress
add_all [] m = m
add_all ((name, address) ∷ points) m = add_all points (add name address m)

abbrev pub first_of : Option PointAddress → String → Dict String PointAddress → Option PointAddress
first_of (some address) name points = some address
first_of none name [] = none
first_of none name ((n, address) ∷ points) =
    if n == name then some address else first_of none name points

module _ {ℓ κ} {K : Type ℓ} {V : Type κ} ⦃e : Eq K⦄ (n k : K) (a : V) where
  emplace-known : (b : V) (m : Dict K V) → find k m ≡ some b → find k (emplace n a m) ≡ some b
  emplace-known b m h = ground (arith, e.beq_iff n k, find-emplace n k a m)

  emplace-first :
      (m : Dict K V) → find k m ≡ none → (n == k) ≡ true → find k (emplace n a m) ≡ some a
  emplace-first m h same = ground (arith, e.beq_iff n k, find-emplace n k a m)

  emplace-other :
      (m : Dict K V) → find k m ≡ none → (n == k) ≡ false → find k (emplace n a m) ≡ none
  emplace-other m h other = ground (arith, find-emplace n k a m)

add_all-known :
    (points m : Dict String PointAddress) (name : String) (address : PointAddress)
    → find name m ≡ some address
    → find name (add_all points m) ≡ some address
unfolding add
add_all-known [] m name address h = h
add_all-known ((n, a) ∷ points) m name address h =
    add_all-known points (emplace n a m) name address (emplace-known n name a address m h)

add_all-new :
    (points m : Dict String PointAddress) (name : String)
    → find name m ≡ none
    → find name (add_all points m) ≡ first_of none name points
unfolding add
add_all-new [] m name h = h
add_all-new ((n, a) ∷ points) m name h = elim (Bool-cases (n == name)) [
  | inl same ↦
      rw same (add_all-known points (emplace n a m) name a (emplace-first n name a m h same))
  | inr other ↦
      rw other (add_all-new points (emplace n a m) name (emplace-other n name a m h other))
]

-- After any points have been added to a map, a name resolves to what it was in the map, or else to
-- the address of its first addition: later additions of a name change nothing.
resolve-add_all :
    (points m : Dict String PointAddress) (name : String)
    → resolve name (add_all points m) ≡ first_of (resolve name m) name points
unfolding resolve
resolve-add_all points m name = elim (Option-cases (find name m)) [
  | inl e ↦ rw e (add_all-new points m name e)
  | inr (a, e) ↦ rw e (add_all-known points m name a e)
]
