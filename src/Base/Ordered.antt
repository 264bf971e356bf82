-- ===== src/Base/Ordered.antt =====
-- std::map<uint16_t, V> as an association list in ascending order of its keys.
use Prim.Native.Nat.{ℕ, suc, ◌<◌}
use mathlib.Core.Path.{◌≡◌, refl}
use mathlib.Core.Option.{none, some}
use mathlib.Core.List.{[], ◌∷◌}
use native.Mathlib.Omega.{arith}
use dnp3_bridge.Base.Tests.{ltb, eqb, eqb_iff, ◌==◌, nat_eq, if◌then◌else◌}
use dnp3_bridge.Base.Maps.{Dict, find, or_else}

module _ {ℓ} {V : Type ℓ} where
  -- update(m[k]), where a key that is not there starts from `start`.
  unfoldable pub upsert : ℕ → V → (V → V) → Dict ℕ V → Dict ℕ V
  upsert k start update [] = (k, update start) ∷ []
  upsert k start update ((j, v) ∷ m) =
      if ltb k j
      then (k, update start) ∷ (j, v) ∷ m
      else if eqb j k
      then (j, update v) ∷ m
      else (j, v) ∷ upsert k start update m

  abbrev pub IsAbove : ℕ → Dict ℕ V → Type 0
  IsAbove i [] = Unit {0}
  IsAbove i ((j, v) ∷ m) = (i < j) × IsAbove j m

  abbrev pub IsAscending : Dict ℕ V → Type 0
  IsAscending [] = Unit {0}
  IsAscending ((j, v) ∷ m) = IsAbove j m

  find_above : (i j : ℕ) (m : Dict ℕ V) → IsAbove i m → j < suc i → find j m ≡ none
  unfolding find
  find_above i j [] a h = refl
  find_above i j ((k, v) ∷ m) a h = ground (arith, find_above k j m a.1, eqb_iff k j)

  upsert-IsAbove :
      (i k : ℕ) (start : V) (update : V → V) (m : Dict ℕ V)
      → IsAbove i m
      → i < k
      → IsAbove i (upsert k start update m)
  unfolding upsert
  upsert-IsAbove i k start update [] a h = (h, tt)
  upsert-IsAbove i k start update ((j, v) ∷ m) a h =
      ground (arith, upsert-IsAbove j k start update m a.1, eqb_iff j k)

  pub upsert-IsAscending :
      (k : ℕ) (start : V) (update : V → V) (m : Dict ℕ V)
      → IsAscending m
      → IsAscending (upsert k start update m)
  unfolding upsert
  upsert-IsAscending k start update [] a = tt
  upsert-IsAscending k start update ((j, v) ∷ m) a =
      ground (arith, upsert-IsAbove j k start update m a, eqb_iff j k)

  find-upsert_above :
      (i k j : ℕ) (start : V) (update : V → V) (m : Dict ℕ V)
      → IsAbove i m
      → find j (upsert k start update m)
        ≡ (if k == j then some (update (or_else (find k m) start)) else find j m)
  unfolding upsert find
  find-upsert_above i k j start update [] a = refl
  find-upsert_above i k j start update ((n, v) ∷ m) a = ground (
    arith,
    find-upsert_above n k j start update m a.1,
    find_above n k m a.1,
    eqb_iff n k,
    eqb_iff n j,
    eqb_iff k j,
  )

  pub find-upsert :
      (k j : ℕ) (start : V) (update : V → V) (m : Dict ℕ V)
      → IsAscending m
      → find j (upsert k start update m)
        ≡ (if k == j then some (update (or_else (find k m) start)) else find j m)
  unfolding upsert find
  find-upsert k j start update [] a = refl
  find-upsert k j start update ((n, v) ∷ m) a = ground (
    arith,
    find-upsert_above n k j start update m a,
    find_above n k m a,
    eqb_iff n k,
    eqb_iff n j,
    eqb_iff k j,
  )
