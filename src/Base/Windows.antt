-- ===== src/Base/Windows.antt =====
-- The newest elements of a list, over the native numbers.
use Prim.Native.Nat.{ℕ, zero, suc, ◌+◌, ◌-◌, ◌≤◌, ◌<◌}
use mathlib.Core.Path.{◌≡◌, refl, ap, sym, ◌∙◌}
use mathlib.Core.List.{List, [], ◌∷◌, ◌++◌}
use mathlib.Core.Option.{Option, none, some}
use native.Mathlib.Omega.{arith}
use dnp3_bridge.Base.Lists.{length, length-append}

module _ {ℓ} {A : Type ℓ} where
  abbrev pub drop : ℕ → List A → List A
  drop zero xs = xs
  drop (suc n) [] = []
  drop (suc n) (x ∷ xs) = drop n xs

  abbrev pub get_elem? : List A → ℕ → Option A
  get_elem? [] i = none
  get_elem? (x ∷ xs) zero = some x
  get_elem? (x ∷ xs) (suc i) = get_elem? xs i

  drop_eq : (m n : ℕ) (xs : List A) → m ≡ n → drop m xs ≡ drop n xs
  drop_eq m n xs e = ap (λ k. drop k xs) e

  length-drop : (n : ℕ) (xs : List A) → length (drop n xs) ≡ length xs - n
  length-drop zero xs = omega arith
  length-drop (suc n) [] = omega arith
  length-drop (suc n) (x ∷ xs) = omega (arith, length-drop n xs)

  drop-append : (n : ℕ) (xs ys : List A) → n ≤ length xs → drop n (xs ++ ys) ≡ drop n xs ++ ys
  drop-append zero xs ys h = refl
  drop-append (suc n) [] ys h = absurd (omega arith)
  drop-append (suc n) (x ∷ xs) ys h = drop-append n xs ys (omega arith)

  drop-nil : (n : ℕ) → drop n [] ≡ []
  drop-nil zero = refl
  drop-nil (suc n) = refl

  drop-drop : (m n : ℕ) (xs : List A) → drop m (drop n xs) ≡ drop (n + m) xs
  drop-drop m zero xs = drop_eq m (zero + m) xs (omega arith)
  drop-drop m (suc n) [] = drop-nil m ∙ sym (drop-nil (suc n + m))
  drop-drop m (suc n) (x ∷ xs) =
      drop-drop m n xs ∙ drop_eq (suc (n + m)) (suc n + m) (x ∷ xs) (omega arith)

  -- The last n elements, or all of them.
  abbrev pub newest : ℕ → List A → List A
  newest n xs = drop (length xs - n) xs

  pub length-newest : (n : ℕ) (xs : List A) → length (newest n xs) ≤ n
  length-newest n xs = omega (arith, length-drop (length xs - n) xs)

  pub newest_short : (n : ℕ) (xs : List A) → length xs ≤ n → newest n xs ≡ xs
  newest_short n xs h = drop_eq (length xs - n) 0 xs (omega arith)

  -- Elements that are older than the newest n are not missed later.
  pub newest-append : (n : ℕ) (xs ys : List A) → newest n (newest n xs ++ ys) ≡ newest n (xs ++ ys)
  newest-append n xs ys =
      let k = length xs - n in
      let kept = drop-append k xs ys (omega arith) in
      let same : k + (length (drop k xs ++ ys) - n) ≡ length (xs ++ ys) - n =
        omega (arith, length-append (drop k xs) ys, length-append xs ys, length-drop k xs) in
      ap (drop (length (drop k xs ++ ys) - n)) (sym kept)
      ∙ (drop-drop (length (drop k xs ++ ys) - n) k (xs ++ ys)
          ∙ drop_eq (k + (length (drop k xs ++ ys) - n)) (length (xs ++ ys) - n) (xs ++ ys) same)

  -- The newest of fewer elements are the newest of the newest of more.
  pub newest-newest : (m n : ℕ) (xs : List A) → m ≤ n → newest m (newest n xs) ≡ newest m xs
  newest-newest m n xs h =
      let k = length xs - n in
      drop-drop (length (drop k xs) - m) k xs
      ∙ drop_eq (k + (length (drop k xs) - m)) (length xs - m) xs (omega (arith, length-drop k xs))

  -- Making room for one element at the front of a full list.
  pub pop-push :
      (n : ℕ) (xs : List A) (x : A)
      → 0 < n
      → length xs ≡ n
      → drop 1 xs ++ x ∷ [] ≡ newest n (xs ++ x ∷ [])
  pop-push n xs x p h =
      sym (drop-append 1 xs (x ∷ []) (omega arith))
      ∙ drop_eq 1 (length (xs ++ x ∷ []) - n) (xs ++ x ∷ [])
          (omega (arith, length-append xs (x ∷ [])))
