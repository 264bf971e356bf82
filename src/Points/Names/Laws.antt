-- ===== src/Points/Names/Laws.antt =====
-- The class mask, src/dnp3/OutstationManager.cpp.
use dnp3_bridge.Base.{
  String, ◌≡◌, sym, subst, inl, inr, Bool, Bool-cases, true, false, ◌||◌, List, [], ◌∷◌, arith,
  ◌==◌, text_eq, string_eq_iff,
}
use dnp3_bridge.Points.Names.{ClassField, set_class, class_mask_from, build_class_mask}

abbrev pub lists : String → List String → Bool
lists s [] = false
lists s (t ∷ ts) = (t == s) || lists s ts

abbrev mark : (s : String) → ClassField → ClassField
mark s m = record {
  c0 = m.c0 || s == "class0";
  c1 = m.c1 || s == "class1";
  c2 = m.c2 || s == "class2";
  c3 = m.c3 || s == "class3";
}

set_class-mark_at :
    (s t : String) (m : ClassField)
    → (s == t) ≡ true
    → set_class t m ≡ mark t m
    → set_class s m ≡ mark s m
set_class-mark_at s t m e h =
    subst (λ u. set_class u m ≡ mark u m) (sym ((string_eq_iff s t).0 e)) h

set_class-mark : (s : String) (m : ClassField) → set_class s m ≡ mark s m
set_class-mark s m = elim (Bool-cases (s == "class0")) [
  | inl e ↦ set_class-mark_at s "class0" m e (ground arith)
  | inr e₀ ↦ elim (Bool-cases (s == "class1")) [
    | inl e ↦ set_class-mark_at s "class1" m e (ground arith)
    | inr e₁ ↦ elim (Bool-cases (s == "class2")) [
      | inl e ↦ set_class-mark_at s "class2" m e (ground arith)
      | inr e₂ ↦ ground arith
    ]
  ]
]

class_mask_from-lists :
    (m : ClassField) (mask : List String)
    → class_mask_from m mask ≡ record {
      c0 = m.c0 || lists "class0" mask;
      c1 = m.c1 || lists "class1" mask;
      c2 = m.c2 || lists "class2" mask;
      c3 = m.c3 || lists "class3" mask;
    }
unfolding class_mask_from
class_mask_from-lists m [] = ground arith
class_mask_from-lists m (s ∷ mask) =
    rw (set_class-mark s m) (ground (arith, class_mask_from-lists (mark s m) mask))

-- Each class is in the mask exactly when its name is listed; other names are ignored, and neither
-- order nor repetition matters.
build_class_mask-lists :
    (mask : List String)
    → build_class_mask mask ≡ record {
      c0 = lists "class0" mask;
      c1 = lists "class1" mask;
      c2 = lists "class2" mask;
      c3 = lists "class3" mask;
    }
unfolding build_class_mask
build_class_mask-lists mask = class_mask_from-lists _ mask
