-- ===== src/Manifest/Ordered.antt =====
-- src/manifest.rs: the sort of the leaves keeps them all, in the order of their addresses.
use ciss.Prelude.{subst, sym, ◌∙◌, ◌⊎◌, inl, inr, String, ◌≡◌, ◌≢◌, refl, List, [], ◌∷◌, arith}
use Prim.Native.Nat.{Ordering}
use Prim.Native.String.compare
use Prim.Native.String.{compare, then}
use Prim.Native.Char.{code}
use Prim.Native.Nat.{compare as compare_ℕ}
use native.Mathlib.Omega.{compare-gt, compare-eq}
use mathlib.Core.List.{Permᴰ}
use mathlib.Core.List.Permᴰ
use ciss.Manifest.{ManifestLeaf, insert_leaf, sort_leaves}

then_gt :
    (o r : Ordering)
    → then o r ≡ Ordering.gt
    → (o ≡ Ordering.gt) ⊎ ((o ≡ Ordering.eq) × (r ≡ Ordering.gt))
then_gt Ordering.lt r h = cc
then_gt Ordering.eq r h = inr (refl, h)
then_gt Ordering.gt r h = inl refl

-- Of two texts only one is the greater.
not_both_gt : (s t : String) → compare s t ≡ Ordering.gt → compare t s ≡ Ordering.gt → ⊥
not_both_gt String.[] String.[] h k = cc
not_both_gt String.[] (String.◌∷◌ d t) h k = let is = compare.nil-cons d t in cc
not_both_gt (String.◌∷◌ c s) String.[] h k = let is = compare.nil-cons c s in cc
not_both_gt (String.◌∷◌ c s) (String.◌∷◌ d t) h k =
    elim (then_gt (compare_ℕ (code c) (code d)) (compare s t)
      (sym (compare.cons-cons c d s t) ∙ h)) [
        | inl more ↦
            elim (then_gt (compare_ℕ (code d) (code c)) (compare t s)
              (sym (compare.cons-cons d c t s) ∙ k)) [
                | inl less ↦
                    let one = compare-gt (code c) (code d) more in
                    let two = compare-gt (code d) (code c) less in omega (arith, one, two)
                | inr (equal, _) ↦
                    let one = compare-gt (code c) (code d) more in
                    let two = compare-eq (code d) (code c) equal in omega (arith, one, two)
              ]
        | inr (equal, later) ↦
            elim (then_gt (compare_ℕ (code d) (code c)) (compare t s)
              (sym (compare.cons-cons d c t s) ∙ k)) [
                | inl less ↦
                    let one = compare-eq (code c) (code d) equal in
                    let two = compare-gt (code d) (code c) less in omega (arith, one, two)
                | inr (_, also) ↦ not_both_gt s t later also
              ]
      ]

-- No leaf has an address above that of the next.
abbrev pub Ordered : List ManifestLeaf → Type 0
Ordered [] = Unit
Ordered (l ∷ []) = Unit
Ordered (l ∷ m ∷ rest) = (compare l.cid m.cid ≢ Ordering.gt) × Ordered (m ∷ rest)

order_cases :
    (o : Ordering) → (o ≢ Ordering.gt) × ((o ≡ Ordering.lt) ⊎ (o ≡ Ordering.eq)) ⊎ (o ≡ Ordering.gt)
order_cases Ordering.lt = inl ((λ h. cc), inl refl)
order_cases Ordering.eq = inl ((λ h. cc), inr refl)
order_cases Ordering.gt = inr refl

pub insert_leaf-cases :
    (l m : ManifestLeaf) (rest : List ManifestLeaf)
    → (compare l.cid m.cid ≢ Ordering.gt) × (insert_leaf l (m ∷ rest) ≡ l ∷ m ∷ rest)
      ⊎ (compare l.cid m.cid ≡ Ordering.gt) × (insert_leaf l (m ∷ rest) ≡ m ∷ insert_leaf l rest)
unfolding insert_leaf
insert_leaf-cases l m rest = elim (order_cases (compare l.cid m.cid)) [
  | inr more ↦ inr (more, rw (insert_leaf, more) refl)
  | inl (small, less) ↦ inl (
    small,
    elim less [
      | inl lt_is ↦ rw (insert_leaf, lt_is) refl
      | inr eq_is ↦ rw (insert_leaf, eq_is) refl
    ],
  )
]

below-Ordered :
    (m l : ManifestLeaf) (rest : List ManifestLeaf)
    → Ordered (m ∷ rest)
    → compare m.cid l.cid ≢ Ordering.gt
    → Ordered (m ∷ insert_leaf l rest)
unfolding insert_leaf
below-Ordered m l [] h small = (small, tt)
below-Ordered m l (n ∷ rest) (here, h) small = elim (insert_leaf-cases l n rest) [
  | inl (less, is) ↦ subst (λ x. Ordered (m ∷ x)) (sym is) (small, (less, h))
  | inr (more, is) ↦
      subst (λ x. Ordered (m ∷ x)) (sym is)
        (here, below-Ordered n l rest h (not_both_gt l.cid n.cid more))
]

insert_leaf-Ordered :
    (l : ManifestLeaf) (leaves : List ManifestLeaf)
    → Ordered leaves
    → Ordered (insert_leaf l leaves)
unfolding insert_leaf
insert_leaf-Ordered l [] h = tt
insert_leaf-Ordered l (m ∷ rest) h = elim (insert_leaf-cases l m rest) [
  | inl (less, is) ↦ subst Ordered (sym is) (less, h)
  | inr (more, is) ↦
      subst Ordered (sym is) (below-Ordered m l rest h (not_both_gt l.cid m.cid more))
]

pub sort_leaves-Ordered : (leaves : List ManifestLeaf) → Ordered (sort_leaves leaves)
unfolding sort_leaves
sort_leaves-Ordered [] = tt
sort_leaves-Ordered (l ∷ rest) = insert_leaf-Ordered l (sort_leaves rest) (sort_leaves-Ordered rest)

insert_leaf-Perm :
    (l : ManifestLeaf) (leaves : List ManifestLeaf) → Permᴰ (insert_leaf l leaves) (l ∷ leaves)
unfolding insert_leaf
insert_leaf-Perm l [] = Permᴰ.refl (l ∷ [])
insert_leaf-Perm l (m ∷ rest) = elim (insert_leaf-cases l m rest) [
  | inl (_, is) ↦ subst (λ x. Permᴰ x (l ∷ m ∷ rest)) (sym is) (Permᴰ.refl (l ∷ m ∷ rest))
  | inr (_, is) ↦
      subst (λ x. Permᴰ x (l ∷ m ∷ rest)) (sym is)
        (Permᴰ.trans (Permᴰ.cons refl (insert_leaf-Perm l rest)) (Permᴰ.swap refl refl))
]

-- The leaves are the given ones, in the order of their addresses.
pub sort_leaves-Perm : (leaves : List ManifestLeaf) → Permᴰ (sort_leaves leaves) leaves
unfolding sort_leaves
sort_leaves-Perm [] = Permᴰ.nil
sort_leaves-Perm (l ∷ rest) =
    Permᴰ.trans (insert_leaf-Perm l (sort_leaves rest)) (Permᴰ.cons refl (sort_leaves-Perm rest))
