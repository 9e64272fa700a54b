-- ===== src/Prelude/Lists.antt =====
-- Lists measured by native numbers, sums over lists, and a predicate on all entries.
use Prim.Native.Nat.{ℕ, suc, ◌+◌, ◌≤◌}
use mathlib.Core.Path.{◌≡◌, refl}
use mathlib.Core.Logic.{◌⊎◌, inl, inr}
use mathlib.Core.Bool.{Bool, true, false, ◌&&◌, ◌||◌}
use mathlib.Core.List.{List, [], ◌∷◌, ◌++◌}
use mathlib.Core.Option.{Option, none, some}
use native.Mathlib.Omega.{arith}
use ciss.Prelude.Tests.{Bool-cases, if◌then◌else◌}

module _ {ℓ} {A : Type ℓ} where
  abbrev pub length : List A → ℕ
  length [] = 0
  length (x ∷ xs) = suc (length xs)

  -- `Vec::last`.
  abbrev pub last : List A → Option A
  last [] = none
  last (x ∷ xs) = elim (last xs) [ none ↦ some x | some y ↦ some y ]

  -- `Iterator::sum` of a number computed from each item.
  abbrev pub sum_by : (A → ℕ) → List A → ℕ
  sum_by f [] = 0
  sum_by f (x ∷ xs) = f x + sum_by f xs

  -- `Vec::retain`, and `filter`, by a Boolean test.
  abbrev pub retain : (A → Bool) → List A → List A
  retain keep [] = []
  retain keep (x ∷ xs) = let rest = retain keep xs in if keep x then x ∷ rest else rest

  abbrev pub any : (A → Bool) → List A → Bool
  any test [] = false
  any test (x ∷ xs) = test x || any test xs

  abbrev pub all : (A → Bool) → List A → Bool
  all test [] = true
  all test (x ∷ xs) = test x && all test xs

  pub length-append : (xs ys : List A) → length (xs ++ ys) ≡ length xs + length ys
  length-append [] ys = omega arith
  length-append (x ∷ xs) ys = omega (arith, length-append xs ys)

  pub sum_by-append : (f : A → ℕ) (xs ys : List A) → sum_by f (xs ++ ys) ≡ sum_by f xs + sum_by f ys
  sum_by-append f [] ys = omega arith
  sum_by-append f (x ∷ xs) ys = omega (arith, sum_by-append f xs ys)

  pub last-append : (xs : List A) (y : A) → last (xs ++ y ∷ []) ≡ some y
  last-append [] y = ground arith
  last-append (x ∷ xs) y = ground (arith, last-append xs y)

  pub length-retain : (keep : A → Bool) (xs : List A) → length (retain keep xs) ≤ length xs
  length-retain keep [] = omega arith
  length-retain keep (x ∷ xs) = ground (arith, length-retain keep xs)

-- A predicate that holds of every item of a list.
abbrev pub All {ℓ κ} : {A : Type ℓ} → (A → Type κ) → List A → Type κ
All P [] = Unit
All P (x ∷ xs) = P x × All P xs

-- One of the items of a list.
abbrev pub Within : {A : Type 0} → A → List A → Type 0
Within x [] = ⊥
Within x (y ∷ ys) = (x ≡ y) ⊎ Within x ys

module _ {A : Type 0} where
  pub Within-append_left : (x : A) (xs ys : List A) → Within x xs → Within x (xs ++ ys)
  Within-append_left x [] ys within = elim within [ ]
  Within-append_left x (y ∷ xs) ys (inl same) = inl same
  Within-append_left x (y ∷ xs) ys (inr later) = inr (Within-append_left x xs ys later)

  pub Within-append_right : (x : A) (xs ys : List A) → Within x ys → Within x (xs ++ ys)
  Within-append_right x [] ys within = within
  Within-append_right x (y ∷ xs) ys within = inr (Within-append_right x xs ys within)

  -- An item that passes the test, with what holds of all items.
  pub any-found :
      (test : A → Bool) (P : A → Type 0) (xs : List A)
      → any test xs ≡ true
      → All P xs
      → (x : A) × Within x xs × (test x ≡ true) × P x
  any-found test P [] found all = cc
  any-found test P (x ∷ xs) found (first, all) = elim (Bool-cases (test x)) [
    | inl here ↦ (x, inl refl, here, first)
    | inr other ↦
        let (y, within, passes, holds) = any-found test P xs (ground arith) all in
        (y, inr within, passes, holds)
  ]
