-- ===== src/Prelude/Map.antt =====
-- `BTreeMap<String, V>`: an association list that insertion keeps in key order.
use Prim.Native.Nat.{Ordering}
use Prim.Native.String.{String, compare}
use mathlib.Core.Path.{◌≡◌, refl}
use mathlib.Core.Bool.{Bool, true, false, ◌||◌}
use mathlib.Core.Option.{Option, none, some}
use mathlib.Core.List.{List, [], ◌∷◌}
use Prim.Native.Nat.{ℕ, ◌+◌, ◌≤◌}
use mathlib.Core.Logic.{inl, inr}
use native.Mathlib.Omega.{arith}
use text.Mathlib.TextEquality.{eq_iff}
use ciss.Prelude.Tests.{str_eq, Bool-cases, if◌then◌else◌}
use ciss.Prelude.Lists.{length, sum_by}

abbrev pub Map {ℓ} : Type ℓ → Type ℓ
Map V = List (String × V)

module _ {ℓ} {V : Type ℓ} where
  unfoldable pub get : String → Map V → Option V
  get k [] = none
  get k ((j, v) ∷ m) = if str_eq j k then some v else get k m

  unfoldable pub contains_key : String → Map V → Bool
  contains_key k m = elim (get k m) [ none ↦ false | some _ ↦ true ]

  unfoldable pub insert : String → V → Map V → Map V
  insert k v [] = (k, v) ∷ []
  insert k v ((j, w) ∷ m) =
      let rest = insert k v m in
      if str_eq j k
      then (k, v) ∷ m
      else elim (compare k j) [ Ordering.lt ↦ (k, v) ∷ (j, w) ∷ m | _ ↦ (j, w) ∷ rest ]

  unfoldable pub remove : String → Map V → Map V
  remove k [] = []
  remove k ((j, w) ∷ m) = let rest = remove k m in if str_eq j k then rest else (j, w) ∷ rest

  -- `INSERT OR REPLACE` of a table's row: the rows keep their order.
  unfoldable pub upsert : String → V → Map V → Map V
  upsert k v [] = (k, v) ∷ []
  upsert k v ((j, w) ∷ m) =
      let rest = upsert k v m in if str_eq j k then (k, v) ∷ m else (j, w) ∷ rest

  pub get-upsert :
      (k j : String) (v : V) (m : Map V)
      → get j (upsert k v m) ≡ (if str_eq k j then some v else get j m)
  unfolding get upsert
  get-upsert k j v [] = refl
  get-upsert k j v ((i, w) ∷ m) =
      ground (arith, eq_iff k j, eq_iff i k, eq_iff i j, get-upsert k j v m)

  -- A sum over the rows gains the new value and loses the one that it replaces.
  pub sum_by-upsert :
      (f : V → ℕ) (k : String) (v : V) (m : Map V)
      → sum_by (λ e. f e.1) (upsert k v m) + elim (get k m) [ none ↦ 0 | some w ↦ f w ]
        ≡ sum_by (λ e. f e.1) m + f v
  unfolding get upsert
  sum_by-upsert f k v [] = omega arith
  sum_by-upsert f k v ((i, w) ∷ m) = ground (arith, sum_by-upsert f k v m)

  pub get-insert :
      (k j : String) (v : V) (m : Map V)
      → get j (insert k v m) ≡ (if str_eq k j then some v else get j m)
  unfolding get insert
  get-insert k j v [] = refl
  get-insert k j v ((i, w) ∷ m) =
      ground (arith, eq_iff k j, eq_iff i k, eq_iff i j, get-insert k j v m)

  pub get-remove :
      (k j : String) (m : Map V) → get j (remove k m) ≡ (if str_eq k j then none else get j m)
  unfolding get remove
  get-remove k j [] = ground arith
  get-remove k j ((i, w) ∷ m) = ground (arith, eq_iff k j, eq_iff i k, eq_iff i j, get-remove k j m)

  pub length-upsert :
      (k : String) (v : V) (m : Map V)
      → length (upsert k v m) ≡ (if contains_key k m then length m else length m + 1)
  unfolding upsert contains_key get
  length-upsert k v [] = refl
  length-upsert k v ((j, w) ∷ m) = ground (arith, length-upsert k v m)

  pub length-remove_le : (k : String) (m : Map V) → length (remove k m) ≤ length m
  unfolding remove
  length-remove_le k [] = omega arith
  length-remove_le k ((j, w) ∷ m) = ground (arith, length-remove_le k m)

  pub length-remove :
      (k : String) (m : Map V) → contains_key k m ≡ true → length (remove k m) + 1 ≤ length m
  unfolding remove contains_key get
  length-remove k [] h = cc
  length-remove k ((j, w) ∷ m) h = elim (Bool-cases (str_eq j k)) [
    | inl same ↦ ground (arith, length-remove_le k m)
    | inr other ↦ ground (arith, length-remove k m (ground arith))
  ]

  pub contains_key-upsert :
      (k j : String) (v : V) (m : Map V)
      → contains_key j (upsert k v m) ≡ (if str_eq k j then true else contains_key j m)
  unfolding contains_key
  contains_key-upsert k j v m = ground (arith, get-upsert k j v m)

  pub contains_key-remove :
      (k j : String) (m : Map V)
      → contains_key j (remove k m) ≡ (if str_eq k j then false else contains_key j m)
  unfolding contains_key
  contains_key-remove k j m = ground (arith, get-remove k j m)

  pub sum_by-remove_le :
      (f : V → ℕ) (k : String) (m : Map V)
      → sum_by (λ e. f e.1) (remove k m) ≤ sum_by (λ e. f e.1) m
  unfolding remove
  sum_by-remove_le f k [] = omega arith
  sum_by-remove_le f k ((j, w) ∷ m) = ground (arith, sum_by-remove_le f k m)

  pub contains_key-some :
      (k : String) (v : V) (m : Map V) → get k m ≡ some v → contains_key k m ≡ true
  unfolding contains_key
  contains_key-some k v m found = ground (arith, found)

  pub contains_key-insert :
      (k j : String) (v : V) (m : Map V)
      → contains_key j (insert k v m) ≡ (str_eq k j || contains_key j m)
  unfolding contains_key
  contains_key-insert k j v m = ground (arith, get-insert k j v m)

  -- A table whose key is its primary key.
  abbrev pub KeysUnique : Map V → Type 0
  KeysUnique [] = Unit
  KeysUnique ((k, v) ∷ m) = (contains_key k m ≡ false) × KeysUnique m

  pub upsert-KeysUnique :
      (k : String) (v : V) (m : Map V) → KeysUnique m → KeysUnique (upsert k v m)
  unfolding upsert contains_key get
  upsert-KeysUnique k v [] u = (refl, tt)
  upsert-KeysUnique k v ((j, w) ∷ m) (fresh, u) = elim (Bool-cases (str_eq j k)) [
    | inl same ↦ ground (arith, eq_iff j k)
    | inr other ↦ rw other (
      ground (arith, contains_key-upsert k j v m, eq_iff j k, eq_iff k j),
      upsert-KeysUnique k v m u,
    )
  ]

  pub remove-KeysUnique : (k : String) (m : Map V) → KeysUnique m → KeysUnique (remove k m)
  unfolding remove
  remove-KeysUnique k [] u = tt
  remove-KeysUnique k ((j, w) ∷ m) (fresh, u) = elim (Bool-cases (str_eq j k)) [
    | inl same ↦ rw same (remove-KeysUnique k m u)
    | inr other ↦ rw other (ground (arith, contains_key-remove k j m), remove-KeysUnique k m u)
  ]
