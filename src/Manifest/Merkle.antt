-- ===== src/Manifest/Merkle.antt =====
-- src/manifest.rs: the addresses of the leaves, and the root as the top of the levels above them.
use ciss.Prelude.{
  subst, str_eq-false, sym, inl, inr, ℕ, zero, suc, ◌≤◌, String, ◌≡◌, ◌≢◌, refl, false, any, List,
  [], ◌∷◌, length, map, All, arith, str_eq,
}
use ciss.Prelude.Text.{concat, as_bytes}
use mathlib.Core.List.{Permᴰ}
use ciss.Crypto.{Primitives, sha256_hex}
use ciss.Manifest.Ordered.{Ordered, sort_leaves-Ordered, sort_leaves-Perm, insert_leaf-cases}
use ciss.Manifest.{
  ManifestLeaf, insert_leaf, sort_leaves, repeats_cid, has_duplicate_cids, leaf_hash, next_level,
  climb, merkle_root,
}

-- The address of each leaf is none of the later ones.
abbrev pub Distinct : List ManifestLeaf → Type 0
Distinct [] = Unit
Distinct (l ∷ rest) = All (λ (m : ManifestLeaf). l.cid ≢ m.cid) rest × Distinct rest

Unseen : List String → ManifestLeaf → Type 0
Unseen seen l = any (λ s. str_eq s l.cid) seen ≡ false

All-map :
    (P Q : ManifestLeaf → Type 0) (f : (l : ManifestLeaf) → P l → Q l) (leaves : List ManifestLeaf)
    → All P leaves
    → All Q leaves
All-map P Q f [] h = tt
All-map P Q f (l ∷ leaves) (here, rest) = (f l here, All-map P Q f leaves rest)

repeats_cid-Unseen :
    (seen : List String) (leaves : List ManifestLeaf)
    → repeats_cid seen leaves ≡ false
    → All (Unseen seen) leaves × Distinct leaves
unfolding repeats_cid Unseen
repeats_cid-Unseen seen [] h = (tt, tt)
repeats_cid-Unseen seen (l ∷ rest) h =
    let (later, distinct) = repeats_cid-Unseen (l.cid ∷ seen) rest (ground (arith, h)) in
    (
      (
        ground (arith, h),
        All-map (Unseen (l.cid ∷ seen)) (Unseen seen) (λ m u. ground (arith, u)) rest later,
      ),
      (
        All-map (Unseen (l.cid ∷ seen)) (λ m. l.cid ≢ m.cid)
            (λ m u. str_eq-false l.cid m.cid (ground (arith, u))) rest later,
        distinct,
      ),
    )

pub has_duplicate_cids-Distinct :
    (leaves : List ManifestLeaf) → has_duplicate_cids leaves ≡ false → Distinct leaves
unfolding has_duplicate_cids
has_duplicate_cids-Distinct leaves h = (repeats_cid-Unseen [] leaves h).1

module _ ⦃p : Primitives⦄ where
  -- One level above another: a node over each two, and one over a last that is alone.
  pub data Paired : List String → List String → Type 0 where
    none : Paired [] []
    odd : (a : String) → Paired (a ∷ []) (sha256_hex (as_bytes (concat ("node1:" ∷ a ∷ []))) ∷ [])
    pair :
        (a b : String) {rest up : List String}
        → Paired rest up
        → Paired (a ∷ b ∷ rest) (sha256_hex (as_bytes (concat ("node:" ∷ a ∷ ":" ∷ b ∷ []))) ∷ up)

  -- The one hash at the top of the levels over these.
  pub data Top : List String → String → Type 0 where
    single : (a : String) → Top (a ∷ []) a
    above :
        (a b : String) {rest up : List String} {root : String}
        → Paired (a ∷ b ∷ rest) up
        → Top up root
        → Top (a ∷ b ∷ rest) root

  next_level-Paired : (level : List String) → Paired level (next_level level)
  unfolding next_level
  next_level-Paired [] = none
  next_level-Paired (a ∷ []) = odd a
  next_level-Paired (a ∷ b ∷ rest) = pair a b (next_level-Paired rest)

  length-next_level_le : (level : List String) → length (next_level level) ≤ length level
  unfolding next_level
  length-next_level_le [] = omega arith
  length-next_level_le (a ∷ []) = omega arith
  length-next_level_le (a ∷ b ∷ rest) = let le = length-next_level_le rest in omega (arith, le)

  climb-Top :
      (fuel : ℕ) (a : String) (rest : List String)
      → length rest ≤ fuel
      → Top (a ∷ rest) (climb fuel (a ∷ rest))
  unfolding climb next_level
  climb-Top fuel a [] enough = single a
  climb-Top zero a (b ∷ rest) enough = absurd (omega (arith, enough))
  climb-Top (suc fuel) a (b ∷ rest) enough =
      let le = length-next_level_le rest in
      above a b (pair a b (next_level-Paired rest)) (
        climb-Top fuel (sha256_hex (as_bytes (concat ("node:" ∷ a ∷ ":" ∷ b ∷ []))))
          (next_level rest) (omega (arith, le, enough)))

  -- The root of some leaves: the top of the levels over their hashes, in the order of their addresses,
  -- or a fixed hash where there are none.
  abbrev pub RootOf : List ManifestLeaf → String → Type 0
  RootOf [] root = root ≡ sha256_hex (as_bytes "empty-manifest")
  RootOf (l ∷ rest) root =
      (sorted : List ManifestLeaf) × Permᴰ sorted (l ∷ rest)
      × Ordered sorted
      × Top (map leaf_hash sorted) root

  level-Top :
      (l : ManifestLeaf) (sorted : List ManifestLeaf)
      → Top
          (map leaf_hash (l ∷ sorted))
          (climb (length (map leaf_hash (l ∷ sorted))) (map leaf_hash (l ∷ sorted)))
  level-Top l sorted =
      climb-Top (length (map leaf_hash (l ∷ sorted))) (leaf_hash l) (map leaf_hash sorted)
        (omega arith)

  some_first :
      (l : ManifestLeaf) (leaves : List ManifestLeaf)
      → (m : ManifestLeaf) × (rest : List ManifestLeaf) × (insert_leaf l leaves ≡ m ∷ rest)
  unfolding insert_leaf
  some_first l [] = (l, [], refl)
  some_first l (m ∷ rest) = elim (insert_leaf-cases l m rest) [
    | inl (_, is) ↦ (l, m ∷ rest, is)
    | inr (_, is) ↦ (m, insert_leaf l rest, is)
  ]

  -- The loop over the levels ends at one hash, and that is the root.
  pub merkle_root-RootOf : (leaves : List ManifestLeaf) → RootOf leaves (merkle_root leaves)
  unfolding merkle_root sort_leaves
  merkle_root-RootOf [] = refl
  merkle_root-RootOf (l ∷ rest) =
      let (m, others, is) = some_first l (sort_leaves rest) in
      (
        sort_leaves (l ∷ rest),
        sort_leaves-Perm (l ∷ rest),
        sort_leaves-Ordered (l ∷ rest),
        subst (λ x. Top (map leaf_hash x) (climb (length (map leaf_hash x)) (map leaf_hash x)))
            (sym is) (level-Top m others),
      )
