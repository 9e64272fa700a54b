-- ===== src/Manifest/Accepts.antt =====
-- What a manifest that verifies promises.
use ciss.Prelude.{
  subst, ◌*◌, ◌≤◌, ◌≡◌, Bool, true, false, not, List, [], ◌∷◌, arith, length, sum_by, any, eq_iff,
  All,
}
use ciss.Prelude.Text.{as_bytes}
use ciss.Identifiers.{is_lower_hex}
use ciss.Manifest.Merkle.{Distinct, has_duplicate_cids-Distinct, RootOf, merkle_root-RootOf}
use ciss.Crypto.{Primitives, verify_message}
use ciss.Blobs.{max_object_bytes}
use ciss.Manifest.{
  ManifestLeaf, SignedManifest, leaf_is_valid, merkle_root, signing_preimage, verify_manifest,
}

any-not-All :
    (f : ManifestLeaf → Bool) (ls : List ManifestLeaf)
    → any (λ l. not (f l)) ls ≡ false
    → All (λ l. f l ≡ true) ls
any-not-All f [] h = tt
any-not-All f (l ∷ ls) h = (ground arith, any-not-All f ls (ground arith))

size-le :
    (ls : List ManifestLeaf)
    → All (λ l. leaf_is_valid l ≡ true) ls
    → sum_by (λ (l : ManifestLeaf). l.size) ls ≤ max_object_bytes * length ls
unfolding leaf_is_valid
size-le [] h = omega arith
size-le (l ∷ ls) h = let ih = size-le ls h.1 in ground (arith, h.0)

-- A content address of 64 lower-case hex digits, and a size up to the limit of an object.
abbrev pub Valid : ManifestLeaf → Type 0
Valid l =
    (length (as_bytes l.cid) ≡ 64)
    × (is_lower_hex (as_bytes l.cid) ≡ true)
    × (l.size ≤ max_object_bytes)

All-Valid : (ls : List ManifestLeaf) → All (λ l. leaf_is_valid l ≡ true) ls → All Valid ls
unfolding leaf_is_valid
All-Valid [] h = tt
All-Valid (l ∷ ls) (here, rest) =
    ((ground (arith, here), ground (arith, here), ground (arith, here)), All-Valid ls rest)

module _ ⦃p : Primitives⦄ where
  -- A manifest that verifies under a key has valid leaves of pairwise different content addresses; its
  -- root is the one hash at the top of the Merkle levels over the hashes of those leaves in the order of
  -- their addresses; its total is the sum of their sizes, and at most the object limit for each; and its
  -- signature verifies under that key over a text of its signer, number, leaf count, total, root and
  -- heads.
  pub verify_manifest_sound :
      (key : p.VerifyingKey) (m : SignedManifest)
      → verify_manifest key m ≡ true
      → All Valid m.leaves
        × Distinct m.leaves
        × RootOf m.leaves m.root
        × (m.total_bytes ≡ sum_by (λ (l : ManifestLeaf). l.size) m.leaves)
        × (m.total_bytes ≤ max_object_bytes * length m.leaves)
        × (verify_message key
              (signing_preimage m.signer_id m.seq (length m.leaves) m.total_bytes m.root m.heads)
              m.signature
            ≡ true)
  unfolding verify_manifest
  verify_manifest_sound key m h =
      let valid = any-not-All leaf_is_valid m.leaves (ground arith) in
      let le = size-le m.leaves valid in
      let root : merkle_root m.leaves ≡ m.root =
        ground (arith, h, eq_iff (merkle_root m.leaves) m.root) in
      (
        All-Valid m.leaves valid,
        has_duplicate_cids-Distinct m.leaves (ground arith),
        subst (RootOf m.leaves) root (merkle_root-RootOf m.leaves),
        ground arith,
        ground arith,
        ground arith,
      )
