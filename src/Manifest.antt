-- ===== src/Manifest.antt =====
-- src/manifest.rs: the customer's signed list of what is stored, the base of the rent.
pub mod Ordered
pub mod Merkle
pub mod Accepts
use ciss.Prelude.{
  ℕ, zero, suc, ◌+◌, ◌*◌, String, Bool, true, false, not, ◌&&◌, ◌||◌, Option, none, some, List, [],
  ◌∷◌, leb, ◌==◌, str_eq, if◌then◌else◌, length, all, any, sum_by, map,
}
use ciss.Prelude.Text.{concat, decimal, as_bytes}
use ciss.Prelude.Map.{Map}
use Prim.Native.Nat.{Ordering}
use Prim.Native.String.{compare}
use ciss.Crypto.{Primitives, Keypair, sha256_hex, sign_message, verify_message}
use ciss.Identifiers.{is_lower_hex}
use ciss.Blobs.{max_object_bytes}

abbrev pub manifest_sig_domain : String
manifest_sig_domain = "ciss/v1/manifest"

pub record ManifestLeaf : Type 0 where
  pub cid : String
  pub size : ℕ

unfoldable pub leaf_is_valid : ManifestLeaf → Bool
leaf_is_valid l =
    let bytes = as_bytes l.cid in
    length bytes == 64 && is_lower_hex bytes && leb l.size max_object_bytes

-- `sort_by(|a, b| a.cid.cmp(&b.cid))`.
unfoldable pub insert_leaf : ManifestLeaf → List ManifestLeaf → List ManifestLeaf
insert_leaf l [] = l ∷ []
insert_leaf l (m ∷ rest) = elim (compare l.cid m.cid) [
  | Ordering.gt ↦ m ∷ insert_leaf l rest
  | _ ↦ l ∷ m ∷ rest
]

unfoldable pub sort_leaves : List ManifestLeaf → List ManifestLeaf
unfolding insert_leaf
sort_leaves [] = []
sort_leaves (l ∷ rest) = insert_leaf l (sort_leaves rest)

-- `!seen.insert(cid)` for some leaf, with the set of those seen.
unfoldable pub repeats_cid : List String → List ManifestLeaf → Bool
repeats_cid seen [] = false
repeats_cid seen (l ∷ rest) = any (λ s. str_eq s l.cid) seen || repeats_cid (l.cid ∷ seen) rest

unfoldable pub has_duplicate_cids : List ManifestLeaf → Bool
unfolding repeats_cid
has_duplicate_cids leaves = repeats_cid [] leaves

pub record SignedManifest : Type 0 where
  pub leaves : List ManifestLeaf
  pub root : String
  pub total_bytes : ℕ
  pub signer_id : String
  pub seq : ℕ
  pub signature : String
  pub heads : Option (Map String)

unfoldable pub expected_bytes : SignedManifest → ℕ
expected_bytes m = sum_by (λ (l : ManifestLeaf). l.size) m.leaves

-- The fold of the heads map, in key order: `{device}={cid};`.
joined_heads : Map String → String
joined_heads [] = ""
joined_heads ((device, cid) ∷ rest) = concat (device ∷ "=" ∷ cid ∷ ";" ∷ joined_heads rest ∷ [])

module _ ⦃p : Primitives⦄ where
  unfoldable pub leaf_hash : ManifestLeaf → String
  leaf_hash l = sha256_hex (as_bytes (concat ("leaf:" ∷ l.cid ∷ ":" ∷ decimal l.size ∷ [])))

  -- One level of the tree from the level below it.
  unfoldable pub next_level : List String → List String
  next_level [] = []
  next_level (a ∷ []) = sha256_hex (as_bytes (concat ("node1:" ∷ a ∷ []))) ∷ []
  next_level (a ∷ b ∷ rest) =
      sha256_hex (as_bytes (concat ("node:" ∷ a ∷ ":" ∷ b ∷ []))) ∷ next_level rest

  -- `while level.len() > 1`: every round about halves the level, so its length is enough fuel.
  unfoldable pub climb : ℕ → List String → String
  climb fuel [] = ""
  climb fuel (a ∷ []) = a
  climb zero (a ∷ b ∷ rest) = a
  climb (suc fuel) (a ∷ b ∷ rest) = climb fuel (next_level (a ∷ b ∷ rest))

  unfoldable pub merkle_root : List ManifestLeaf → String
  unfolding climb
  merkle_root [] = sha256_hex (as_bytes "empty-manifest")
  merkle_root (l ∷ rest) =
      let level = map leaf_hash (sort_leaves (l ∷ rest)) in climb (length level) level

  unfoldable pub signing_preimage : String → ℕ → ℕ → ℕ → String → Option (Map String) → String
  unfolding joined_heads
  signing_preimage signer_id seq leaf_count total_bytes root heads =
      let base = concat (
        manifest_sig_domain
        ∷ ":"
        ∷ signer_id
        ∷ ":"
        ∷ decimal seq
        ∷ ":"
        ∷ decimal leaf_count
        ∷ ":"
        ∷ decimal total_bytes
        ∷ ":"
        ∷ root
        ∷ []) in
      elim heads [
        | none ↦ base
        | some m ↦ concat (base ∷ ":heads=" ∷ sha256_hex (as_bytes (joined_heads m)) ∷ [])
      ]

  unfoldable pub verify_manifest : p.VerifyingKey → SignedManifest → Bool
  verify_manifest customer_key m =
      if any (λ l. not (leaf_is_valid l)) m.leaves || has_duplicate_cids m.leaves
      then false
      else if not (str_eq (merkle_root m.leaves) m.root)
      then false
      else if not (sum_by (λ (l : ManifestLeaf). l.size) m.leaves == m.total_bytes)
      then false
      else verify_message customer_key
          (signing_preimage m.signer_id m.seq (length m.leaves) m.total_bytes m.root m.heads)
          m.signature

  unfoldable pub build_signed :
      List ManifestLeaf → String → Keypair → ℕ → Option (Map String) → SignedManifest
  build_signed items customer_id customer_key seq heads =
      let leaves = sort_leaves items in
      let root = merkle_root leaves in
      let total_bytes = sum_by (λ (l : ManifestLeaf). l.size) leaves in
      record {
        leaves = leaves;
        root = root;
        total_bytes = total_bytes;
        signer_id = customer_id;
        seq = seq;
        signature =
            sign_message customer_key
              (signing_preimage customer_id seq (length leaves) total_bytes root heads);
        heads = heads;
      }
