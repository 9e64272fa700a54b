-- ===== src/Examples/Manifests.antt =====
-- Manifests as tokens.
use ciss.Prelude.{
  ℕ, ◌≡◌, refl, ap, ◌∙◌, String, Option, none, some, List, [], ◌∷◌, ◌==◌, if◌then◌else◌,
}
use ciss.Prelude.Map.{Map}
use ciss.Manifest.{ManifestLeaf, SignedManifest}
use ciss.Examples.Codec.{Token, num, str}
use ciss.Examples.Records.{pairs, unpairs, unpairs-pairs}

-- The leaves, and then the tokens behind them, which begin with a text.
abbrev pub leaf_tokens : List ManifestLeaf → List Token → List Token
leaf_tokens [] rest = rest
leaf_tokens (l ∷ ls) rest = num l.size ∷ str l.cid ∷ leaf_tokens ls rest

abbrev pub add_leaf : ManifestLeaf → List ManifestLeaf × List Token → List ManifestLeaf × List Token
add_leaf l (ls, rest) = (l ∷ ls, rest)

abbrev pub token_leaves : List Token → List ManifestLeaf × List Token
token_leaves (num size ∷ str cid ∷ ts) =
    add_leaf (record { cid = cid; size = size }) (token_leaves ts)
token_leaves ts = ([], ts)

pub token_leaves-leaf_tokens :
    (ls : List ManifestLeaf) (s : String) (rest : List Token)
    → token_leaves (leaf_tokens ls (str s ∷ rest)) ≡ (ls, str s ∷ rest)
token_leaves-leaf_tokens [] s rest = refl
token_leaves-leaf_tokens (l ∷ ls) s rest = ap (add_leaf l) (token_leaves-leaf_tokens ls s rest)

abbrev pub head_tokens : Option (Map String) → List Token
head_tokens none = num 0 ∷ []
head_tokens (some m) = num 1 ∷ pairs m

abbrev pub to_heads : ℕ → List Token → Option (Map String)
to_heads n ts = if n == 0 then none else some (unpairs ts)

abbrev pub manifest_tokens : SignedManifest → List Token
manifest_tokens m = leaf_tokens m.leaves (
    str m.root
    ∷ num m.total_bytes
    ∷ str m.signer_id
    ∷ num m.seq
    ∷ str m.signature
    ∷ head_tokens m.heads)

abbrev pub with_leaves : List ManifestLeaf × List Token → Option SignedManifest
with_leaves (ls, str root ∷ num total ∷ str signer ∷ num seq ∷ str signature ∷ num h ∷ heads) =
    some (record {
      leaves = ls;
      root = root;
      total_bytes = total;
      signer_id = signer;
      seq = seq;
      signature = signature;
      heads = to_heads h heads;
    })
with_leaves _ = none

abbrev pub token_manifest : List Token → Option SignedManifest
token_manifest ts = with_leaves (token_leaves ts)

pub with_leaves-heads :
    (m : SignedManifest) (h : Option (Map String))
    → with_leaves (
      m.leaves,
      str m.root
          ∷ num m.total_bytes
          ∷ str m.signer_id
          ∷ num m.seq
          ∷ str m.signature
          ∷ head_tokens h,
    )
      ≡ some (record m { heads = h })
with_leaves-heads m none = refl
with_leaves-heads m (some hs) = rw (unpairs-pairs hs) refl

pub token_manifest-manifest_tokens :
    (m : SignedManifest) → token_manifest (manifest_tokens m) ≡ some m
token_manifest-manifest_tokens m =
    ap with_leaves (token_leaves-leaf_tokens m.leaves m.root _) ∙ with_leaves-heads m m.heads
