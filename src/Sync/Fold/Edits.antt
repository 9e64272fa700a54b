-- ===== src/Sync/Fold/Edits.antt =====
-- crates/ciss-sync/src/fold.rs: the distinct edits of a path cover the edit of each device.
use ciss.Prelude.{
  String, ◌≡◌, refl, ap, ◌∙◌, Bool, true, false, ◌||◌, Option, none, some, List, [], ◌∷◌, ◌++◌,
  ◌==◌, any, inl, inr, arith, Bool-cases, Option-cases, ==_refl, str_eq,
}
use ciss.Prelude.Map
use ciss.Prelude.Map.{Map, KeysUnique, get-insert}
use ciss.Sync.Tree.{FileEntry, FsManifest, ChunkRef, chunks_eq, chunk_ref_eq, list_eq}
use ciss.Sync.Fold.{same_content, is_changed, changed, distinct, push_edit}

module _ {ℓ} {A : Type ℓ} where
  any-append :
      (test : A → Bool) (xs ys : List A) → any test (xs ++ ys) ≡ (any test xs || any test ys)
  any-append test [] ys = refl
  any-append test (x ∷ xs) ys = ground (arith, any-append test xs ys)

  list_eq_refl :
      (eq : A → A → Bool) → ((x : A) → eq x x ≡ true) → (xs : List A) → list_eq eq xs xs ≡ true
  list_eq_refl eq h [] = refl
  list_eq_refl eq h (x ∷ xs) = ground (arith, h x, list_eq_refl eq h xs)

chunk_ref_eq_refl : (c : ChunkRef) → chunk_ref_eq c c ≡ true
chunk_ref_eq_refl c =
    ground
      (arith, list_eq_refl ◌==◌ ==_refl c.sha256, list_eq_refl ◌==◌ ==_refl c.blake3, ==_refl c.len)

pub same_content_refl : (e : FileEntry) → same_content e e ≡ true
unfolding same_content chunks_eq
same_content_refl e =
    ground (arith, ==_refl e.size, list_eq_refl chunk_ref_eq chunk_ref_eq_refl e.chunks)

-- Whether an edit has the content of this entry.
abbrev pub edit_has : FileEntry → String × FileEntry → Bool
edit_has e edit = same_content edit.1 e

push_edit-has :
    (e : FileEntry) (edits : List (String × FileEntry)) (device : String)
    → any (edit_has e) (push_edit edits device e) ≡ true
push_edit-has e edits device = elim (Bool-cases (any (edit_has e) edits)) [
  | inl there ↦ ground (arith, there)
  | inr new ↦
      ground (arith, new, any-append (edit_has e) edits ((device, e) ∷ []), same_content_refl e)
]

push_edit-keeps :
    (e f : FileEntry) (edits : List (String × FileEntry)) (device : String)
    → any (edit_has e) edits ≡ true
    → any (edit_has e) (push_edit edits device f) ≡ true
push_edit-keeps e f edits device kept = elim (Bool-cases (any (edit_has f) edits)) [
  | inl there ↦ ground (arith, there)
  | inr new ↦ ground (arith, new, any-append (edit_has e) edits ((device, f) ∷ []))
]

distinct-keeps :
    (e : FileEntry) (edits : List (String × FileEntry)) (changes : List (String × Option FileEntry))
    → any (edit_has e) edits ≡ true
    → any (edit_has e) (distinct edits changes) ≡ true
unfolding distinct
distinct-keeps e edits [] kept = kept
distinct-keeps e edits ((device, none) ∷ rest) kept = distinct-keeps e edits rest kept
distinct-keeps e edits ((device, some f) ∷ rest) kept =
    distinct-keeps e (push_edit edits device f) rest (push_edit-keeps e f edits device kept)

pub changed_yes :
    (device path : String) (base : Option FileEntry) (tree : FsManifest) (heads : Map FsManifest)
    → is_changed base (Map.get path tree.entries) ≡ true
    → changed path base ((device, tree) ∷ heads)
      ≡ (device, Map.get path tree.entries) ∷ changed path base heads
unfolding changed
changed_yes device path base tree heads c = rw c refl

pub changed_no :
    (device path : String) (base : Option FileEntry) (tree : FsManifest) (heads : Map FsManifest)
    → is_changed base (Map.get path tree.entries) ≡ false
    → changed path base ((device, tree) ∷ heads) ≡ changed path base heads
unfolding changed
changed_no device path base tree heads c = rw c refl

-- The edit of a device is among the distinct ones, by its content.
pub distinct-changed :
    (device path : String) (base : Option FileEntry) (tree : FsManifest) (e : FileEntry)
    (edits : List (String × FileEntry)) (heads : Map FsManifest)
    → Map.get device heads ≡ some tree
    → Map.get path tree.entries ≡ some e
    → is_changed base (some e) ≡ true
    → any (edit_has e) (distinct edits (changed path base heads)) ≡ true
unfolding Map.get distinct
distinct-changed device path base tree e edits [] has entry edited = cc
distinct-changed device path base tree e edits ((d, t) ∷ heads) has entry edited =
    elim (Bool-cases (str_eq d device)) [
      | inl same ↦
          let this : t ≡ tree = ground arith in
          let here : Map.get path t.entries ≡ some e =
            ap (λ x. Map.get path x.entries) this ∙ entry in
          rw (changed_yes d path base t heads (ap (is_changed base) here ∙ edited), here)
            (distinct-keeps e (push_edit edits d e) (changed path base heads)
              (push_edit-has e edits d))
      | inr other ↦ elim (Bool-cases (is_changed base (Map.get path t.entries))) [
        | inr kept ↦
            rw (changed_no d path base t heads kept)
              (distinct-changed device path base tree e edits heads (ground arith) entry edited)
        | inl differs ↦ elim (Option-cases (Map.get path t.entries)) [
          | inl absent ↦
              rw (changed_yes d path base t heads differs, absent)
                (distinct-changed device path base tree e edits heads (ground arith) entry edited)
          | inr (f, present) ↦
              rw (changed_yes d path base t heads differs, present)
                (distinct-changed device path base tree e (push_edit edits d f) heads (ground arith)
                  entry edited)
        ]
      ]
    ]
