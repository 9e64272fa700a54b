-- ===== src/Sync/Backup/Logical.antt =====
-- crates/ciss-sync/src/backup.rs: what `logical_tree` takes for the files of a tree.
use ciss.Prelude.{
  String, ◌≡◌, refl, sym, ap, ◌∙◌, ◌⊎◌, inl, inr, none, some, [], ◌∷◌, str_eq, ok, ok_or, >>=-eq-ok,
  ok-injective, arith, eq_iff, Bool-cases, Option-cases, Option,
}
use ciss.Prelude.Map
use ciss.Prelude.Map.{Map, KeysUnique, get-insert}
use ciss.Crypto.{Primitives, Bytes}
use ciss.Sync.{decode}
use ciss.Sync.Tree.{FileEntry, FsManifest, Formats, insert_entry, new_manifest}
use ciss.Sync.Working.{DiskFile, WorkingTree, file_entry_for, get_placeholder}
use ciss.Sync.Backup.{scan_tree, all_placeholders, merge_placeholders, logical_tree}

module _ ⦃p : Primitives⦄ ⦃formats : Formats⦄ where
  -- A file of the tree: it is on the disk with this content, or evicted with this placeholder.
  abbrev pub InTree : WorkingTree → String → FileEntry → Type 0
  InTree tree path entry =
      ((file : DiskFile) × (Map.get path tree.dir ≡ some file) × (entry ≡ file_entry_for file))
      ⊎ ((Map.get path tree.dir ≡ none)
          × (get_placeholder path tree.placeholders ≡ ok (some entry)))

  scanned_as : Option DiskFile → Option FileEntry → Option FileEntry
  scanned_as none before = before
  scanned_as (some file) before = some (file_entry_for file)

  scan_tree-get :
      (path : String) (dir : Map DiskFile) (m : FsManifest)
      → KeysUnique dir
      → Map.get path (scan_tree dir m).entries
        ≡ scanned_as (Map.get path dir) (Map.get path m.entries)
  unfolding scan_tree insert_entry scanned_as Map.get Map.contains_key
  scan_tree-get path [] m u = refl
  scan_tree-get path ((q, file) ∷ dir) m (fresh, u) =
      scan_tree-get path dir (insert_entry q (file_entry_for file) m) u
      ∙ ground (arith, get-insert q path (file_entry_for file) m.entries, eq_iff q path, fresh)

  all_placeholders-get :
      (path : String) (entry : FileEntry) (rows : Map Bytes) {entries : Map FileEntry}
      → all_placeholders rows ≡ ok entries
      → get_placeholder path rows ≡ ok (some entry)
      → Map.get path entries ≡ some entry
  unfolding all_placeholders get_placeholder Map.get
  all_placeholders-get path entry [] h there = absurd (ground (arith, there))
  all_placeholders-get path entry ((q, blob) ∷ rows) h there =
      let (e, read, h1) = >>=-eq-ok (ok_or (formats.entry_from_slice blob) (decode q)) _ h in
      let (rest, others, h2) = >>=-eq-ok (all_placeholders rows) _ h1 in
      ap (Map.get path) (sym (ok-injective h2))
      ∙ get-insert q path e rest
      ∙ elim (Bool-cases (str_eq q path)) [
        | inl here ↦ ground (arith, here, read, there)
        | inr other ↦
            let later : get_placeholder path rows ≡ ok (some entry) =
              ground (arith, other, there) in
            ground (arith, other, all_placeholders-get path entry rows others later)
      ]

  or_else : Option FileEntry → Option FileEntry → Option FileEntry
  or_else (some e) other = some e
  or_else none other = other

  merge_placeholders-get :
      (path : String) (entries : Map FileEntry) (scanned : FsManifest) (rows : Map Bytes)
      → Map.get path (merge_placeholders entries scanned rows).0.entries
        ≡ or_else (Map.get path scanned.entries) (Map.get path entries)
  unfolding merge_placeholders insert_entry or_else Map.get Map.contains_key
  merge_placeholders-get path [] scanned rows = elim (Option-cases (Map.get path scanned.entries)) [
    | inl absent ↦ ground (arith, absent)
    | inr (e, there) ↦ ground (arith, there)
  ]
  merge_placeholders-get path ((q, e) ∷ entries) scanned rows =
      elim (Bool-cases (Map.contains_key q scanned.entries)) [
        | inl taken ↦ ground (
          arith,
          taken,
          merge_placeholders-get path entries scanned (Map.remove q rows),
          eq_iff q path,
        )
        | inr free ↦ ground (
          arith,
          free,
          merge_placeholders-get path entries (insert_entry q e scanned) rows,
          get-insert q path e scanned.entries,
          eq_iff q path,
        )
      ]

  -- The logical tree names each file of the tree by its entry: one on the disk by its content, an
  -- evicted one by its placeholder.
  pub logical_tree-InTree :
      (tree : WorkingTree) (path : String) (entry : FileEntry) {manifest : FsManifest}
      {rows : Map Bytes}
      → KeysUnique tree.dir
      → InTree tree path entry
      → logical_tree tree ≡ ok (manifest, rows)
      → Map.get path manifest.entries ≡ some entry
  unfolding logical_tree new_manifest scanned_as or_else Map.get
  logical_tree-InTree tree path entry u named h =
      let (entries, read, merged) = >>=-eq-ok (all_placeholders tree.placeholders) _ h in
      let scanned = scan_tree tree.dir new_manifest in
      ap (λ (x : FsManifest × Map Bytes). Map.get path x.0.entries) (sym (ok-injective merged))
      ∙ merge_placeholders-get path entries scanned tree.placeholders
      ∙ elim named [
        | inl (file, there, is) ↦
            ground (arith, there, is, scan_tree-get path tree.dir new_manifest u)
        | inr (absent, evicted) ↦ ground (
          arith,
          absent,
          scan_tree-get path tree.dir new_manifest u,
          all_placeholders-get path entry tree.placeholders read evicted,
        )
      ]
