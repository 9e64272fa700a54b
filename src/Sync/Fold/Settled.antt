-- ===== src/Sync/Fold/Settled.antt =====
-- crates/ciss-sync/src/fold.rs: when every device stands at the base, the fold gives the base.
use ciss.Prelude.{
  String, ◌≡◌, refl, sym, ap, ◌∙◌, false, Option, none, some, List, [], ◌∷◌, ◌++◌, ok, inl, inr,
  arith, eq_iff, Option-cases, All, Within, str_eq_refl, not,
}
use ciss.Prelude.Map
use ciss.Prelude.Map.{Map, get-insert}
use ciss.Crypto.{Primitives}
use ciss.Sync.Tree.{FileEntry, FsManifest, Formats, insert_entry, new_manifest}
use ciss.Sync.Fold.{
  FoldOutcome, is_changed, changed, distinct, decide, fold_path, fold_paths, all_paths, write_all,
  fold, unchanged_entry, keep_entry, or_keep,
}
use ciss.Sync.Fold.Edits.{same_content_refl, changed_no}
use ciss.Sync.Fold.Paths.{all_paths-base}

-- A head whose tree has the entries of the base.
abbrev pub At : FsManifest → String × FsManifest → Type 0
At b head = (path : String) → Map.get path head.1.entries ≡ Map.get path b.entries

is_changed-same : (o : Option FileEntry) → is_changed o o ≡ false
unfolding is_changed
is_changed-same none = refl
is_changed-same (some e) = ap not (same_content_refl e)

changed-settled :
    (b : FsManifest) (path : String) (heads : Map FsManifest)
    → All (At b) heads
    → changed path (Map.get path b.entries) heads ≡ []
unfolding changed
changed-settled b path [] all = refl
changed-settled b path ((d, t) ∷ heads) (at, all) =
    changed_no d path (Map.get path b.entries) t heads (
      ap (is_changed (Map.get path b.entries)) (at path) ∙ is_changed-same (Map.get path b.entries))
    ∙ changed-settled b path heads all

or_keep_same : (o : Option FileEntry) → or_keep o o ≡ o
or_keep_same none = refl
or_keep_same (some e) = refl

unchanged_entry-settled :
    (b : FsManifest) (path : String) (heads : Map FsManifest)
    → All (At b) heads
    → unchanged_entry path (Map.get path b.entries) (Map.get path b.entries) heads
      ≡ Map.get path b.entries
unfolding unchanged_entry
unchanged_entry-settled b path [] all = refl
unchanged_entry-settled b path ((d, t) ∷ heads) (at, all) =
    rw (at path, is_changed-same (Map.get path b.entries), or_keep_same (Map.get path b.entries))
      (unchanged_entry-settled b path heads all)

-- The writes of the base at these paths.
abbrev settled : FsManifest → List String → Map FileEntry
settled b [] = []
settled b (path ∷ paths) = keep_entry path (Map.get path b.entries) ++ settled b paths

-- A tree that agrees with the base at a path still does behind the writes.
settled-agrees :
    (b : FsManifest) (q : String) (paths : List String) (tree : FsManifest)
    → Map.get q tree.entries ≡ Map.get q b.entries
    → Map.get q (write_all (settled b paths) tree).entries ≡ Map.get q b.entries
unfolding write_all insert_entry
settled-agrees b q [] tree same = same
settled-agrees b q (path ∷ paths) tree same = elim (Option-cases (Map.get path b.entries)) [
  | inl absent ↦ rw absent (settled-agrees b q paths tree same)
  | inr (e, present) ↦ rw present (
      settled-agrees b q paths (insert_entry path e tree)
        (ground (arith, get-insert path q e tree.entries, eq_iff path q, same, present)))
]

settled-writes :
    (b : FsManifest) (q : String) (e : FileEntry) (paths : List String) (tree : FsManifest)
    → Within q paths
    → Map.get q b.entries ≡ some e
    → Map.get q (write_all (settled b paths) tree).entries ≡ Map.get q b.entries
unfolding write_all insert_entry
settled-writes b q e [] tree within entry = elim within [ ]
settled-writes b q e (path ∷ paths) tree (inl here) entry =
    let at : Map.get path b.entries ≡ some e = ap (λ x. Map.get x b.entries) (sym here) ∙ entry in
    rw at (
      settled-agrees b q paths (insert_entry path e tree)
        (get-insert path q e tree.entries ∙ rw (here, str_eq_refl path) (sym at)))
settled-writes b q e (path ∷ paths) tree (inr later) entry =
    elim (Option-cases (Map.get path b.entries)) [
      | inl absent ↦ rw absent (settled-writes b q e paths tree later entry)
      | inr (f, present) ↦
          rw present (settled-writes b q e paths (insert_entry path f tree) later entry)
    ]

module _ ⦃p : Primitives⦄ ⦃formats : Formats⦄ where
  fold_path-settled :
      (heads : Map FsManifest) (b : FsManifest) (path : String)
      → All (At b) heads
      → fold_path heads (some b) path ≡ ok (keep_entry path (Map.get path b.entries), [])
  unfolding fold_path decide distinct
  fold_path-settled heads b path all =
      rw (changed-settled b path heads all, unchanged_entry-settled b path heads all) refl

  fold_paths-settled :
      (heads : Map FsManifest) (b : FsManifest) (paths : List String)
      → All (At b) heads
      → fold_paths heads (some b) paths ≡ ok (settled b paths, [])
  unfolding fold_paths
  fold_paths-settled heads b [] all = refl
  fold_paths-settled heads b (path ∷ paths) all =
      rw (fold_path-settled heads b path all, fold_paths-settled heads b paths all) refl

  -- When the tree of every head has the entries of the base, the fold succeeds, notes no conflict, and
  -- gives a tree with those entries: a converged state is a fixed point.
  pub fold-settled :
      (heads : Map FsManifest) (b : FsManifest)
      → All (At b) heads
      → (outcome : FoldOutcome) × (fold heads (some b) ≡ ok outcome)
        × (outcome.conflicts ≡ [])
        × ((path : String) → Map.get path outcome.tree.entries ≡ Map.get path b.entries)
  unfolding fold new_manifest Map.get
  fold-settled heads b all =
      let paths = all_paths heads (some b) in
      (
        record { tree = write_all (settled b paths) new_manifest; conflicts = [] },
        rw (fold_paths-settled heads b paths all) refl,
        refl,
        λ path. elim (Option-cases (Map.get path b.entries)) [
          | inl absent ↦ settled-agrees b path paths new_manifest (sym absent)
          | inr (e, entry) ↦
              settled-writes b path e paths new_manifest (all_paths-base heads b path e entry) entry
        ],
      )
