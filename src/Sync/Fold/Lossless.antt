-- ===== src/Sync/Fold/Lossless.antt =====
-- crates/ciss-sync/src/fold.rs: every content that some device changed is in the folded tree.
use ciss.Prelude.{
  String, ◌≡◌, refl, sym, ap, ◌∙◌, subst, Bool, true, ◌||◌, Option, some, List, [], ◌∷◌, ◌++◌, any,
  map, ok, >>=-eq-ok, ok-injective, ◌⊎◌, inl, inr, arith, All, Within, any-found,
  Within-append_left, Within-append_right,
}
use ciss.Prelude.Map
use ciss.Prelude.Map.{Map, KeysUnique, get-insert}
use ciss.Crypto.{Primitives}
use ciss.Sync.Tree.{FileEntry, FsManifest, Formats, new_manifest}
use ciss.Sync.Fold.{
  FoldOutcome, Ranked, Writes, same_content, is_changed, changed, distinct, loser_path,
  insert_ranked, sort_ranked, preserve, entry_digest, rank, decide, fold_path, fold_paths,
  all_paths, write_all, fold, unchanged_entry, is_delete, base_entry_of,
}
use ciss.Sync.Fold.Edits.{edit_has, distinct-changed}
use ciss.Sync.Fold.Paths.{all_paths-has, write_all-writes}

-- At the path, or beside it as the copy of some device.
abbrev pub Beside : String → String → Type 0
Beside path q = (q ≡ path) ⊎ ((device : String) × (q ≡ loser_path path device))

abbrev ranked_has : FileEntry → Ranked → Bool
ranked_has e r = same_content r.2 e

insert_ranked-any :
    (e : FileEntry) (r : Ranked) (rs : List Ranked)
    → any (ranked_has e) (insert_ranked r rs) ≡ (ranked_has e r || any (ranked_has e) rs)
unfolding insert_ranked
insert_ranked-any e r [] = refl
insert_ranked-any e r (s ∷ rs) = ground (arith, insert_ranked-any e r rs)

sort_ranked-any :
    (e : FileEntry) (rs : List Ranked) → any (ranked_has e) (sort_ranked rs) ≡ any (ranked_has e) rs
unfolding sort_ranked
sort_ranked-any e [] = refl
sort_ranked-any e (r ∷ rs) =
    ground (arith, insert_ranked-any e r (sort_ranked rs), sort_ranked-any e rs)

losers-any :
    (e : FileEntry) (path : String) (rs : List Ranked)
    → any (edit_has e) (map (λ (r : Ranked). (loser_path path r.1, r.2)) rs) ≡ any (ranked_has e) rs
losers-any e path [] = refl
losers-any e path (r ∷ rs) = ground (arith, losers-any e path rs)

losers-Beside :
    (path : String) (rs : List Ranked)
    → All
        (λ (w : String × FileEntry). Beside path w.0)
        (map (λ (r : Ranked). (loser_path path r.1, r.2)) rs)
losers-Beside path [] = tt
losers-Beside path (r ∷ rs) = (inr (r.1, refl), losers-Beside path rs)

preserve-any :
    (e : FileEntry) (path : String) (rs : List Ranked)
    → any (edit_has e) (preserve path rs).0 ≡ any (ranked_has e) rs
unfolding preserve
preserve-any e path [] = refl
preserve-any e path (r ∷ rs) = ground (arith, losers-any e path rs)

preserve-Beside :
    (path : String) (rs : List Ranked)
    → All (λ (w : String × FileEntry). Beside path w.0) (preserve path rs).0
unfolding preserve
preserve-Beside path [] = tt
preserve-Beside path (r ∷ rs) = (inl refl, losers-Beside path rs)

module _ ⦃p : Primitives⦄ ⦃formats : Formats⦄ where
  rank-any :
      (e : FileEntry) (edits : List (String × FileEntry)) (ranked : List Ranked)
      → rank edits ≡ ok ranked
      → any (ranked_has e) ranked ≡ any (edit_has e) edits
  unfolding rank
  rank-any e [] ranked h = ap (any (ranked_has e)) (sym (ok-injective h))
  rank-any e ((device, f) ∷ edits) ranked h =
      let (digest, is_digest, h1) = >>=-eq-ok (entry_digest f) _ h in
      let (rest, is_rest, h2) = >>=-eq-ok (rank edits) _ h1 in
      subst (λ rs. any (ranked_has e) rs ≡ any (edit_has e) ((device, f) ∷ edits)) (ok-injective h2)
        (ground (arith, rank-any e edits rest is_rest))

  decide-any :
      (e : FileEntry) (path : String) (edits : List (String × FileEntry)) (gone : Bool)
      (unchanged : Option FileEntry) (writes : Writes)
      → any (edit_has e) edits ≡ true
      → decide path edits gone unchanged ≡ ok writes
      → (any (edit_has e) writes.0 ≡ true)
        × All (λ (w : String × FileEntry). Beside path w.0) writes.0
  unfolding decide
  decide-any e path [] gone unchanged writes has h = cc
  decide-any e path (edit ∷ []) gone unchanged writes has h =
      subst
        (λ (ws : Writes).
          (any (edit_has e) ws.0 ≡ true) × All (λ (w : String × FileEntry). Beside path w.0) ws.0)
        (ok-injective h) (ground arith, (inl refl, tt))
  decide-any e path (edit ∷ other ∷ edits) gone unchanged writes has h =
      let (ranked, is_ranked, h1) = >>=-eq-ok (rank (edit ∷ other ∷ edits)) _ h in
      subst
        (λ (ws : Writes).
          (any (edit_has e) ws.0 ≡ true) × All (λ (w : String × FileEntry). Beside path w.0) ws.0)
        (ok-injective h1)
        (
          preserve-any e path (sort_ranked ranked)
              ∙ sort_ranked-any e ranked
              ∙ rank-any e (edit ∷ other ∷ edits) ranked is_ranked
              ∙ has,
          preserve-Beside path (sort_ranked ranked),
        )

  fold_path-has :
      (heads : Map FsManifest) (base : Option FsManifest) (device path : String) (tree : FsManifest)
      (e : FileEntry) (writes : Writes)
      → Map.get device heads ≡ some tree
      → Map.get path tree.entries ≡ some e
      → is_changed (base_entry_of base path) (some e) ≡ true
      → fold_path heads base path ≡ ok writes
      → (w : String × FileEntry) × Within w writes.0 × (edit_has e w ≡ true) × Beside path w.0
  unfolding fold_path
  fold_path-has heads base device path tree e writes has entry edited h =
      let base_entry = base_entry_of base path in
      let changes = changed path base_entry heads in
      let (found, beside) =
        decide-any e path (distinct [] changes) (any is_delete changes)
          (unchanged_entry path base_entry base_entry heads) writes
          (distinct-changed device path base_entry tree e [] heads has entry edited) h in
      any-found (edit_has e) (λ w. Beside path w.0) writes.0 found beside

  fold_paths-has :
      (heads : Map FsManifest) (base : Option FsManifest) (path : String) (paths : List String)
      (writes : Writes)
      → Within path paths
      → fold_paths heads base paths ≡ ok writes
      → (here : Writes) × (fold_path heads base path ≡ ok here)
        × ((w : String × FileEntry) → Within w here.0 → Within w writes.0)
  unfolding fold_paths
  fold_paths-has heads base path [] writes within h = elim within [ ]
  fold_paths-has heads base path (q ∷ paths) writes within h =
      let (here, is_here, h1) = >>=-eq-ok (fold_path heads base q) _ h in
      let (rest, is_rest, h2) = >>=-eq-ok (fold_paths heads base paths) _ h1 in
      let same : here.0 ++ rest.0 ≡ writes.0 = ap (λ (ws : Writes). ws.0) (ok-injective h2) in
      elim within [
        | inl this ↦ (
          here,
          subst (λ x. fold_path heads base x ≡ ok here) (sym this) is_here,
          λ w i. subst (Within w) same (Within-append_left w here.0 rest.0 i),
        )
        | inr later ↦
            let (there, is_there, into) = fold_paths-has heads base path paths rest later is_rest in
            (
              there,
              is_there,
              λ w i. subst (Within w) same (Within-append_right w here.0 rest.0 (into w i)),
            )
      ]

  -- When the writes of a fold are to distinct paths (no conflict copy falls on another path of the tree)
  -- no changed content is lost: whatever a device edited or added against the base stands in the
  -- folded tree with the same content, at its path or beside it as the conflict copy of some device.
  pub fold-lossless :
      (heads : Map FsManifest) (base : Option FsManifest) (device path : String) (tree : FsManifest)
      (e : FileEntry) (writes : Writes) (outcome : FoldOutcome)
      → fold_paths heads base (all_paths heads base) ≡ ok writes
      → KeysUnique writes.0
      → Map.get device heads ≡ some tree
      → Map.get path tree.entries ≡ some e
      → is_changed (base_entry_of base path) (some e) ≡ true
      → fold heads base ≡ ok outcome
      → (q : String) × (kept : FileEntry) × (Map.get q outcome.tree.entries ≡ some kept)
        × (same_content kept e ≡ true)
        × Beside path q
  unfolding fold
  fold-lossless heads base device path tree e writes outcome ran unique has entry edited h =
      let (here, is_here, into) =
        fold_paths-has heads base path (all_paths heads base) writes
          (all_paths-has heads base device path tree e has entry) ran in
      let (w, within, same, beside) =
        fold_path-has heads base device path tree e here has entry edited is_here in
      let (writes', ran', h1) = >>=-eq-ok (fold_paths heads base (all_paths heads base)) _ h in
      let agree : writes' ≡ writes = ok-injective (sym ran' ∙ ran) in
      let built : write_all writes.0 new_manifest ≡ outcome.tree =
        ap (λ (ws : Writes). write_all ws.0 new_manifest) (sym agree)
        ∙ ap (λ (o : FoldOutcome). o.tree) (ok-injective h1) in
      (
        w.0,
        w.1,
        ap (λ t. Map.get w.0 t.entries) (sym built)
            ∙ write_all-writes w.0 w.1 writes.0 new_manifest unique (into w within),
        same,
        beside,
      )
