-- ===== src/Sync/Backup/Push/Backed.antt =====
-- crates/ciss-sync/src/backup.rs: a push of a tree that succeeds leaves the whole tree on the server.
use ciss.Prelude.{
  ℕ, String, ◌≡◌, refl, sym, ap, ◌∙◌, subst, true, List, [], ◌∷◌, ◌++◌, all, map, length, ok, some,
  ◌>>=◌, >>=-eq-ok, ok-injective, inl, inr, arith, Result-cases, Result, Bool, Bool-cases, str_eq,
}
use ciss.Prelude.Map
use ciss.Prelude.Map.{Map, KeysUnique}
use ciss.Crypto.{Primitives, Bytes}
use ciss.Sync.{SyncError}
use ciss.Sync.Tree.{FsManifest, FileEntry, Formats, chunk_cid, encode_manifest, content_id}
use ciss.Sync.Backup.{PushTransport, PushPlan, need_entries, plan_tree, logical_tree}
use ciss.Sync.Backup.Logical.{InTree, logical_tree-InTree}
use ciss.Sync.Backup.Push.Needs.{AllOf, need_entries-only, all-append_first, all-append_last}
use ciss.Sync.Backup.Push.Held.{Honest}
use ciss.Sync.Backup.Push.Kept.{plan_tree-Planned, push_plan-held, push_plan-reported}
use ciss.Sync.Backup.Push.{Pusher, PushedTree, ceilings_pass, push_plan, push_tree}

module _ (test : String → Bool) where
  -- A file that is named has its chunks among those of all files.
  all-get :
      (path : String) (entry : FileEntry) (entries : Map FileEntry)
      → all (λ (e : String × FileEntry). all test (map chunk_cid e.1.chunks)) entries ≡ true
      → Map.get path entries ≡ some entry
      → all test (map chunk_cid entry.chunks) ≡ true
  unfolding Map.get
  all-get path entry ((q, e) ∷ entries) h named = elim (Bool-cases (str_eq q path)) [
    | inl here ↦
        let is : e ≡ entry = ground (arith, here, named) in
        subst (λ (x : FileEntry). all test (map chunk_cid x.chunks) ≡ true) is (ground arith)
    | inr later ↦ all-get path entry entries (ground arith) (ground (arith, later, named))
  ]
  all-get path entry [] h named = absurd (ground (arith, named))

module _ ⦃p : Primitives⦄ ⦃formats : Formats⦄ {S : Type 0} (slot : PushTransport S)
    (honest : Honest slot) where
  open honest use {held}

  plan_tree-named :
      (manifest : FsManifest) (have : List String) (plan : PushPlan)
      → plan_tree manifest have ≡ ok plan
      → (plan.manifest ≡ manifest) × (content_id manifest ≡ ok plan.fs_manifest_cid)
  unfolding plan_tree
  plan_tree-named manifest have plan h =
      let (bytes, _, h1) = >>=-eq-ok (encode_manifest manifest) _ h in
      let (cid, named, h2) = >>=-eq-ok (content_id manifest) _ h1 in
      (
        ap (λ (x : PushPlan). x.manifest) (sym (ok-injective h2)),
        named ∙ ap (λ (x : PushPlan). ok x.fs_manifest_cid) (ok-injective h2),
      )

  -- A push that succeeds is the push of a plan for the logical tree.
  push_tree-planned :
      (ts : ℕ) (q : Pusher S) (report : PushedTree)
      → (push_tree slot ts q).1 ≡ ok report
      → (manifest : FsManifest) × (rows : Map Bytes) × (have : List String) × (plan : PushPlan)
        × (logical_tree q.tree ≡ ok (manifest, rows))
        × (slot.have q.server ≡ ok have)
        × (plan_tree manifest have ≡ ok plan)
        × (push_tree slot ts q
            ≡ push_plan slot ts plan (record q { tree = record q.tree { placeholders = rows } }))
  unfolding push_tree
  push_tree-planned ts q report h = elim (Result-cases (logical_tree q.tree)) [
    | inr (e, bad) ↦ absurd (ground (arith, bad, h))
    | inl ((manifest, rows), logical) ↦
        let q' = record q { tree = record q.tree { placeholders = rows } } in
        let planned = encode_manifest manifest >>= λ _. slot.have q.server >>= plan_tree manifest in
        elim (Result-cases (planned >>= λ plan. ceilings_pass slot plan q' >>= λ _. ok plan)) [
          | inr (e, over) ↦ absurd (ground (arith, logical, over, h))
          | inl (plan, within) ↦
              let (same_plan, made, passed) = >>=-eq-ok planned _ within in
              let (_, _, is) = >>=-eq-ok (ceilings_pass slot same_plan q') _ passed in
              let (bytes, _, made1) = >>=-eq-ok (encode_manifest manifest) _ made in
              let (have, listed, made2) = >>=-eq-ok (slot.have q.server) _ made1 in
              (
                manifest,
                rows,
                have,
                plan,
                logical,
                listed,
                made2 ∙ is,
                rw (push_tree, logical, within) refl,
              )
        ]
  ]

  -- On a server that holds what it lists, stores what it takes and drops nothing, a push of a tree that
  -- succeeds, from a directory with one file for each path, leaves there every chunk of every file of
  -- the tree, of those on the disk as of the evicted ones that only a placeholder names. It leaves a
  -- manifest too that names the file by the same entry, held under its own content address, which the
  -- report gives.
  pub push_tree-held :
      (ts : ℕ) (q : Pusher S) (report : PushedTree) (path : String) (entry : FileEntry)
      → KeysUnique q.tree.dir
      → InTree q.tree path entry
      → (push_tree slot ts q).1 ≡ ok report
      → (all (held (push_tree slot ts q).0.server) (map chunk_cid entry.chunks) ≡ true)
        × (manifest : FsManifest) × (Map.get path manifest.entries ≡ some entry)
        × (content_id manifest ≡ ok report.fs_manifest_cid)
        × (held (push_tree slot ts q).0.server report.fs_manifest_cid ≡ true)
  push_tree-held ts q report path entry unique named h =
      let (manifest, rows, have, plan, logical, listed, planned, is) =
        push_tree-planned ts q report h in
      let q' = record q { tree = record q.tree { placeholders = rows } } in
      let pushed = ap (λ (x : Pusher S × Result SyncError PushedTree). x.1) (sym is) ∙ h in
      let (needed, cid) = push_plan-reported slot honest ts plan q' report pushed in
      let (same_needed, _) = plan_tree-Planned slot honest manifest have plan planned in
      let (same_manifest, addressed) = plan_tree-named manifest have plan planned in
      let kept = push_plan-held slot honest ts manifest have plan q' report listed planned pushed in
      let s = (push_plan slot ts plan q').0.server in
      let blobs = need_entries plan.manifest.entries [] in
      let last = (plan.fs_manifest_cid, length plan.manifest_bytes) ∷ [] in
      let all_held : AllOf (held s) (blobs ++ last) =
        subst (AllOf (held s)) (needed ∙ same_needed) kept in
      let entries_held =
        (need_entries-only (held s) plan.manifest.entries []
          (all-append_first (held s) blobs last all_held)).0 in
      let found =
        ap (λ (m : FsManifest). Map.get path m.entries) same_manifest
        ∙ logical_tree-InTree q.tree path entry unique named logical in
      subst
        (λ (x : Pusher S × Result SyncError PushedTree).
          (all (held x.0.server) (map chunk_cid entry.chunks) ≡ true)
          × (m : FsManifest) × (Map.get path m.entries ≡ some entry)
          × (content_id m ≡ ok report.fs_manifest_cid)
          × (held x.0.server report.fs_manifest_cid ≡ true))
        (sym is)
        (
          all-get (held s) path entry plan.manifest.entries entries_held found,
          manifest,
          logical_tree-InTree q.tree path entry unique named logical,
          addressed ∙ ap ok (sym cid),
          ap (held s) cid ∙ ground (arith, all-append_last (held s) blobs last all_held),
        )
