-- ===== src/Sync/Backup/Push.antt =====
-- crates/ciss-sync/src/backup.rs: what a push uploads, in its order.
pub mod Needs
pub mod Held
pub mod Kept
pub mod Backed
pub mod Deferred
use ciss.Prelude.{
  ℕ, ◌+◌, String, Bool, true, false, not, ◌&&◌, ◌||◌, Option, none, some, List, [], ◌∷◌, ◌==◌, ltb,
  any, all, map, length, str_eq, if◌then◌else◌, Result, ok, err, ◌>>=◌,
}
use ciss.Prelude.Map
use ciss.Prelude.Map.{Map}
use ciss.Crypto.{Primitives, Bytes}
use ciss.Sync.{SyncError, transport, changed_during_backup}
use ciss.Sync.Tree.{ChunkRef, FileEntry, Formats, chunk_cid, chunk_file, encode_manifest}
use ciss.Sync.Cache.{ChunkCache}
use ciss.Sync.Cache
use ciss.Sync.Spend.{SpendLedger}
use ciss.Sync.Working.{DiskFile, WorkingTree}
use ciss.Sync.Backup.{
  PushTransport, PushPlan, check_ceilings, record_spend_all, logical_tree, plan_tree,
}

-- The server, the cache and the counts that the loop of uploads moves.
pub record Uploading (S : Type 0) : Type 0 where
  pub server : S
  pub cache : ChunkCache
  pub chunks : ℕ
  pub bytes : ℕ

abbrev pub Uploaded : Type 0 → Type 0
Uploaded S = Uploading S × Result SyncError (Unit {0})

abbrev pub wanted : List (String × ℕ) → String → Bool
wanted want cid = any (λ (blob : String × ℕ). str_eq cid blob.0) want

-- One `put`, counted as a chunk when it succeeds; then the rest.
unfoldable pub upload :
    {S : Type 0}
    → PushTransport S
    → String
    → Bytes
    → Uploading S
    → (Uploading S → Uploaded S)
    → Uploaded S
upload slot cid piece u next =
    let (server, answer) = slot.put u.server cid piece in
    elim answer [
      | err e ↦ (record u { server = server }, err e)
      | ok _ ↦ next (record {
        server = server;
        cache = u.cache;
        chunks = u.chunks + 1;
        bytes = u.bytes + length piece;
      })
    ]

-- `by_cid[cid]`: the caller has checked that the key is there.
unfoldable pub upload_pieces :
    {S : Type 0}
    → PushTransport S
    → String
    → List (String × ℕ)
    → Map Bytes
    → List String
    → Uploading S
    → Uploaded S
unfolding upload
upload_pieces slot path want by_cid [] u = (u, ok tt)
upload_pieces slot path want by_cid (cid ∷ cids) u =
    if not (wanted want cid)
    then upload_pieces slot path want by_cid cids u
    else elim (Map.get cid by_cid) [
      | none ↦ (u, err (changed_during_backup path))
      | some piece ↦ upload slot cid piece u (λ u'. upload_pieces slot path want by_cid cids u')
    ]

unfoldable pub index_pieces : List (ChunkRef × Bytes) → Map Bytes → Map Bytes
index_pieces [] by_cid = by_cid
index_pieces ((c, piece) ∷ chunks) by_cid =
    index_pieces chunks (Map.upsert (chunk_cid c) piece by_cid)

module _ ⦃p : Primitives⦄ where
  unfoldable pub recover_evicted_from_cache :
      {S : Type 0}
      → PushTransport S
      → String
      → List (String × ℕ)
      → List String
      → Uploading S
      → Uploaded S
  unfolding upload
  recover_evicted_from_cache slot path want [] u = (u, ok tt)
  recover_evicted_from_cache slot path want (cid ∷ cids) u =
      if not (wanted want cid)
      then recover_evicted_from_cache slot path want cids u
      else (let (cache, found) = Cache.get u.cache cid in
          let u' = record u { cache = cache } in
          elim found [
            | none ↦ (u', err (transport path))
            | some bytes ↦
                upload slot cid bytes u' (λ v. recover_evicted_from_cache slot path want cids v)
          ])

module _ ⦃p : Primitives⦄ ⦃formats : Formats⦄ where
  -- One file of the loop.
  unfoldable pub push_entry :
      {S : Type 0}
      → PushTransport S
      → Map DiskFile
      → List (String × ℕ)
      → String
      → FileEntry
      → Uploading S
      → Uploaded S
  unfolding upload_pieces recover_evicted_from_cache
  push_entry slot dir want path entry u =
      let cids = map chunk_cid entry.chunks in
      if not (any (wanted want) cids) then (u, ok tt) else elim (Map.get path dir) [
        | none ↦ recover_evicted_from_cache slot path want cids u
        | some file ↦
            let rechunked = chunk_file file.content in
            let by_cid = index_pieces rechunked [] in
            if not (length rechunked == length entry.chunks)
              || not (all (λ cid. Map.contains_key cid by_cid) cids)
            then (u, err (changed_during_backup path))
            else upload_pieces slot path want by_cid cids u
      ]

  unfoldable pub push_entries :
      {S : Type 0}
      → PushTransport S
      → Map DiskFile
      → List (String × ℕ)
      → Map FileEntry
      → Uploading S
      → Uploaded S
  unfolding push_entry
  push_entries slot dir want [] u = (u, ok tt)
  push_entries slot dir want ((path, entry) ∷ entries) u =
      let (u', done) = push_entry slot dir want path entry u in
      elim done [ err e ↦ (u', err e) | ok _ ↦ push_entries slot dir want entries u' ]

-- The manifest of the tree, which is no chunk.
unfoldable pub push_manifest :
    {S : Type 0} → PushTransport S → List (String × ℕ) → String → Bytes → Uploading S → Uploaded S
push_manifest slot want cid manifest_bytes u =
    if not (wanted want cid)
    then (u, ok tt)
    else (let (server, answer) = slot.put u.server cid manifest_bytes in
        elim answer [
          | err e ↦ (record u { server = server }, err e)
          | ok _ ↦ (record u { server = server; bytes = u.bytes + length manifest_bytes }, ok tt)
        ])

-- Everything that a push reads and changes.
pub record Pusher (S : Type 0) : Type 0 where
  pub server : S
  pub tree : WorkingTree
  pub spend : SpendLedger
  pub profile_spend : Option SpendLedger

pub record PushedTree : Type 0 where
  pub files : ℕ
  pub chunks_total : ℕ
  pub chunks_uploaded : ℕ
  pub bytes_uploaded : ℕ
  pub fs_manifest_cid : String
  pub needed : List (String × ℕ)

abbrev pub uploaded_tree : {S : Type 0} → Pusher S → Uploading S → Pusher S
uploaded_tree q u = record q { server = u.server; tree = record q.tree { cache = u.cache } }

module _ ⦃p : Primitives⦄ ⦃formats : Formats⦄ {S : Type 0} where
  -- The uploads of a plan, and the entry of the transfer in the ledgers.
  unfoldable pub push_plan :
      PushTransport S → ℕ → PushPlan → Pusher S → Pusher S × Result SyncError PushedTree
  unfolding push_entries push_manifest
  push_plan slot ts plan q =
      let start : Uploading S = record {
        server = q.server;
        cache = q.tree.cache;
        chunks = 0;
        bytes = 0;
      } in
      let (files, pushed) = push_entries slot q.tree.dir plan.want plan.manifest.entries start in
      elim pushed [
        | err e ↦ (uploaded_tree q files, err e)
        | ok _ ↦
            let (u, sent) =
              push_manifest slot plan.want plan.fs_manifest_cid plan.manifest_bytes files in
            let report : PushedTree = record {
              files = length plan.manifest.entries;
              chunks_total = plan.chunks_total;
              chunks_uploaded = u.chunks;
              bytes_uploaded = u.bytes;
              fs_manifest_cid = plan.fs_manifest_cid;
              needed = plan.needed;
            } in
            elim sent [
              | err e ↦ (uploaded_tree q u, err e)
              | ok _ ↦
                  if ltb 0 u.bytes && slot.metered
                  then elim (record_spend_all q.spend q.profile_spend ts u.bytes) [
                    | err e ↦ (uploaded_tree q u, err e)
                    | ok ledgers ↦ (
                      record (uploaded_tree q u) { spend = ledgers.0; profile_spend = ledgers.1 },
                      ok report,
                    )
                  ]
                  else (uploaded_tree q u, ok report)
            ]
      ]

  -- The ceilings, before any byte moves; a free transport has none.
  abbrev pub ceilings_pass : PushTransport S → PushPlan → Pusher S → Result SyncError (Unit {0})
  ceilings_pass slot plan q =
      if slot.metered then check_ceilings q.spend q.profile_spend plan.want_bytes else ok tt

  unfoldable pub push_tree : PushTransport S → ℕ → Pusher S → Pusher S × Result SyncError PushedTree
  unfolding push_plan logical_tree plan_tree check_ceilings
  push_tree slot ts q = elim (logical_tree q.tree) [
    | err e ↦ (q, err e)
    | ok logical ↦
        let q' = record q { tree = record q.tree { placeholders = logical.1 } } in
        let planned =
          encode_manifest logical.0 >>= λ _. slot.have q.server >>= plan_tree logical.0 in
        elim (planned >>= λ plan. ceilings_pass slot plan q' >>= λ _. ok plan) [
          | err e ↦ (q', err e)
          | ok plan ↦ push_plan slot ts plan q'
        ]
  ]
