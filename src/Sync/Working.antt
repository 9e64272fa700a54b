-- ===== src/Sync/Working.antt =====
-- crates/ciss-sync/src/evict.rs, hydrate.rs, placeholder.rs and materialize.rs: a tree on disk whose
-- files leave and come back. The directory is a map from paths to files; a file system that fails by
-- itself is outside the model, a missing file is not; so is the temporary name that a file is written
-- under. The mode and the time that a write gives a new file are a parameter.
pub mod Evicted
pub mod Assembled
pub mod Hydrated
use ciss.Prelude.{
  ℕ, ◌+◌, String, Bool, true, false, not, ◌&&◌, ◌||◌, Option, none, some, List, [], ◌∷◌, ◌++◌, ◌==◌,
  any, map, retain, length, str_eq, if◌then◌else◌, Result, ok, err, ◌>>=◌, ok_or, ◌>>◌, refuse_if,
}
use ciss.Prelude.Int.{ℤ, pos, negsuc}
use ciss.Prelude.Map
use ciss.Prelude.Map.{Map}
use ciss.Crypto.{Primitives, Bytes}
use ciss.Sync.{
  SyncError, io, decode, encode, evict_unbacked, no_placeholder, hydrate_would_overwrite,
}
use ciss.Sync.Tree.{ChunkRef, FileEntry, Formats, chunk_cid, chunk_file, digest_hex}
use ciss.Sync.Transport.{BlobTransport, verify_content}
use ciss.Sync.Cache.{ChunkCache, insert_best_effort}
use ciss.Sync.Cache

pub record DiskFile : Type 0 where
  pub mode : ℕ
  pub mtime_secs : ℤ
  pub mtime_nanos : ℕ
  pub content : Bytes

-- The mode and the time of a file.
pub record Metadata : Type 0 where
  pub mode : ℕ
  pub mtime_secs : ℤ
  pub mtime_nanos : ℕ

-- The directory beside the parts of `SyncState` that the two flows use.
pub record WorkingTree : Type 0 where
  pub dir : Map DiskFile
  pub cache : ChunkCache
  pub placeholders : Map Bytes

pub record EvictReport : Type 0 where
  pub evicted : ℕ
  pub bytes_freed : ℕ
  pub chunks_cached : ℕ

pub record HydrateReport : Type 0 where
  pub files : ℕ
  pub chunks_from_cache : ℕ
  pub chunks_from_server : ℕ
  pub bytes_written : ℕ

module _ ⦃p : Primitives⦄ ⦃formats : Formats⦄ where
  -- `file_entry_for`, behind the reading of the metadata.
  unfoldable pub file_entry_for : DiskFile → FileEntry
  unfolding chunk_file
  file_entry_for file = record {
    mode = file.mode;
    mtime_secs = file.mtime_secs;
    mtime_nanos = file.mtime_nanos;
    size = length file.content;
    chunks = map (λ (c : ChunkRef × Bytes). c.0) (chunk_file file.content);
  }

  -- The placeholder store: `record`, `get` and `remove`.
  unfoldable pub record_placeholder : String → FileEntry → Map Bytes → Result SyncError (Map Bytes)
  record_placeholder path entry rows =
      ok_or (formats.entry_to_vec entry) (encode path) >>= λ blob. ok (Map.upsert path blob rows)

  unfoldable pub get_placeholder : String → Map Bytes → Result SyncError (Option FileEntry)
  get_placeholder path rows = elim (Map.get path rows) [
    | none ↦ ok none
    | some blob ↦ ok_or (formats.entry_from_slice blob) (decode path) >>= λ entry. ok (some entry)
  ]

  -- The chunks of a file that are not provably backed.
  unfoldable pub unbacked : List String → List String → FileEntry → List String
  unbacked have keep entry =
      retain (λ cid. not (any (str_eq cid) have) || not (any (str_eq cid) keep))
        (map chunk_cid entry.chunks)

  unfoldable pub spill : List (ChunkRef × Bytes) → ChunkCache → ℕ → ChunkCache × ℕ
  unfolding insert_best_effort
  spill [] cache cached = (cache, cached)
  spill ((c, piece) ∷ chunks) cache cached =
      let (cache', kept) = insert_best_effort cache (chunk_cid c) piece in
      spill chunks cache' (if kept then cached + 1 else cached)

  -- One file of the loop of `evict`: spill, record, delete, in this order.
  unfoldable pub evict_file :
      List String
      → List String
      → String
      → WorkingTree
      → EvictReport
      → WorkingTree × Result SyncError EvictReport
  unfolding spill file_entry_for unbacked record_placeholder
  evict_file have keep path tree report = elim (Map.get path tree.dir) [
    | none ↦ (tree, err (io path))
    | some file ↦
        let entry = file_entry_for file in
        elim (unbacked have keep entry) [
          | cid ∷ cids ↦ (tree, err (evict_unbacked path (cid ∷ cids)))
          | [] ↦
              let (cache, cached) =
                spill (chunk_file file.content) tree.cache report.chunks_cached in
              elim (record_placeholder path entry tree.placeholders) [
                | err e ↦ (record tree { cache = cache }, err e)
                | ok rows ↦ (
                  record { dir = Map.remove path tree.dir; cache = cache; placeholders = rows },
                  ok (record {
                    evicted = report.evicted + 1;
                    bytes_freed = report.bytes_freed + entry.size;
                    chunks_cached = cached;
                  }),
                )
              ]
        ]
  ]

  unfoldable pub evict_files :
      List String
      → List String
      → List String
      → WorkingTree
      → EvictReport
      → WorkingTree × Result SyncError EvictReport
  unfolding evict_file
  evict_files have keep [] tree report = (tree, ok report)
  evict_files have keep (path ∷ paths) tree report =
      let (tree', done) = evict_file have keep path tree report in
      elim done [ err e ↦ (tree', err e) | ok report' ↦ evict_files have keep paths tree' report' ]

  -- What the chunks of one file come to: their bytes, and where they came from.
  unfoldable pub assemble :
      (String → Result SyncError Bytes)
      → List ChunkRef
      → ChunkCache
      → HydrateReport
      → Bytes
      → ChunkCache × Result SyncError (HydrateReport × Bytes)
  unfolding insert_best_effort
  assemble fetch [] cache report content = (cache, ok (report, content))
  assemble fetch (c ∷ chunks) cache report content =
      let (cache', found) = Cache.get cache (chunk_cid c) in
      elim found [
        | some bytes ↦
            assemble fetch chunks cache'
              (record report { chunks_from_cache = report.chunks_from_cache + 1 })
              (content ++ bytes)
        | none ↦ elim (fetch (chunk_cid c)) [
          | err e ↦ (cache', err e)
          | ok bytes ↦ elim (verify_content (chunk_cid c) bytes) [
            | err e ↦ (cache', err e)
            | ok _ ↦
                assemble fetch chunks (insert_best_effort cache' (chunk_cid c) bytes).0
                  (record report { chunks_from_server = report.chunks_from_server + 1 })
                  (content ++ bytes)
          ]
        ]
      ]

  -- The mode is set; the time is set unless it is before 1970.
  unfoldable pub restore_metadata : FileEntry → DiskFile → DiskFile
  restore_metadata entry file =
      let permitted = record file { mode = entry.mode } in
      elim entry.mtime_secs [
        | pos secs ↦ record permitted { mtime_secs = pos secs; mtime_nanos = entry.mtime_nanos }
        | negsuc _ ↦ permitted
      ]

  -- `write_verified_file`: the file that lands, as the write creates it and with the metadata of its
  -- entry.
  unfoldable pub write_verified_file :
      Metadata → String → FileEntry → Bytes → Map DiskFile → Result SyncError (Map DiskFile)
  unfolding restore_metadata
  write_verified_file created path entry content dir =
      let written : DiskFile = record {
        mode = created.mode;
        mtime_secs = created.mtime_secs;
        mtime_nanos = created.mtime_nanos;
        content = content;
      } in
      refuse_if (not (length content == entry.size)) (decode path)
      >> ok (Map.upsert path (restore_metadata entry written) dir)

  -- The file of an entry that is taken down to one path, from the cache or from the server.
  unfoldable pub land :
      (String → Metadata)
      → (String → Result SyncError Bytes)
      → String
      → FileEntry
      → WorkingTree
      → HydrateReport
      → WorkingTree × Result SyncError HydrateReport
  unfolding assemble write_verified_file
  land create fetch path entry tree report =
      let (cache, assembled) = assemble fetch entry.chunks tree.cache report [] in
      elim assembled [
        | err e ↦ (record tree { cache = cache }, err e)
        | ok got ↦ elim (write_verified_file (create path) path entry got.1 tree.dir) [
          | err e ↦ (record tree { cache = cache }, err e)
          | ok dir ↦ (
            record { dir = dir; cache = cache; placeholders = Map.remove path tree.placeholders },
            ok (record got.0 {
              files = got.0.files + 1;
              bytes_written = got.0.bytes_written + entry.size;
            }),
          )
        ]
      ]

  unfoldable pub hydrate_file :
      (String → Metadata)
      → (String → Result SyncError Bytes)
      → String
      → WorkingTree
      → HydrateReport
      → WorkingTree × Result SyncError HydrateReport
  unfolding land get_placeholder
  hydrate_file create fetch path tree report = elim (get_placeholder path tree.placeholders) [
    | err e ↦ (tree, err e)
    | ok found ↦ elim found [
      | none ↦ (tree, err (no_placeholder path))
      | some entry ↦
          if Map.contains_key path tree.dir
          then (tree, err (hydrate_would_overwrite path))
          else land create fetch path entry tree report
    ]
  ]

  unfoldable pub hydrate_files :
      (String → Metadata)
      → (String → Result SyncError Bytes)
      → List String
      → WorkingTree
      → HydrateReport
      → WorkingTree × Result SyncError HydrateReport
  unfolding hydrate_file
  hydrate_files create fetch [] tree report = (tree, ok report)
  hydrate_files create fetch (path ∷ paths) tree report =
      let (tree', done) = hydrate_file create fetch path tree report in
      elim done [
        | err e ↦ (tree', err e)
        | ok report' ↦ hydrate_files create fetch paths tree' report'
      ]
