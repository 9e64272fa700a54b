-- ===== src/Examples/Evictions.antt =====
-- The claims on eviction, hydration and the fold, applied to concrete inputs.
use ciss.Prelude.{
  ◌≡◌, refl, String, true, false, none, some, List, [], ◌∷◌, Result, ok, err, ◌⊎◌, length, all, map,
}
use ciss.Prelude.Int.{pos}
use ciss.Prelude.Text.{as_bytes}
use ciss.Prelude.Map
use ciss.Prelude.Map.{Map, KeysUnique}
use ciss.Prelude.Text.{concat}
use ciss.Crypto.{Bytes}
use ciss.Sync.{SyncError}
use ciss.Sync.Tree.{
  FileEntry, FsManifest, fs_manifest_kind, to_hex, digest_hex, chunk_cid, chunk_file, chunks_eq,
  new_manifest, insert_entry,
}
use ciss.Sync.Transport.{verify_content, verify_server_cid}
use ciss.Sync.Cache.{open_empty}
use ciss.Sync.Cache
use ciss.Sync.Working.{
  DiskFile, Metadata, restore_metadata, WorkingTree, EvictReport, HydrateReport, file_entry_for,
  unbacked, get_placeholder, evict_files, evict_file, spill, record_placeholder, hydrate_file, land,
  assemble, write_verified_file,
}
use ciss.Sync.Fold.{
  FoldOutcome, Writes, fold, fold_path, fold_paths, decide, changed, distinct, unchanged_entry,
  is_changed, same_content, preserve, rank, sort_ranked, insert_ranked, ranks_before, entry_digest,
  all_paths, add_keys, add_heads, write_all, loser_path,
}
use ciss.Sync.Fold.Lossless.{fold-lossless, Beside}
use ciss.Sync.Working.Evicted.{evict_files-safe, backed}
use ciss.Sync.Working.Hydrated.{hydrate_file_sound, file_of}
use ciss.Sync.Working.Assembled.{Pieces, flatten}
use ciss.Examples.Toy.{toy}
use ciss.Examples.Trees.{toy_formats}

abbrev on_disk : DiskFile
on_disk = record { mode = 420; mtime_secs = pos 7; mtime_nanos = 5; content = 1 ∷ 2 ∷ 3 ∷ [] }

abbrev on_server : List String
on_server = digest_hex ⦃p = toy⦄ (1 ∷ 2 ∷ []) ∷ digest_hex ⦃p = toy⦄ (3 ∷ []) ∷ []

-- A cache of one byte keeps the second of the two chunks.
abbrev tree : WorkingTree
tree = record { dir = ("a.txt", on_disk) ∷ []; cache = open_empty 1; placeholders = [] }

abbrev no_evictions : EvictReport
no_evictions = record { evicted = 0; bytes_freed = 0; chunks_cached = 0 }

abbrev evicted : WorkingTree
evicted =
    (evict_files ⦃p = toy⦄ ⦃formats = toy_formats⦄ on_server on_server ("a.txt" ∷ "b.txt" ∷ []) tree
      no_evictions).0

evict_files-safe_example :
    (Map.get "a.txt" evicted.dir ≡ some on_disk)
    ⊎ ((Map.get "a.txt" evicted.dir ≡ none)
        × (all
              (backed on_server on_server)
              (map chunk_cid (file_entry_for ⦃p = toy⦄ ⦃formats = toy_formats⦄ on_disk).chunks)
            ≡ true)
        × (get_placeholder ⦃p = toy⦄ ⦃formats = toy_formats⦄ "a.txt" evicted.placeholders
            ≡ ok (some (file_entry_for ⦃p = toy⦄ ⦃formats = toy_formats⦄ on_disk))))
unfolding Map.get
evict_files-safe_example =
    evict_files-safe ⦃p = toy⦄ ⦃formats = toy_formats⦄ on_server on_server ("a.txt" ∷ "b.txt" ∷ [])
      "a.txt" on_disk tree no_evictions refl

-- The server gives the chunk that the cache had no room for.
abbrev serve : String → Result SyncError Bytes
serve cid = ok (1 ∷ 2 ∷ [])

abbrev created : String → Metadata
created path = record { mode = 384; mtime_secs = pos 9; mtime_nanos = 0 }

abbrev no_hydrations : HydrateReport
no_hydrations = record {
  files = 0;
  chunks_from_cache = 0;
  chunks_from_server = 0;
  bytes_written = 0;
}

abbrev one_hydration : HydrateReport
one_hydration = record {
  files = 1;
  chunks_from_cache = 1;
  chunks_from_server = 1;
  bytes_written = 3;
}

hydrated :
    (hydrate_file ⦃p = toy⦄ ⦃formats = toy_formats⦄ created serve "a.txt" evicted no_hydrations).1
    ≡ ok one_hydration
unfolding evict_files evict_file hydrate_file Map.get to_hex concat digest_hex Map.remove Map.upsert
    Map.contains_key Cache.get Cache.insert Cache.refuses open_empty Cache.pinned_bytes
    Cache.evict_to_budget Cache.evict_loop Cache.stored Cache.next_seq Cache.insert_best_effort
    Cache.max_seq Cache.remove Cache.total_bytes Cache.update_row Cache.victim verify_content
    verify_server_cid chunk_file assemble file_entry_for get_placeholder land record_placeholder
    spill unbacked write_verified_file restore_metadata Cache.open_cache
hydrated = refl

hydrate_file_sound_example :
    (entry : FileEntry) × (pieces : List Bytes) × (get_placeholder ⦃p = toy⦄ ⦃formats = toy_formats⦄
        "a.txt" evicted.placeholders
      ≡ ok (some entry))
    × (Map.get "a.txt"
          (hydrate_file ⦃p = toy⦄ ⦃formats = toy_formats⦄ created serve "a.txt" evicted
            no_hydrations).0.dir
        ≡ some (file_of ⦃p = toy⦄ ⦃formats = toy_formats⦄ (created "a.txt") entry (flatten pieces)))
    × Pieces ⦃p = toy⦄ entry.chunks pieces
    × (length (flatten pieces) ≡ entry.size)
    × (Map.contains_key "a.txt" evicted.dir ≡ false)
hydrate_file_sound_example =
    hydrate_file_sound ⦃p = toy⦄ ⦃formats = toy_formats⦄ created serve "a.txt" evicted no_hydrations
      one_hydration hydrated

-- Two devices edited one path, against no base.
abbrev edit : Bytes → FileEntry
edit content =
    file_entry_for ⦃p = toy⦄ ⦃formats = toy_formats⦄ (record on_disk { content = content })

abbrev with_edit : Bytes → FsManifest
with_edit content = record { kind = fs_manifest_kind; entries = ("a.txt", edit content) ∷ [] }

abbrev heads : Map FsManifest
heads = ("d", with_edit (1 ∷ 2 ∷ [])) ∷ ("e", with_edit (3 ∷ [])) ∷ []

abbrev writes_or : Result SyncError Writes → Writes
writes_or (ok w) = w
writes_or (err _) = ([], [])

abbrev outcome_or : Result SyncError FoldOutcome → FoldOutcome
outcome_or (ok o) = o
outcome_or (err _) = record { tree = with_edit []; conflicts = [] }

abbrev writes : Writes
writes = writes_or (fold_paths ⦃p = toy⦄ ⦃formats = toy_formats⦄ heads none (all_paths heads none))

abbrev folded : FoldOutcome
folded = outcome_or (fold ⦃p = toy⦄ ⦃formats = toy_formats⦄ heads none)

both_written :
    fold_paths ⦃p = toy⦄ ⦃formats = toy_formats⦄ heads none (all_paths heads none) ≡ ok writes
unfolding fold fold_path fold_paths decide changed distinct unchanged_entry is_changed same_content
    preserve rank sort_ranked insert_ranked ranks_before entry_digest all_paths add_keys add_heads
    write_all loser_path chunks_eq file_entry_for chunk_file digest_hex to_hex concat new_manifest
    insert_entry as_bytes Map.get Map.insert Map.upsert Map.contains_key
both_written = refl

distinct_writes : KeysUnique writes.0
unfolding fold fold_path fold_paths decide changed distinct unchanged_entry is_changed same_content
    preserve rank sort_ranked insert_ranked ranks_before entry_digest all_paths add_keys add_heads
    write_all loser_path chunks_eq file_entry_for chunk_file digest_hex to_hex concat new_manifest
    insert_entry as_bytes Map.get Map.insert Map.upsert Map.contains_key
distinct_writes = (refl, (refl, tt))

tree_folded : fold ⦃p = toy⦄ ⦃formats = toy_formats⦄ heads none ≡ ok folded
unfolding fold fold_path fold_paths decide changed distinct unchanged_entry is_changed same_content
    preserve rank sort_ranked insert_ranked ranks_before entry_digest all_paths add_keys add_heads
    write_all loser_path chunks_eq file_entry_for chunk_file digest_hex to_hex concat new_manifest
    insert_entry as_bytes Map.get Map.insert Map.upsert Map.contains_key
tree_folded = refl

fold-lossless_example :
    (q : String) × (kept : FileEntry) × (Map.get q folded.tree.entries ≡ some kept)
    × (same_content kept (edit (3 ∷ [])) ≡ true)
    × Beside "a.txt" q
unfolding Map.get is_changed
fold-lossless_example =
    fold-lossless ⦃p = toy⦄ ⦃formats = toy_formats⦄ heads none "e" "a.txt" (with_edit (3 ∷ []))
      (edit (3 ∷ [])) writes folded both_written distinct_writes refl refl refl tree_folded
