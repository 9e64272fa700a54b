-- ===== src/Examples/Pushed.antt =====
-- The claims on the push of a tree, applied to concrete inputs.
use ciss.Prelude.{
  inl, some, map, Bool, ◌≡◌, refl, sym, subst, String, true, false, none, List, [], ◌∷◌, Result, ok,
  err, any, all, str_eq, str_eq_refl, ok-injective, arith,
}
use ciss.Prelude.Int.{pos}
use ciss.Prelude.Map
use ciss.Prelude.Map.{Map, KeysUnique}
use ciss.Prelude.Text.{as_bytes, concat}
use ciss.Sync.{SyncError}
use ciss.Sync.Tree.{
  FileEntry, FsManifest, fs_manifest_kind, to_hex, digest_hex, chunk_file, chunk_cid, insert_entry,
  new_manifest, content_id, encode_manifest,
}
use ciss.Sync.Transport.{missing_blobs}
use ciss.Sync.Cache.{open_empty}
use ciss.Sync.Spend.{SpendLedger}
use ciss.Sync.Working.{DiskFile, file_entry_for}
use ciss.Sync.Backup.{
  PushTransport, plan_tree, need_entries, need_chunks, logical_tree, scan_tree, all_placeholders,
  merge_placeholders,
}
use ciss.Sync.Backup.Push.{
  Pusher, PushedTree, push_tree, push_plan, push_entries, push_entry, push_manifest, upload,
  upload_pieces, index_pieces,
}
use ciss.Sync.Backup.Push.Held.{Honest}
use ciss.Sync.Backup.Push.Backed.{push_tree-held}
use ciss.Sync.Backup.Logical.{InTree}
use ciss.Examples.Toy.{toy}
use ciss.Examples.Trees.{toy_formats}

-- A server that is the list of the cids it holds.
abbrev shelf : PushTransport (List String)
shelf = record {
  have = λ cids. ok cids;
  put = λ cids cid bytes. (cid ∷ cids, ok tt);
  metered = false;
}

listed :
    (s cids : List String) (cid : String)
    → ◌≡◌ {A = Result SyncError (List String)} (ok s) (ok cids)
    → any (str_eq cid) cids ≡ true
    → any (str_eq cid) s ≡ true
listed s cids cid same has = subst (λ l. any (str_eq cid) l ≡ true) (sym (ok-injective same)) has

put_first : (s : List String) (cid : String) → any (str_eq cid) (cid ∷ s) ≡ true
put_first s cid = rw (str_eq_refl cid) refl

put_later :
    (s : List String) (cid k : String) → any (str_eq k) s ≡ true → any (str_eq k) (cid ∷ s) ≡ true
put_later s cid k has = ground (arith, has)

abbrev shelf_honest : Honest shelf
shelf_honest = record {
  held = λ s cid. any (str_eq cid) s;
  have-held = listed;
  put-held = λ s cid bytes _. put_first s cid;
  put-keeps = λ s cid bytes k has. put_later s cid k has;
}

abbrev on_disk : DiskFile
on_disk = record { mode = 420; mtime_secs = pos 7; mtime_nanos = 5; content = 1 ∷ 2 ∷ 3 ∷ [] }

abbrev entry : FileEntry
entry = file_entry_for ⦃p = toy⦄ ⦃formats = toy_formats⦄ on_disk

abbrev manifest : FsManifest
manifest = record { kind = fs_manifest_kind; entries = ("a.txt", entry) ∷ [] }

-- The first of the two chunks is there already.
abbrev before : List String
before = digest_hex ⦃p = toy⦄ (1 ∷ 2 ∷ []) ∷ []

abbrev no_spend : SpendLedger
no_spend = record { scope = "tree"; config = []; spend = [] }

abbrev pusher : Pusher (List String)
pusher = record {
  server = before;
  tree = record { dir = ("a.txt", on_disk) ∷ []; cache = open_empty 0; placeholders = [] };
  spend = no_spend;
  profile_spend = none;
}

abbrev report_or : Result SyncError PushedTree → PushedTree
report_or (ok p) = p
report_or (err _) = record {
  files = 0;
  chunks_total = 0;
  chunks_uploaded = 0;
  bytes_uploaded = 0;
  fs_manifest_cid = "";
  needed = [];
}

abbrev report : PushedTree
report = report_or (push_tree ⦃p = toy⦄ ⦃formats = toy_formats⦄ shelf 5 pusher).1

pushed : (push_tree ⦃p = toy⦄ ⦃formats = toy_formats⦄ shelf 5 pusher).1 ≡ ok report
unfolding plan_tree need_entries need_chunks missing_blobs push_tree push_plan push_entries
    push_entry push_manifest upload upload_pieces index_pieces content_id encode_manifest chunk_file
    digest_hex to_hex concat file_entry_for as_bytes Map.get Map.upsert Map.insert Map.contains_key
    logical_tree scan_tree all_placeholders merge_placeholders insert_entry new_manifest
pushed = refl

-- One chunk and the manifest moved.
uploads : report.chunks_uploaded ≡ 1
unfolding plan_tree need_entries need_chunks missing_blobs push_tree push_plan push_entries
    push_entry push_manifest upload upload_pieces index_pieces content_id encode_manifest chunk_file
    digest_hex to_hex concat file_entry_for as_bytes Map.get Map.upsert Map.insert Map.contains_key
    logical_tree scan_tree all_placeholders merge_placeholders insert_entry new_manifest
uploads = refl

only_file : KeysUnique pusher.tree.dir
unfolding Map.contains_key Map.get
only_file = (refl, tt)

there : InTree ⦃p = toy⦄ ⦃formats = toy_formats⦄ pusher.tree "a.txt" entry
unfolding Map.get
there = inl (on_disk, refl, refl)

abbrev held_after : String → Bool
held_after cid =
    any (str_eq cid) (push_tree ⦃p = toy⦄ ⦃formats = toy_formats⦄ shelf 5 pusher).0.server

push_tree-held_example :
    (all held_after (map chunk_cid entry.chunks) ≡ true)
    × (m : FsManifest) × (Map.get "a.txt" m.entries ≡ some entry)
    × (content_id ⦃p = toy⦄ ⦃formats = toy_formats⦄ m ≡ ok report.fs_manifest_cid)
    × (held_after report.fs_manifest_cid ≡ true)
push_tree-held_example =
    push_tree-held ⦃p = toy⦄ ⦃formats = toy_formats⦄ shelf shelf_honest 5 pusher report "a.txt"
      entry only_file there pushed
