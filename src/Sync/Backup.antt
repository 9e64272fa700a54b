-- ===== src/Sync/Backup.antt =====
-- crates/ciss-sync/src/backup.rs, scan.rs, price.rs and the ledgers of state.rs: the plan of a push and
-- its price. A run without a state, the scan index (a fast path) and the walk through subdirectories are
-- left out, so that the directory is a map from paths to files.
pub mod Push
pub mod Logical
use ciss.Prelude.{
  ℕ, ◌+◌, ◌-◌, String, Bool, true, false, not, ◌&&◌, ◌||◌, Option, none, some, List, [], ◌∷◌, ◌++◌,
  ◌==◌, ltb, any, all, map, retain, length, sum_by, str_eq, if◌then◌else◌, Result, ok, err, ◌>>=◌,
  ◌>>◌, ok_or, refuse_if,
}
use ciss.Prelude.Map
use ciss.Prelude.Map.{Map}
use ciss.Pricing.{postage_cents, rent_cents}
use ciss.Crypto.{Primitives, Bytes}
use ciss.Sync.{SyncError, decode, transport, changed_during_backup}
use ciss.Sync.Tree.{
  ChunkRef, FileEntry, FsManifest, Formats, chunk_cid, chunk_file, content_id, encode_manifest,
  insert_entry, new_manifest,
}
use ciss.Sync.Transport.{missing_blobs}
use ciss.Sync.Cache.{ChunkCache}
use ciss.Sync.Cache
use ciss.Sync.Spend.{SpendLedger}
use ciss.Sync.Spend
use ciss.Sync.Working.{DiskFile, WorkingTree, file_entry_for}

-- What a push calls of the trait `BlobTransport`, on a server with a state.
pub record PushTransport (S : Type 0) : Type 0 where
  pub have : S → Result SyncError (List String)
  pub put : S → String → Bytes → S × Result SyncError (Unit {0})
  pub metered : Bool

-- state.rs: both ledgers see every check and every transfer.
unfoldable pub check_ceilings : SpendLedger → Option SpendLedger → ℕ → Result SyncError (Unit {0})
check_ceilings spend none want_bytes = Spend.check spend want_bytes
check_ceilings spend (some profile) want_bytes =
    Spend.check spend want_bytes >> Spend.check profile want_bytes

unfoldable pub record_spend_all :
    SpendLedger → Option SpendLedger → ℕ → ℕ → Result SyncError (SpendLedger × Option SpendLedger)
record_spend_all spend none ts bytes =
    Spend.record_bytes spend ts bytes >>= λ spend'. ok (spend', none)
record_spend_all spend (some profile) ts bytes = Spend.record_bytes spend ts bytes >>= λ spend'.
    Spend.record_bytes profile ts bytes >>= λ profile'. ok (spend', some profile')

pub record PushPlan : Type 0 where
  pub manifest : FsManifest
  pub manifest_bytes : Bytes
  pub fs_manifest_cid : String
  pub needed : List (String × ℕ)
  pub want : List (String × ℕ)
  pub want_bytes : ℕ
  pub chunks_total : ℕ
  pub chunks_to_upload : ℕ

-- The distinct chunks of the files, each where it was first seen.
unfoldable pub need_chunks : List ChunkRef → List (String × ℕ) → List (String × ℕ)
need_chunks [] needed = needed
need_chunks (c ∷ chunks) needed =
    let cid = chunk_cid c in
    need_chunks chunks (
      if any (λ (blob : String × ℕ). str_eq cid blob.0) needed
      then needed
      else needed ++ (cid, c.len) ∷ [])

unfoldable pub need_entries : Map FileEntry → List (String × ℕ) → List (String × ℕ)
unfolding need_chunks
need_entries [] needed = needed
need_entries ((_, entry) ∷ entries) needed = need_entries entries (need_chunks entry.chunks needed)

abbrev blob_size : String × ℕ → ℕ
blob_size blob = blob.1

module _ ⦃p : Primitives⦄ ⦃formats : Formats⦄ where
  unfoldable pub scan_tree : Map DiskFile → FsManifest → FsManifest
  scan_tree [] manifest = manifest
  scan_tree ((path, file) ∷ dir) manifest =
      scan_tree dir (insert_entry path (file_entry_for file) manifest)

  -- `all`: every placeholder, by its path.
  unfoldable pub all_placeholders : Map Bytes → Result SyncError (Map FileEntry)
  all_placeholders [] = ok []
  all_placeholders ((path, blob) ∷ rows) =
      ok_or (formats.entry_from_slice blob) (decode path) >>= λ entry.
      all_placeholders rows >>= λ rest. ok (Map.insert path entry rest)

  -- A file on disk drops its placeholder, and an evicted file stays in the tree.
  unfoldable pub merge_placeholders :
      Map FileEntry → FsManifest → Map Bytes → FsManifest × Map Bytes
  merge_placeholders [] scanned rows = (scanned, rows)
  merge_placeholders ((path, entry) ∷ entries) scanned rows =
      if Map.contains_key path scanned.entries
      then merge_placeholders entries scanned (Map.remove path rows)
      else merge_placeholders entries (insert_entry path entry scanned) rows

  unfoldable pub logical_tree : WorkingTree → Result SyncError (FsManifest × Map Bytes)
  unfolding scan_tree all_placeholders merge_placeholders
  logical_tree tree = all_placeholders tree.placeholders >>= λ entries.
      ok (merge_placeholders entries (scan_tree tree.dir new_manifest) tree.placeholders)

  -- The plan for a tree, against what the server holds.
  unfoldable pub plan_tree : FsManifest → List String → Result SyncError PushPlan
  unfolding need_entries
  plan_tree manifest have = encode_manifest manifest >>= λ manifest_bytes.
      content_id manifest >>= λ fs_manifest_cid.
      let chunks = need_entries manifest.entries [] in
      let needed = chunks ++ (fs_manifest_cid, length manifest_bytes) ∷ [] in
      let want = missing_blobs needed have in
      ok (record {
        manifest = manifest;
        manifest_bytes = manifest_bytes;
        fs_manifest_cid = fs_manifest_cid;
        needed = needed;
        want = want;
        want_bytes = sum_by blob_size want;
        chunks_total = length chunks;
        chunks_to_upload =
            length (retain (λ (blob : String × ℕ). not (str_eq blob.0 fs_manifest_cid)) want);
      })

-- price.rs
pub record PriceQuote : Type 0 where
  pub files : ℕ
  pub chunks_to_upload : ℕ
  pub chunks_skipped : ℕ
  pub bytes : ℕ
  pub postage_cents : ℕ
  pub at_rest_bytes : ℕ
  pub at_rest_bytes_after : ℕ
  pub rent_cents_per_day : ℕ

abbrev leaves_bytes : Option (List (String × ℕ)) → ℕ
leaves_bytes none = 0
leaves_bytes (some leaves) = sum_by blob_size leaves

-- The quote for a plan, with the committed keep-set.
unfoldable pub price_plan : PushPlan → Option (List (String × ℕ)) → PriceQuote
price_plan plan keep_set = record {
  files = length plan.manifest.entries;
  chunks_to_upload = plan.chunks_to_upload;
  chunks_skipped = plan.chunks_total - plan.chunks_to_upload;
  bytes = plan.want_bytes;
  postage_cents = postage_cents plan.want_bytes;
  at_rest_bytes = leaves_bytes keep_set;
  at_rest_bytes_after = sum_by blob_size plan.needed;
  rent_cents_per_day = rent_cents (sum_by blob_size plan.needed);
}
