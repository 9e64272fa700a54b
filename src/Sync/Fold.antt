-- ===== src/Sync/Fold.antt =====
-- crates/ciss-sync/src/fold.rs: the tree that a device derives from the heads of all devices and from
-- the base, path by path. The inserts into the tree are a list of writes, made in its order.
pub mod Edits
pub mod Paths
pub mod Lossless
pub mod Settled
use ciss.Prelude.{
  ℕ, String, ◌≡◌, Bool, true, false, not, ◌&&◌, ◌||◌, Option, none, some, List, [], ◌∷◌, ◌++◌, ◌==◌,
  any, map, if◌then◌else◌, Result, ok, err, ◌>>=◌, ok_or,
}
use ciss.Prelude.Map
use ciss.Prelude.Map.{Map}
use ciss.Prelude.Text.{concat}
use ciss.Crypto.{Primitives, Bytes}
use ciss.Sync.{SyncError, encode}
use ciss.Sync.Tree.{
  FileEntry, FsManifest, Formats, chunks_eq, digest_hex, new_manifest, insert_entry,
}
use Prim.Native.String
use Prim.Native.Nat.{Ordering}

pub record ConflictNote : Type 0 where
  pub path : String
  pub winner : String
  pub loser : String
  pub loser_path : String

pub record FoldOutcome : Type 0 where
  pub tree : FsManifest
  pub conflicts : List ConflictNote

unfoldable pub same_content : FileEntry → FileEntry → Bool
same_content a b = a.size == b.size && chunks_eq a.chunks b.chunks

-- Whether a head changed a path against the base: an edit, an addition or a deletion.
unfoldable pub is_changed : Option FileEntry → Option FileEntry → Bool
is_changed (some b) (some e) = not (same_content b e)
is_changed none (some e) = true
is_changed (some b) none = true
is_changed none none = false

unfoldable pub changed :
    String → Option FileEntry → Map FsManifest → List (String × Option FileEntry)
changed path base [] = []
changed path base ((device, head_tree) ∷ heads) =
    let rest = changed path base heads in
    let entry = Map.get path head_tree.entries in
    if is_changed base entry then (device, entry) ∷ rest else rest

abbrev or_keep : Option FileEntry → Option FileEntry → Option FileEntry
or_keep (some e) kept = some e
or_keep none kept = kept

-- The entry that the last unchanged head carries, or else the one before the loop.
unfoldable pub unchanged_entry :
    String → Option FileEntry → Option FileEntry → Map FsManifest → Option FileEntry
unchanged_entry path base kept [] = kept
unchanged_entry path base kept ((device, head_tree) ∷ heads) =
    let entry = Map.get path head_tree.entries in
    let next = if is_changed base entry then kept else or_keep entry kept in
    unchanged_entry path base next heads

abbrev pub push_edit : List (String × FileEntry) → String → FileEntry → List (String × FileEntry)
push_edit edits device e =
    if any (λ (kept : String × FileEntry). same_content kept.1 e) edits
    then edits
    else edits ++ (device, e) ∷ []

-- The distinct contents among the changes, each with the first device that has it.
unfoldable pub distinct :
    List (String × FileEntry) → List (String × Option FileEntry) → List (String × FileEntry)
distinct edits [] = edits
distinct edits ((device, none) ∷ rest) = distinct edits rest
distinct edits ((device, some e) ∷ rest) = distinct (push_edit edits device e) rest

abbrev pub is_delete : String × Option FileEntry → Bool
is_delete (device, none) = true
is_delete (device, some _) = false

unfoldable pub loser_path : String → String → String
loser_path path device = concat (path ∷ ".conflict-" ∷ device ∷ [])

abbrev pub Ranked : Type 0
Ranked = String × String × FileEntry

-- `(digest, device)` in the order of pairs.
unfoldable pub ranks_before : Ranked → Ranked → Bool
ranks_before (d, a, _) (e, b, _) = elim (String.compare d e) [
  | Ordering.lt ↦ true
  | Ordering.gt ↦ false
  | Ordering.eq ↦ elim (String.compare a b) [ Ordering.gt ↦ false | _ ↦ true ]
]

unfoldable pub insert_ranked : Ranked → List Ranked → List Ranked
insert_ranked r [] = r ∷ []
insert_ranked r (s ∷ rest) =
    let later = insert_ranked r rest in if ranks_before r s then r ∷ s ∷ rest else s ∷ later

unfoldable pub sort_ranked : List Ranked → List Ranked
sort_ranked [] = []
sort_ranked (r ∷ rest) = insert_ranked r (sort_ranked rest)

-- What one path adds: the writes to the tree, and the notes.
abbrev pub Writes : Type 0
Writes = Map FileEntry × List ConflictNote

-- The winner keeps the path, and the others move aside.
unfoldable pub preserve : String → List Ranked → Writes
preserve path [] = ([], [])
preserve path ((_, winner, winner_entry) ∷ losers) = (
  (path, winner_entry) ∷ map (λ (r : Ranked). (loser_path path r.1, r.2)) losers,
  map
      (λ (r : Ranked). record {
        path = path;
        winner = winner;
        loser = r.1;
        loser_path = loser_path path r.1;
      })
      losers,
)

abbrev pub keep_entry : String → Option FileEntry → Map FileEntry
keep_entry path none = []
keep_entry path (some e) = (path, e) ∷ []

abbrev pub base_entry_of : Option FsManifest → String → Option FileEntry
base_entry_of none path = none
base_entry_of (some b) path = Map.get path b.entries

module _ ⦃p : Primitives⦄ ⦃formats : Formats⦄ where
  unfoldable pub entry_digest : FileEntry → Result SyncError String
  entry_digest entry =
      ok_or (formats.entry_to_vec entry) (encode "entry digest") >>= λ bytes. ok (digest_hex bytes)

  unfoldable pub rank : List (String × FileEntry) → Result SyncError (List Ranked)
  unfolding entry_digest
  rank [] = ok []
  rank ((device, e) ∷ edits) =
      entry_digest e >>= λ digest. rank edits >>= λ ranked. ok ((digest, device, e) ∷ ranked)

  -- The four cases of a path.
  unfoldable pub decide :
      String → List (String × FileEntry) → Bool → Option FileEntry → Result SyncError Writes
  unfolding preserve rank sort_ranked
  decide path [] false unchanged = ok (keep_entry path unchanged, [])
  decide path [] true unchanged = ok ([], [])
  decide path (edit ∷ []) any_delete unchanged = ok ((path, edit.1) ∷ [], [])
  decide path (edit ∷ other ∷ edits) any_delete unchanged =
      rank (edit ∷ other ∷ edits) >>= λ ranked. ok (preserve path (sort_ranked ranked))

  unfoldable pub fold_path : Map FsManifest → Option FsManifest → String → Result SyncError Writes
  unfolding decide changed distinct unchanged_entry
  fold_path heads base path =
      let base_entry = base_entry_of base path in
      let changes = changed path base_entry heads in
      decide path (distinct [] changes) (any is_delete changes)
        (unchanged_entry path base_entry base_entry heads)

  unfoldable pub fold_paths :
      Map FsManifest → Option FsManifest → List String → Result SyncError Writes
  unfolding fold_path
  fold_paths heads base [] = ok ([], [])
  fold_paths heads base (path ∷ paths) = fold_path heads base path >>= λ here.
      fold_paths heads base paths >>= λ rest. ok (here.0 ++ rest.0, here.1 ++ rest.1)

unfoldable pub add_keys : Map FileEntry → Map (Unit {0}) → Map (Unit {0})
add_keys [] paths = paths
add_keys ((path, _) ∷ entries) paths = add_keys entries (Map.insert path tt paths)

unfoldable pub add_heads : Map FsManifest → Map (Unit {0}) → Map (Unit {0})
unfolding add_keys
add_heads [] paths = paths
add_heads ((_, tree) ∷ heads) paths = add_heads heads (add_keys tree.entries paths)

-- Every path of a head or of the base, in order.
unfoldable pub all_paths : Map FsManifest → Option FsManifest → List String
unfolding add_keys add_heads
all_paths heads none = map (λ e. e.0) (add_heads heads [])
all_paths heads (some b) = map (λ e. e.0) (add_keys b.entries (add_heads heads []))

unfoldable pub write_all : Map FileEntry → FsManifest → FsManifest
write_all [] tree = tree
write_all ((path, e) ∷ writes) tree = write_all writes (insert_entry path e tree)

module _ ⦃p : Primitives⦄ ⦃formats : Formats⦄ where
  unfoldable pub fold : Map FsManifest → Option FsManifest → Result SyncError FoldOutcome
  unfolding fold_paths all_paths write_all
  fold heads base = fold_paths heads base (all_paths heads base) >>= λ writes.
      ok (record { tree = write_all writes.0 new_manifest; conflicts = writes.1 })
