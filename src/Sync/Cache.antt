-- ===== src/Sync/Cache.antt =====
-- crates/ciss-sync/src/cache.rs: the cache of chunks with a budget. The rows of the table and the files
-- beside it are two maps, which another program can tear apart; failures of SQLite and of the file
-- system are outside the model. The loop that evicts runs on fuel: `none` is a loop that did not end.
pub mod Eviction
pub mod Retained
pub mod Hits
use ciss.Prelude.{
  ℕ, ◌+◌, String, Bool, true, false, ◌||◌, Option, none, some, List, [], ◌∷◌, ltb, leb, length,
  sum_by, if◌then◌else◌, Result, ok, err, zero, suc, is_ok,
}
use ciss.Prelude.Map
use ciss.Prelude.Map.{Map}
use ciss.Crypto.{Primitives, Bytes}
use ciss.Sync.Transport.{verify_content}

pub record ChunkRow : Type 0 where
  pub size : ℕ
  pub access_seq : ℕ
  pub pinned : Bool

pub record ChunkCache : Type 0 where
  pub chunks : Map ChunkRow
  pub files : Map Bytes
  pub budget : ℕ

-- `ChunkCache::open` on a directory with these rows and files: they stay, under the budget given.
unfoldable pub open_cache : ℕ → Map ChunkRow → Map Bytes → ChunkCache
open_cache budget chunks files = record { chunks = chunks; files = files; budget = budget }

-- The same on a directory that has no cache yet.
unfoldable pub open_empty : ℕ → ChunkCache
unfolding open_cache
open_empty budget = open_cache budget [] []

-- `SyncState::set_cache_budget`, behind the writing of the configuration.
unfoldable pub set_cache_budget : ℕ → ChunkCache → ChunkCache
unfolding open_cache
set_cache_budget budget c = open_cache budget c.chunks c.files

abbrev pub row_size : ChunkRow → ℕ
row_size row = row.size

abbrev pub pinned_size : ChunkRow → ℕ
pinned_size row = if row.pinned then row.size else 0

unfoldable pub total_bytes : ChunkCache → ℕ
total_bytes c = sum_by (λ e. row_size e.1) c.chunks

unfoldable pub pinned_bytes : ChunkCache → ℕ
pinned_bytes c = sum_by (λ e. pinned_size e.1) c.chunks

-- `MAX(access_seq)`, 0 for no rows.
unfoldable pub max_seq : Map ChunkRow → ℕ
max_seq [] = 0
max_seq ((_, row) ∷ m) =
    let rest = max_seq m in if ltb rest row.access_seq then row.access_seq else rest

unfoldable pub next_seq : ChunkCache → ℕ
next_seq c = max_seq c.chunks + 1

unfoldable pub remove : String → ChunkCache → ChunkCache
remove cid_hex c = record c {
  chunks = Map.remove cid_hex c.chunks;
  files = Map.remove cid_hex c.files;
}

-- `WHERE pinned = 0 ORDER BY access_seq ASC LIMIT 1`, with the number that it was chosen by.
unfoldable pub victim : Map ChunkRow → Option (String × ℕ)
victim [] = none
victim ((cid, row) ∷ m) =
    let rest = victim m in
    if row.pinned then rest else elim rest [
      | none ↦ some (cid, row.access_seq)
      | some best ↦ if leb row.access_seq best.1 then some (cid, row.access_seq) else some best
    ]

unfoldable pub evict_loop : ℕ → ChunkCache → Option ChunkCache
unfolding victim remove total_bytes
evict_loop zero c = none
evict_loop (suc fuel) c =
    if ltb c.budget (total_bytes c)
    then elim (victim c.chunks) [ none ↦ some c | some found ↦ evict_loop fuel (remove found.0 c) ]
    else some c

-- One round for each row, and the last test.
unfoldable pub evict_to_budget : ChunkCache → Option ChunkCache
evict_to_budget c = evict_loop (suc (length c.chunks)) c

abbrev pub pinned_flag : Option ChunkRow → Bool
pinned_flag none = false
pinned_flag (some row) = row.pinned

-- The write of the file and of its row, which keeps a pin that is there.
unfoldable pub stored : ChunkCache → String → Bytes → ChunkCache
stored c cid_hex bytes =
    let row : ChunkRow = record {
      size = length bytes;
      access_seq = next_seq c;
      pinned = pinned_flag (Map.get cid_hex c.chunks);
    } in
    record c { chunks = Map.upsert cid_hex row c.chunks; files = Map.upsert cid_hex bytes c.files }

unfoldable pub refuses : ChunkCache → ℕ → Bool
refuses c len = ltb c.budget len || ltb c.budget (len + pinned_bytes c)

unfoldable pub insert : ChunkCache → String → Bytes → Option (ChunkCache × Bool)
insert c cid_hex bytes =
    if refuses c (length bytes)
    then some (c, false)
    else elim (evict_to_budget (stored c cid_hex bytes)) [ none ↦ none | some c' ↦ some (c', true) ]

-- The same as a total function; that the loop ends is a theorem, so the first case is never taken.
unfoldable pub insert_best_effort : ChunkCache → String → Bytes → ChunkCache × Bool
insert_best_effort c cid_hex bytes = elim (insert c cid_hex bytes) [
  | none ↦ (c, false)
  | some done ↦ done
]

-- `UPDATE chunks SET access_seq = ?2 WHERE cid = ?1`, and the same for a pin.
unfoldable pub update_row : (ChunkRow → ChunkRow) → String → ChunkCache → ChunkCache
update_row change cid_hex c = elim (Map.get cid_hex c.chunks) [
  | none ↦ c
  | some row ↦ record c { chunks = Map.upsert cid_hex (change row) c.chunks }
]

unfoldable pub pin : ChunkCache → String → ChunkCache × Bool
pin c cid_hex =
    (update_row (λ row. record row { pinned = true }) cid_hex c, Map.contains_key cid_hex c.chunks)

unfoldable pub unpin : ChunkCache → String → ChunkCache × Bool
unpin c cid_hex =
    (update_row (λ row. record row { pinned = false }) cid_hex c, Map.contains_key cid_hex c.chunks)

module _ ⦃p : Primitives⦄ where
  unfoldable pub get : ChunkCache → String → ChunkCache × Option Bytes
  get c cid_hex =
      if Map.contains_key cid_hex c.chunks
      then elim (Map.get cid_hex c.files) [
        | none ↦ (remove cid_hex c, none)
        | some bytes ↦
            if is_ok (verify_content cid_hex bytes)
            then (update_row (λ row. record row { access_seq = next_seq c }) cid_hex c, some bytes)
            else (remove cid_hex c, none)
      ]
      else (c, none)
