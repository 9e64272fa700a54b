-- ===== src/Sync/Cache/Retained.antt =====
-- crates/ciss-sync/src/cache.rs: eviction never takes the entry that an insertion just wrote, which is
-- the newest, so that bytes reported as cached are cached.
use ciss.Prelude.{
  ℕ, ◌+◌, ◌≤◌, ◌<◌, ◌≡◌, ◌≢◌, refl, inl, inr, String, true, false, some, [], ◌∷◌, ltb, ◌==◌, length,
  str_eq, subst, if◌then◌else◌, arith, eq_iff, Bool-cases, Option-cases, zero, suc, sum_by,
  str_eq_refl, All, Bool,
}
use ciss.Prelude.Map
use ciss.Prelude.Map.{
  Map, KeysUnique, get-upsert, get-remove, sum_by-remove_le, sum_by-upsert, remove-KeysUnique,
  upsert-KeysUnique,
}
use ciss.Crypto.{Bytes}
use ciss.Sync.Cache.{
  ChunkRow, ChunkCache, row_size, pinned_size, total_bytes, pinned_bytes, victim, remove, max_seq,
  evict_loop, evict_to_budget, stored, refuses, insert, pinned_flag, next_seq,
}
use ciss.Sync.Cache.Eviction.{victim-none, victim_contained}

-- The row of a cid carries the number `n`, and every other row a smaller one.
abbrev newest_ok : String → ℕ → String × ChunkRow → Bool
newest_ok cid n e = if str_eq e.0 cid then e.1.access_seq == n else ltb e.1.access_seq n

abbrev Newest : String → ℕ → Map ChunkRow → Type 0
Newest cid n m = All (λ e. newest_ok cid n e ≡ true) m

Newest-others :
    (cid : String) (n : ℕ) (m : Map ChunkRow)
    → Map.contains_key cid m ≡ false
    → max_seq m < n
    → Newest cid n m
unfolding Map.contains_key Map.get max_seq
Newest-others cid n [] out small = tt
Newest-others cid n ((k, row) ∷ m) out small =
    (ground arith, Newest-others cid n m (ground arith) (ground arith))

upsert-Newest :
    (cid : String) (row : ChunkRow) (m : Map ChunkRow)
    → KeysUnique m
    → max_seq m < row.access_seq
    → Newest cid row.access_seq (Map.upsert cid row m)
unfolding Map.upsert max_seq
upsert-Newest cid row [] u small = (ground (arith, str_eq_refl cid), tt)
upsert-Newest cid row ((k, w) ∷ m) (fresh, u) small = elim (Bool-cases (str_eq k cid)) [
  | inl same ↦ rw same (
    ground (arith, str_eq_refl cid),
    Newest-others cid row.access_seq m (ground (arith, eq_iff k cid)) (ground arith),
  )
  | inr other ↦ rw other (ground arith, upsert-Newest cid row m u (ground arith))
]

remove-Newest :
    (cid k : String) (n : ℕ) (m : Map ChunkRow) → Newest cid n m → Newest cid n (Map.remove k m)
unfolding Map.remove
remove-Newest cid k n [] all = tt
remove-Newest cid k n ((j, w) ∷ m) (first, all) = elim (Bool-cases (str_eq j k)) [
  | inl same ↦ rw same (remove-Newest cid k n m all)
  | inr other ↦ rw other (first, remove-Newest cid k n m all)
]

-- The number that a victim is chosen by is the number of its row.
victim_seq :
    (cid : String) (n : ℕ) (m : Map ChunkRow) (e : String × ℕ)
    → Newest cid n m
    → victim m ≡ some e
    → (if str_eq e.0 cid then e.1 == n else ltb e.1 n) ≡ true
unfolding victim
victim_seq cid n [] e all h = cc
victim_seq cid n ((k, row) ∷ m) e (first, all) h = elim (Option-cases (victim m)) [
  | inl none' ↦ ground arith
  | inr (best, found) ↦ ground (arith, victim_seq cid n m best all found)
]

-- When the newest row is the victim, everything else is pinned.
victim-Newest :
    (cid : String) (n : ℕ) (m : Map ChunkRow) (row : ChunkRow) (e : String × ℕ)
    → KeysUnique m
    → Newest cid n m
    → Map.get cid m ≡ some row
    → victim m ≡ some e
    → e.0 ≡ cid
    → sum_by (λ x. row_size x.1) m + pinned_size row
      ≤ sum_by (λ x. pinned_size x.1) m + row_size row
unfolding victim Map.get Map.contains_key
victim-Newest cid n [] row e u all g h same = cc
victim-Newest cid n ((k, w) ∷ m) row e (fresh, u) (first, all) g h same =
    elim (Option-cases (victim m)) [
      | inl none' ↦ ground (arith, victim-none m none', eq_iff k cid)
      | inr (best, found) ↦ ground (
        arith,
        victim-Newest cid n m row best u all,
        victim_seq cid n m best all found,
        victim_contained m best found,
        eq_iff k cid,
        eq_iff best.0 cid,
      )
    ]

-- The entry of a cid is there, with this row and these bytes.
abbrev pub Holds : String → ChunkRow → Bytes → ChunkCache → Type 0
Holds cid row bytes c = (Map.get cid c.chunks ≡ some row) × (Map.get cid c.files ≡ some bytes)

remove-Holds :
    (cid k : String) (row : ChunkRow) (bytes : Bytes) (c : ChunkCache)
    → k ≢ cid
    → Holds cid row bytes c
    → Holds cid row bytes (remove k c)
unfolding remove
remove-Holds cid k row bytes c other (r, f) = (
  ground (arith, get-remove k cid c.chunks, eq_iff k cid),
  ground (arith, get-remove k cid c.files, eq_iff k cid),
)

-- The loop keeps the newest entry, as long as it fits beside the pinned ones.
evict_loop-Holds :
    (cid : String) (row : ChunkRow) (bytes : Bytes) (fuel : ℕ) (c c' : ChunkCache)
    → KeysUnique c.chunks
    → Newest cid row.access_seq c.chunks
    → row_size row + pinned_bytes c ≤ c.budget + pinned_size row
    → Holds cid row bytes c
    → evict_loop fuel c ≡ some c'
    → Holds cid row bytes c' × KeysUnique c'.chunks
unfolding evict_loop pinned_bytes total_bytes remove
evict_loop-Holds cid row bytes zero c c' u all fits held ran = cc
evict_loop-Holds cid row bytes (suc fuel) c c' u all fits held ran =
    elim (Bool-cases (ltb c.budget (total_bytes c))) [
      | inr small ↦
          let same : c ≡ c' = ground arith in
          subst (λ x. Holds cid row bytes x × KeysUnique x.chunks) same (held, u)
      | inl large ↦ elim (Option-cases (victim c.chunks)) [
        | inl none' ↦
            let same : c ≡ c' = ground arith in
            subst (λ x. Holds cid row bytes x × KeysUnique x.chunks) same (held, u)
        | inr (found, is_found) ↦
            let other : found.0 ≢ cid = λ same. absurd (
              ground (
                arith,
                victim-Newest cid row.access_seq c.chunks row found u all held.0 is_found same,
              )) in
            evict_loop-Holds cid row bytes fuel (remove found.0 c) c'
              (remove-KeysUnique found.0 c.chunks u)
              (remove-Newest cid found.0 row.access_seq c.chunks all)
              (omega (arith, sum_by-remove_le pinned_size found.0 c.chunks))
              (remove-Holds cid found.0 row bytes c other held) (ground (arith, large, is_found))
      ]
    ]

-- An insertion that reports the bytes as cached leaves them cached: under the cid stand a row of their
-- length and the bytes.
insert-kept :
    (c c' : ChunkCache) (cid : String) (bytes : Bytes)
    → KeysUnique c.chunks
    → insert c cid bytes ≡ some (c', true)
    → ((row : ChunkRow) × Holds cid row bytes c' × (row.size ≡ length bytes)) × KeysUnique c'.chunks
unfolding insert refuses evict_to_budget stored next_seq pinned_bytes
insert-kept c c' cid bytes u done = elim (Bool-cases (refuses c (length bytes))) [
  | inl full ↦ ground arith
  | inr room ↦
      let row : ChunkRow = record {
        size = length bytes;
        access_seq = next_seq c;
        pinned = pinned_flag (Map.get cid c.chunks);
      } in
      let s = stored c cid bytes in
      let (held, u') =
        evict_loop-Holds cid row bytes (suc (length s.chunks)) s c'
          (upsert-KeysUnique cid row c.chunks u) (upsert-Newest cid row c.chunks u (omega arith))
          (ground (arith, sum_by-upsert pinned_size cid row c.chunks))
          (
            ground (arith, get-upsert cid cid row c.chunks, str_eq_refl cid),
            ground (arith, get-upsert cid cid bytes c.files, str_eq_refl cid),
          )
          (ground arith) in
      ((row, held, refl), u')
]

pub insert-Holds :
    (c c' : ChunkCache) (cid : String) (bytes : Bytes)
    → KeysUnique c.chunks
    → insert c cid bytes ≡ some (c', true)
    → (row : ChunkRow) × Holds cid row bytes c' × (row.size ≡ length bytes)
insert-Holds c c' cid bytes u done = (insert-kept c c' cid bytes u done).0

pub insert-KeysUnique :
    (c c' : ChunkCache) (cid : String) (bytes : Bytes)
    → KeysUnique c.chunks
    → insert c cid bytes ≡ some (c', true)
    → KeysUnique c'.chunks
insert-KeysUnique c c' cid bytes u done = (insert-kept c c' cid bytes u done).1
