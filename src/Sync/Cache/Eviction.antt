-- ===== src/Sync/Cache/Eviction.antt =====
-- crates/ciss-sync/src/cache.rs: the loop that evicts ends, and the bytes that it leaves fit the budget.
use ciss.Prelude.{
  ℕ, ◌+◌, ◌≤◌, ◌<◌, ◌≡◌, refl, inl, inr, String, true, false, Option, none, some, [], ◌∷◌, ltb,
  length, ◌⊎◌, arith, Bool-cases, Option-cases, zero, suc, sum_by, str_eq_refl,
}
use ciss.Prelude.Map
use ciss.Prelude.Map.{Map, length-remove, sum_by-remove_le, sum_by-upsert}
use ciss.Crypto.{Bytes}
use ciss.Sync.Cache.{
  ChunkRow, ChunkCache, row_size, pinned_size, total_bytes, pinned_bytes, victim, remove,
  evict_loop, evict_to_budget, stored, refuses, insert, pinned_flag, next_seq,
}

-- The bytes that are accounted to the cache fit its budget.
unfoldable pub Fits : ChunkCache → Type 0
Fits c = total_bytes c ≤ c.budget

pinned_size_le : (row : ChunkRow) → pinned_size row ≤ row_size row
pinned_size_le row = ground arith

pinned_sum_le : (m : Map ChunkRow) → sum_by (λ e. pinned_size e.1) m ≤ sum_by (λ e. row_size e.1) m
pinned_sum_le [] = omega arith
pinned_sum_le ((k, row) ∷ m) = omega (arith, pinned_size_le row, pinned_sum_le m)

-- Without a victim every row is pinned.
pub victim-none :
    (m : Map ChunkRow)
    → victim m ≡ none
    → sum_by (λ e. row_size e.1) m ≡ sum_by (λ e. pinned_size e.1) m
unfolding victim
victim-none [] h = refl
victim-none ((k, row) ∷ m) h = elim (Option-cases (victim m)) [
  | inl none' ↦ ground (arith, victim-none m none')
  | inr (best, found) ↦ ground (arith)
]

pub victim_contained :
    (m : Map ChunkRow) (e : String × ℕ) → victim m ≡ some e → Map.contains_key e.0 m ≡ true
unfolding victim Map.contains_key Map.get
victim_contained [] e h = cc
victim_contained ((k, row) ∷ m) e h = elim (Option-cases (victim m)) [
  | inl none' ↦ ground (arith, str_eq_refl k)
  | inr (best, found) ↦ ground (arith, victim_contained m best found, str_eq_refl k)
]

-- What a run of the loop leaves: it ended, and the bytes fit.
abbrev Ended : Option ChunkCache → ℕ → Type 0
Ended run budget =
    (c' : ChunkCache) × (run ≡ some c') × (total_bytes c' ≤ budget) × (c'.budget ≡ budget)

evict_loop-ends :
    (fuel : ℕ) (c : ChunkCache)
    → length c.chunks < fuel
    → pinned_bytes c ≤ c.budget
    → Ended (evict_loop fuel c) c.budget
unfolding evict_loop pinned_bytes total_bytes remove
evict_loop-ends zero c short fits = grind arith
evict_loop-ends (suc fuel) c short fits = elim (Bool-cases (ltb c.budget (total_bytes c))) [
  | inr small ↦ (c, rw small refl, ground arith, refl)
  | inl large ↦ elim (Option-cases (victim c.chunks)) [
    | inl none' ↦ (c, rw (large, none') refl, omega (arith, victim-none c.chunks none'), refl)
    | inr (found, is_found) ↦
        let c' = remove found.0 c in
        let (end, ended, small, same) =
          evict_loop-ends fuel c'
            (omega
              (arith, length-remove found.0 c.chunks (victim_contained c.chunks found is_found)))
            (omega (arith, sum_by-remove_le pinned_size found.0 c.chunks)) in
        (end, rw (large, is_found) ended, small, same)
  ]
]

pinned_size_of : Option ChunkRow → ℕ
pinned_size_of none = 0
pinned_size_of (some row) = pinned_size row

-- A write adds its length to the pinned bytes at most.
pinned_bytes-stored :
    (c : ChunkCache) (cid : String) (bytes : Bytes)
    → pinned_bytes (stored c cid bytes) ≤ length bytes + pinned_bytes c
unfolding pinned_bytes stored
pinned_bytes-stored c cid bytes =
    let row : ChunkRow = record {
      size = length bytes;
      access_seq = next_seq c;
      pinned = pinned_flag (Map.get cid c.chunks);
    } in
    omega (arith, sum_by-upsert pinned_size cid row c.chunks, pinned_size_le row)

-- Inserting bytes into a cache always ends, whatever the rows are and even when the cache was over its
-- budget: the bytes are refused and nothing changes, or they are stored and everything left fits the
-- budget, which stays.
pub insert_ends :
    (c : ChunkCache) (cid : String) (bytes : Bytes)
    → (insert c cid bytes ≡ some (c, false))
      ⊎ ((c' : ChunkCache) × (insert c cid bytes ≡ some (c', true))
          × Fits c'
          × (c'.budget ≡ c.budget))
unfolding insert refuses Fits evict_to_budget stored
insert_ends c cid bytes = elim (Bool-cases (refuses c (length bytes))) [
  | inl full ↦ inl (rw full refl)
  | inr room ↦
      let s = stored c cid bytes in
      let (c', ended, small, same) =
        evict_loop-ends (suc (length s.chunks)) s (omega arith)
          (ground (arith, pinned_bytes-stored c cid bytes)) in
      inr (c', rw (room, ended) refl, omega (arith, small, same), same)
]
