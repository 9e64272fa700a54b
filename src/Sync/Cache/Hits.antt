-- ===== src/Sync/Cache/Hits.antt =====
-- crates/ciss-sync/src/cache.rs: the states that a cache can reach, with its files torn by others in
-- between, and what its hits and misses are worth.
use ciss.Prelude.{
  ℕ, ◌≤◌, ◌≡◌, refl, inl, inr, String, true, false, none, some, Bool, subst, ◌⊎◌, arith, eq_iff,
  Bool-cases, Option-cases, str_eq_refl, is_ok, Result-cases,
}
use ciss.Prelude.Map
use ciss.Prelude.Map.{
  Map, KeysUnique, get-upsert, get-remove, sum_by-remove_le, sum_by-upsert, remove-KeysUnique,
  upsert-KeysUnique, contains_key-remove,
}
use ciss.Crypto.{Primitives, Bytes}
use ciss.Sync.Tree.{digest_hex}
use ciss.Sync.Transport.{verify_content, verify_server_cid, verify_content_sound}
use ciss.Sync.Cache.{
  ChunkRow, ChunkCache, row_size, open_cache, open_empty, set_cache_budget, total_bytes, remove,
  insert, update_row, pin, unpin, get, next_seq,
}
use ciss.Sync.Cache.Eviction.{Fits, insert_ends}
use ciss.Sync.Cache.Retained.{insert-Holds, insert-KeysUnique}

-- A use of the cache, and what another program may do to the files under it.
pub data Step ⦃p : Primitives⦄ (c : ChunkCache) : ChunkCache → Type 0 where
  inserting :
      {c' : ChunkCache} (cid : String) (bytes : Bytes) (cached : Bool)
      → insert c cid bytes ≡ some (c', cached)
      → Step c c'
  reading : (cid : String) → Step c (get c cid).0
  pinning : (cid : String) → Step c (pin c cid).0
  unpinning : (cid : String) → Step c (unpin c cid).0
  tearing : (files : Map Bytes) → Step c (record c { files = files })

-- The states of a cache that was never opened with a budget above the limit.
pub data Reached ⦃p : Primitives⦄ (limit : ℕ) : ChunkCache → Type 0 where
  opened : (budget : ℕ) → budget ≤ limit → Reached limit (open_empty budget)
  reopened :
      {c : ChunkCache} (budget : ℕ)
      → budget ≤ limit
      → Reached limit c
      → Reached limit (set_cache_budget budget c)
  after : {c c' : ChunkCache} → Reached limit c → Step c c' → Reached limit c'

-- The invariant: the bytes and the budget are within the limit, and the cid is a key.
abbrev Sound : ℕ → ChunkCache → Type 0
Sound limit c = (total_bytes c ≤ limit) × (c.budget ≤ limit) × KeysUnique c.chunks

remove-Sound :
    (limit : ℕ) (cid : String) (c : ChunkCache) → Sound limit c → Sound limit (remove cid c)
unfolding remove total_bytes
remove-Sound limit cid c (small, same, u) =
    (omega (arith, sum_by-remove_le row_size cid c.chunks), same, remove-KeysUnique cid c.chunks u)

-- A change of a row that keeps its size.
update_row-Sound :
    (limit : ℕ) (change : ChunkRow → ChunkRow) (cid : String) (c : ChunkCache)
    → ((row : ChunkRow) → (change row).size ≡ row.size)
    → Sound limit c
    → Sound limit (update_row change cid c)
unfolding update_row total_bytes
update_row-Sound limit change cid c keeps (small, same, u) =
    elim (Option-cases (Map.get cid c.chunks)) [
      | inl absent ↦ rw (update_row, absent) (small, same, u)
      | inr (row, present) ↦
          rw (update_row, present)
            (
              ground (arith, sum_by-upsert row_size cid (change row) c.chunks, keeps row),
              same,
              upsert-KeysUnique cid (change row) c.chunks u,
            )
    ]

insert-Sound :
    (limit : ℕ) (c c' : ChunkCache) (cid : String) (bytes : Bytes) (cached : Bool)
    → Sound limit c
    → insert c cid bytes ≡ some (c', cached)
    → Sound limit c'
unfolding Fits
insert-Sound limit c c' cid bytes cached (small, same, u) done = elim (insert_ends c cid bytes) [
  | inl refused ↦ let kept : c ≡ c' = ground arith in subst (Sound limit) kept (small, same, u)
  | inr (end, stored, fits, same') ↦
      let kept : end ≡ c' = ground arith in
      subst (Sound limit) kept
        (omega arith, omega arith, insert-KeysUnique c end cid bytes u stored)
]

module _ ⦃p : Primitives⦄ where
  get-Sound :
      (limit : ℕ) (c : ChunkCache) (cid : String) → Sound limit c → Sound limit (get c cid).0
  unfolding get
  get-Sound limit c cid sound = elim (Bool-cases (Map.contains_key cid c.chunks)) [
    | inr absent ↦ rw absent sound
    | inl present ↦ elim (Option-cases (Map.get cid c.files)) [
      | inl vanished ↦ rw (present, vanished) (remove-Sound limit cid c sound)
      | inr (bytes, found) ↦ elim (Bool-cases (is_ok (verify_content cid bytes))) [
        | inr corrupt ↦ rw (present, found, corrupt) (remove-Sound limit cid c sound)
        | inl intact ↦
            rw (present, found, intact)
              (update_row-Sound limit (λ row. record row { access_seq = next_seq c }) cid c
                (λ row. refl) sound)
      ]
    ]
  ]

  Step-Sound : (limit : ℕ) (c c' : ChunkCache) → Sound limit c → Step c c' → Sound limit c'
  unfolding pin unpin total_bytes
  Step-Sound limit c c' sound (inserting cid bytes cached done) =
      insert-Sound limit c c' cid bytes cached sound done
  Step-Sound limit c _ sound (reading cid) = get-Sound limit c cid sound
  Step-Sound limit c _ sound (pinning cid) =
      update_row-Sound limit (λ row. record row { pinned = true }) cid c (λ row. refl) sound
  Step-Sound limit c _ sound (unpinning cid) =
      update_row-Sound limit (λ row. record row { pinned = false }) cid c (λ row. refl) sound
  Step-Sound limit c _ sound (tearing files) = sound

  Reached-Sound : (limit : ℕ) (c : ChunkCache) → Reached limit c → Sound limit c
  unfolding open_cache open_empty set_cache_budget total_bytes
  Reached-Sound limit _ (opened budget low) = (omega arith, low, tt)
  Reached-Sound limit _ (reopened {c} budget low before) =
      let (small, _, u) = Reached-Sound limit c before in (small, low, u)
  Reached-Sound limit c' (after {c} before step) =
      Step-Sound limit c c' (Reached-Sound limit c before) step

  -- In every state that a cache reaches from an empty directory, through its uses, with any writes of
  -- others to its files in between, and reopened under other budgets any number of times, its bytes
  -- are no more than any limit that none of the budgets it was opened with exceeds.
  pub total_bytes-Reached : (limit : ℕ) (c : ChunkCache) → Reached limit c → total_bytes c ≤ limit
  total_bytes-Reached limit c reached = (Reached-Sound limit c reached).0

  hit :
      (c : ChunkCache) (cid : String) (bytes : Bytes)
      → Map.contains_key cid c.chunks ≡ true
      → Map.get cid c.files ≡ some bytes
      → is_ok (verify_content cid bytes) ≡ true
      → (get c cid).1 ≡ some bytes
  unfolding get
  hit c cid bytes present found intact = rw (present, found, intact) refl

  -- Bytes that a cache in a reachable state reported as cached under their own digest are what the next
  -- read of that cid gives.
  pub get-insert :
      (limit : ℕ) (c c' : ChunkCache) (cid : String) (bytes : Bytes)
      → Reached limit c
      → digest_hex bytes ≡ cid
      → insert c cid bytes ≡ some (c', true)
      → (get c' cid).1 ≡ some bytes
  unfolding verify_content verify_server_cid Map.contains_key
  get-insert limit c c' cid bytes reached named done =
      let (row, (present, found), _) =
        insert-Holds c c' cid bytes (Reached-Sound limit c reached).2 done in
      hit c' cid bytes (rw (Map.contains_key, present) refl) found
        (ground (arith, eq_iff cid (digest_hex bytes)))

  -- In any state, whatever others wrote to the files: bytes that a read gives have the digest that was
  -- asked for, and after a read that gives none the cid has no
  -- row.
  pub get_sound :
      (c : ChunkCache) (cid : String)
      → ((bytes : Bytes) × ((get c cid).1 ≡ some bytes) × (digest_hex bytes ≡ cid))
        ⊎ (((get c cid).1 ≡ none) × (Map.contains_key cid (get c cid).0.chunks ≡ false))
  unfolding get remove
  get_sound c cid = elim (Bool-cases (Map.contains_key cid c.chunks)) [
    | inr absent ↦ inr (rw absent refl, rw absent absent)
    | inl present ↦ elim (Option-cases (Map.get cid c.files)) [
      | inl vanished ↦ inr (
        rw (present, vanished) refl,
        rw (present, vanished)
            (ground (arith, contains_key-remove cid cid c.chunks, str_eq_refl cid)),
      )
      | inr (bytes, found) ↦ elim (Result-cases (verify_content cid bytes)) [
        | inr (e, corrupt) ↦ inr (
          rw (present, found, corrupt) refl,
          rw (present, found, corrupt)
              (ground (arith, contains_key-remove cid cid c.chunks, str_eq_refl cid)),
        )
        | inl (_, intact) ↦
            inl (bytes, rw (present, found, intact) refl, verify_content_sound cid bytes intact)
      ]
    ]
  ]
