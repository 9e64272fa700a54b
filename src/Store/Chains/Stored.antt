-- ===== src/Store/Chains/Stored.antt =====
-- The chain that the table holds verifies, and every append that the checks admit keeps it so.
use ciss.Prelude.{
  ℕ, ◌≤◌, ◌≡◌, refl, sym, ◌∙◌, ap, inl, inr, String, Bool, true, Option, none, some, List, [], ◌∷◌,
  ◌++◌, arith, if◌then◌else◌, retain, map, ok, Bool-cases, Option-cases,
}
use ciss.Crypto.{Primitives}
use ciss.Chain.{
  PrevEntry, ChainEntry, ChainHead, subkey_or_empty, genesis_prev_hash, head_hash, check_entry,
  advance, walk, start, recompute_total,
}
use ciss.Chain.Compaction.{walk-append}
use ciss.Assertion.{Ack}
use ciss.Serde.{Serde}
use ciss.Store.{ChainRow, Store, clamp_i64, i64_max}
use ciss.Store.Assertions.{Record, row_of, upsert_row}
use ciss.Store.Chains.{
  of_chain, latest_row, checkpoint_of_chain, prev_entry, latest_chain_entry, latest_checkpoint_hash,
  sort_rows, step_of, entry_of, chain_rows, chain_entries,
}
use ciss.Store.Chains.Rows.{
  Below, Below-mono, Below-weaken, latest_row-none, latest_row-some, latest_row-append,
  latest_row-append_other, sort_rows-append,
}

-- The entries of a chain, without the texts of their records.
unfoldable pub entries : Store → String → String → Option String → List ChainEntry
entries s did kind subkey = map (λ (e : ChainEntry × String). e.0) (chain_entries s did kind subkey)

abbrev pub or_genesis : Option String → String
or_genesis none = genesis_prev_hash
or_genesis (some hash) = hash

pub clamp_small : (n : ℕ) → n ≤ i64_max → clamp_i64 n ≡ n
unfolding clamp_i64
clamp_small n le = omega arith

map-append : {A B : Type 0} (f : A → B) (xs ys : List A) → map f (xs ++ ys) ≡ map f xs ++ map f ys
map-append f [] ys = refl
map-append f (x ∷ xs) ys = ap (λ zs. f x ∷ zs) (map-append f xs ys)

-- The sequence numbers in use are those up to the latest one's.
pub latest_chain_entry-Below :
    (s : Store) (did kind : String) (subkey : Option String) (n : ℕ)
    → ((prev : PrevEntry) → latest_chain_entry s did kind subkey ≡ some prev → prev.seq ≤ n)
    → Below (of_chain did kind (subkey_or_empty subkey)) n s.chain_entry
unfolding latest_chain_entry
latest_chain_entry-Below s did kind subkey n h =
    elim (Option-cases (latest_row (of_chain did kind (subkey_or_empty subkey)) s.chain_entry)) [
      | inl absent ↦ latest_row-none _ n s.chain_entry absent
      | inr (row, present) ↦
          Below-mono _ row.seq n s.chain_entry (h (prev_entry row) (ground arith))
            (latest_row-some _ row s.chain_entry present)
    ]

module _ ⦃p : Primitives⦄ ⦃j : Serde⦄ where
  -- The stored entries verify, and the two queries for the head agree with the walk over them.
  unfoldable pub IsVerified : Store → String → String → Option String → Type 0
  IsVerified s did kind subkey =
      (h : ChainHead) × (walk start (entries s did kind subkey) ≡ ok h)
      × (h.head ≡ latest_chain_entry s did kind subkey)
      × (h.last_checkpoint ≡ or_genesis (latest_checkpoint_hash s did kind subkey))

  unfoldable pub inserted : Store → Record → Ack → ChainRow → Store
  inserted s a ack row = record s {
    chain_entry = s.chain_entry ++ row ∷ [];
    assertion = upsert_row (row_of a ack) s.assertion;
  }

  unfoldable pub IsNext : Store → String → String → Option String → ChainRow → Type 0
  IsNext s did kind subkey row =
      (of_chain did kind (subkey_or_empty subkey) row ≡ true)
      × Below (of_chain did kind (subkey_or_empty subkey)) row.seq s.chain_entry

  entries-inserted :
      (s : Store) (a : Record) (ack : Ack) (did kind : String) (subkey : Option String)
      (row : ChainRow)
      → IsNext s did kind subkey row
      → entries (inserted s a ack row) did kind subkey
        ≡ entries s did kind subkey ++ entry_of did kind subkey row ∷ []
  unfolding entries chain_entries chain_rows inserted IsNext
  entries-inserted s a ack did kind subkey row (t, b) =
      let test : ChainRow → Bool = of_chain did kind (subkey_or_empty subkey) in
      let sorted : List ChainRow = sort_rows (retain test s.chain_entry) in
      let pair : ChainRow → ChainEntry × String = λ r. (entry_of did kind subkey r, r.json) in
      let fst : ChainEntry × String → ChainEntry = λ e. e.0 in
      ap (λ rows. map fst (map pair rows)) (sort_rows-append test row s.chain_entry t b)
      ∙ ap (map fst) (map-append pair sorted (row ∷ []))
      ∙ map-append fst (map pair sorted) (pair row ∷ [])

  pub latest_chain_entry-inserted :
      (s : Store) (a : Record) (ack : Ack) (did kind : String) (subkey : Option String)
      (row : ChainRow)
      → IsNext s did kind subkey row
      → latest_chain_entry (inserted s a ack row) did kind subkey ≡ some (prev_entry row)
  unfolding latest_chain_entry inserted IsNext
  latest_chain_entry-inserted s a ack did kind subkey row (t, b) =
      ground (
        arith,
        latest_row-append (of_chain did kind (subkey_or_empty subkey)) row s.chain_entry t b,
      )

  latest_checkpoint_hash-inserted :
      (s : Store) (a : Record) (ack : Ack) (did kind : String) (subkey : Option String)
      (row : ChainRow)
      → IsNext s did kind subkey row
      → latest_checkpoint_hash (inserted s a ack row) did kind subkey ≡ (
          if row.is_checkpoint
          then some row.entry_hash
          else latest_checkpoint_hash s did kind subkey)
  unfolding latest_checkpoint_hash inserted IsNext
  latest_checkpoint_hash-inserted s a ack did kind subkey row (t, b) =
      let here : ChainRow → Bool = checkpoint_of_chain did kind (subkey_or_empty subkey) in
      elim (Bool-cases row.is_checkpoint) [
        | inl is ↦ ground (
          arith,
          latest_row-append here row s.chain_entry (ground arith) (
              Below-weaken (of_chain did kind (subkey_or_empty subkey)) here row.seq s.chain_entry
                (λ r c. ground arith) b),
        )
        | inr isnt ↦ ground (arith, latest_row-append_other here row s.chain_entry (ground arith))
      ]

  walk-one :
      (h : ChainHead) (e : ChainEntry)
      → check_entry h e.seq e.step ≡ ok tt
      → walk h (e ∷ []) ≡ ok (advance h e)
  unfolding walk
  walk-one h e c = rw c

  advance-entry_of :
      (h : ChainHead) (did kind : String) (subkey : Option String) (row : ChainRow)
      → row.entry_hash ≡ head_hash (entry_of did kind subkey row)
      → ((advance h (entry_of did kind subkey row)).head ≡ some (prev_entry row))
        × ((advance h (entry_of did kind subkey row)).last_checkpoint
            ≡ (if row.is_checkpoint then row.entry_hash else h.last_checkpoint))
  unfolding advance
  advance-entry_of h did kind subkey row hash = elim (Bool-cases row.is_checkpoint) [
    | inl is ↦ (ground arith, ground arith)
    | inr isnt ↦ (ground arith, ground arith)
  ]

  -- One more row that passes the walk's check.
  pub inserted-IsVerified :
      (s : Store) (a : Record) (ack : Ack) (did kind : String) (subkey : Option String)
      (row : ChainRow)
      → IsVerified s did kind subkey
      → IsNext s did kind subkey row
      → ((h : ChainHead)
          → h.head ≡ latest_chain_entry s did kind subkey
          → h.last_checkpoint ≡ or_genesis (latest_checkpoint_hash s did kind subkey)
          → check_entry h row.seq (step_of row) ≡ ok tt)
      → row.entry_hash ≡ head_hash (entry_of did kind subkey row)
      → IsVerified (inserted s a ack row) did kind subkey
  unfolding IsVerified
  inserted-IsVerified s a ack did kind subkey row (h, w, head, cp) next checked hash =
      let e : ChainEntry = entry_of did kind subkey row in
      let (head', cp') = advance-entry_of h did kind subkey row hash in
      (
        advance h e,
        ap (walk start) (entries-inserted s a ack did kind subkey row next)
            ∙ walk-append start (entries s did kind subkey) (e ∷ [])
            ∙ rw w (walk-one h e (checked h head cp)),
        head' ∙ sym (latest_chain_entry-inserted s a ack did kind subkey row next),
        ground (arith, cp', cp, latest_checkpoint_hash-inserted s a ack did kind subkey row next),
      )

  -- The total of the newest row is the one that a walk over all rows computes.
  pub recompute_total-entries :
      (s : Store) (did kind : String) (subkey : Option String)
      → IsVerified s did kind subkey
      → recompute_total (entries s did kind subkey)
        ≡ ok (elim (latest_chain_entry s did kind subkey) as (λ _. ℕ) [
          | none ↦ 0
          | some prev ↦ prev.total
        ])
  unfolding IsVerified recompute_total
  recompute_total-entries s did kind subkey (h, w, head, cp) = rw w (rw head refl)
