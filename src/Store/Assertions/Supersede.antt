-- ===== src/Store/Assertions/Supersede.antt =====
-- The anti-rollback rule of the table `assertion`.
use ciss.Prelude.{
  min, ◌-◌, ◌^◌, ltb, ℕ, ◌≤◌, ◌≡◌, refl, inl, inr, String, true, false, not, ◌&&◌, Option, none,
  some, List, [], ◌∷◌, str_eq_refl, eq_iff, arith, if◌then◌else◌, retain, ok, err, Bool-cases,
}
use ciss.Chain.{subkey_or_empty}
use ciss.Assertion.{Ack}
use ciss.Serde.{Serde}
use ciss.Store.{stale_assertion_seq, AssertionRow, Store, clamp_i64}
use ciss.Store.Assertions.{
  target_text, same_target, find_row, upsert_row, applies, assertion_seq, assertion_json,
  delete_assertion, Record, row_of, save_assertion, load_assertion,
}

-- The row that the upsert leaves under its own key, and the others.
find_row-upsert_row :
    (did kind sk : String) (new : AssertionRow) (rows : List AssertionRow)
    → find_row did kind sk (upsert_row new rows) ≡ (
        if same_target did kind sk new && applies new rows
        then some new
        else find_row did kind sk rows)
unfolding find_row upsert_row applies
find_row-upsert_row did kind sk new [] =
    ground (arith, eq_iff new.did did, eq_iff new.kind kind, eq_iff new.subkey sk)
find_row-upsert_row did kind sk new (row ∷ rows) = ground (
  arith,
  find_row-upsert_row did kind sk new rows,
  eq_iff new.did did,
  eq_iff new.kind kind,
  eq_iff new.subkey sk,
  eq_iff row.did did,
  eq_iff row.kind kind,
  eq_iff row.subkey sk,
  eq_iff row.did new.did,
  eq_iff row.kind new.kind,
  eq_iff row.subkey new.subkey,
)

find_row-retain :
    (did kind sk : String) (rows : List AssertionRow)
    → find_row did kind sk (retain (λ row. not (same_target did kind sk row)) rows) ≡ none
unfolding find_row
find_row-retain did kind sk [] = refl
find_row-retain did kind sk (row ∷ rows) = ground (arith, find_row-retain did kind sk rows)

same_target_refl : (row : AssertionRow) → same_target row.did row.kind row.subkey row ≡ true
same_target_refl row =
    ground (arith, str_eq_refl row.did, str_eq_refl row.kind, str_eq_refl row.subkey)

find_row-upsert_row_self :
    (new : AssertionRow) (rows : List AssertionRow)
    → applies new rows ≡ true
    → find_row new.did new.kind new.subkey (upsert_row new rows) ≡ some new
find_row-upsert_row_self new rows taken =
    rw (find_row-upsert_row new.did new.kind new.subkey new rows, same_target_refl new, taken)

find_row-upsert_row_other :
    (did kind sk : String) (new : AssertionRow) (rows : List AssertionRow)
    → same_target did kind sk new ≡ false
    → find_row did kind sk (upsert_row new rows) ≡ find_row did kind sk rows
find_row-upsert_row_other did kind sk new rows other =
    rw (find_row-upsert_row did kind sk new rows, other)

module _ ⦃j : Serde⦄ where
  saved : Store → Record → Ack → Store
  saved s a ack = record s { assertion = upsert_row (row_of a ack) s.assertion }

  save_assertion-eq-ok :
      (s s' : Store) (a : Record) (ack : Ack)
      → save_assertion s a ack ≡ ok s'
      → (applies (row_of a ack) s.assertion ≡ true) × (s' ≡ saved s a ack)
  unfolding save_assertion saved
  save_assertion-eq-ok s s' a ack h = elim (Bool-cases (applies (row_of a ack) s.assertion)) [
    | inl taken ↦ (taken, ground arith)
    | inr stale ↦ ground arith
  ]

  save_assertion-taken :
      (s : Store) (a : Record) (ack : Ack)
      → applies (row_of a ack) s.assertion ≡ true
      → save_assertion s a ack ≡ ok (saved s a ack)
  unfolding save_assertion saved
  save_assertion-taken s a ack taken = ground arith

  saved-find_row :
      (s : Store) (a : Record) (ack : Ack)
      → applies (row_of a ack) s.assertion ≡ true
      → find_row a.did a.kind (subkey_or_empty a.subkey) (saved s a ack).assertion
        ≡ some (row_of a ack)
  unfolding saved row_of
  saved-find_row s a ack taken = find_row-upsert_row_self (row_of a ack) s.assertion taken

  -- A write that is taken is stored under its number, or under 2^63 - 1, the largest that a column
  -- holds, where its number is larger; and the number that was stored for that target before is lower
  -- than the one that is stored.
  pub save_assertion-assertion_seq :
      (s s' : Store) (a : Record) (ack : Ack)
      → save_assertion s a ack ≡ ok s'
      → (assertion_seq s' a.did a.kind a.subkey ≡ some (min a.seq (2 ^ 63 - 1)))
        × ((elim (assertion_seq s a.did a.kind a.subkey) [
          | none ↦ true
          | some seq ↦ ltb seq (min a.seq (2 ^ 63 - 1))
        ])
            ≡ true)
  unfolding assertion_seq row_of applies clamp_i64
  save_assertion-assertion_seq s s' a ack h =
      let (taken, same) = save_assertion-eq-ok s s' a ack h in
      (ground (arith, saved-find_row s a ack taken), ground arith)

  -- A write whose number, clamped to 2^63 - 1, is not higher than the stored one is refused.
  pub save_assertion-stale :
      (s : Store) (a : Record) (ack : Ack) (seq : ℕ)
      → assertion_seq s a.did a.kind a.subkey ≡ some seq
      → clamp_i64 a.seq ≤ seq
      → save_assertion s a ack ≡ err (stale_assertion_seq (target_text a.did a.kind a.subkey) a.seq)
  unfolding save_assertion applies assertion_seq row_of
  save_assertion-stale s a ack seq before low = ground arith

  pub save_assertion-assertion_json :
      (s s' : Store) (a : Record) (ack : Ack)
      → save_assertion s a ack ≡ ok s'
      → assertion_json s' a.did a.kind a.subkey
        ≡ some (j.record_text.to_string a, j.record_text.ack_to_string ack)
  unfolding assertion_json row_of
  save_assertion-assertion_json s s' a ack h =
      let (taken, same) = save_assertion-eq-ok s s' a ack h in
      ground (arith, saved-find_row s a ack taken)

  -- What was written is what is loaded.
  pub load_assertion-save_assertion :
      (s s' : Store) (a : Record) (ack : Ack)
      → save_assertion s a ack ≡ ok s'
      → load_assertion s' a.did a.kind a.subkey ≡ ok (some (a, ack))
  unfolding load_assertion assertion_json row_of
  load_assertion-save_assertion s s' a ack h =
      let (taken, same) = save_assertion-eq-ok s s' a ack h in
      ground (
        arith,
        saved-find_row s a ack taken,
        j.record_text.from_str-to_string a,
        j.record_text.ack_from_str-to_string ack,
      )

  -- A write changes no other target.
  pub save_assertion_others :
      (s s' : Store) (a : Record) (ack : Ack) (did kind : String) (subkey : Option String)
      → save_assertion s a ack ≡ ok s'
      → same_target did kind (subkey_or_empty subkey) (row_of a ack) ≡ false
      → assertion_json s' did kind subkey ≡ assertion_json s did kind subkey
  unfolding assertion_json saved
  save_assertion_others s s' a ack did kind subkey h other =
      let (taken, same) = save_assertion-eq-ok s s' a ack h in
      ground (
        arith,
        find_row-upsert_row_other did kind (subkey_or_empty subkey) (row_of a ack) s.assertion
            other,
      )

  deleted-taken :
      (s : Store) (a : Record) (ack : Ack)
      → applies (row_of a ack) (delete_assertion s a.did a.kind a.subkey).1.assertion ≡ true
  unfolding delete_assertion applies row_of
  deleted-taken s a ack =
      ground (arith, find_row-retain a.did a.kind (subkey_or_empty a.subkey) s.assertion)

  -- After an erase nothing is stored for the target, so that the next record is taken whatever its
  -- number, the erased record itself included.
  pub delete_assertion-save_assertion :
      (s : Store) (a : Record) (ack : Ack)
      → (assertion_seq (delete_assertion s a.did a.kind a.subkey).1 a.did a.kind a.subkey ≡ none)
        × (s' : Store) × (save_assertion (delete_assertion s a.did a.kind a.subkey).1 a ack ≡ ok s')
        × (load_assertion s' a.did a.kind a.subkey ≡ ok (some (a, ack)))
  unfolding delete_assertion save_assertion assertion_seq
  delete_assertion-save_assertion s a ack =
      let gone : Store = (delete_assertion s a.did a.kind a.subkey).1 in
      let done : save_assertion gone a ack ≡ ok (saved gone a ack) =
        save_assertion-taken gone a ack (deleted-taken s a ack) in
      (
        ground (arith, find_row-retain a.did a.kind (subkey_or_empty a.subkey) s.assertion),
        saved gone a ack,
        done,
        load_assertion-save_assertion gone (saved gone a ack) a ack done,
      )
