-- ===== src/Store/Chains.antt =====
-- src/persist.rs: the table `chain_entry`, with the head of each chain kept in the table `assertion`.
pub mod Rows
pub mod Stored
pub mod Append
use ciss.Prelude.{
  ℕ, String, Bool, true, false, not, ◌&&◌, Option, none, some, List, [], ◌∷◌, ◌++◌, ltb, leb, ◌==◌,
  str_eq, if◌then◌else◌, any, retain, map, Result, ok, err, refuse_if, ◌>>=◌, ◌>>◌,
}
use ciss.Prelude.Int.{ℤ, pos}
use ciss.Chain.{
  ChainStep, step, checkpoint, ChainCounterBody, CheckpointBody, PrevEntry, ChainEntry,
  subkey_or_empty,
}
use ciss.Assertion.{Ack}
use ciss.Serde.{Serde}
use ciss.Store.{PersistError, sqlite, ChainRow, Store, clamp_i64}
use ciss.Store.Assertions.{Record, row_of, upsert_row}

abbrev pub of_chain : String → String → String → ChainRow → Bool
of_chain did kind sk row = str_eq row.did did && (str_eq row.kind kind && str_eq row.subkey sk)

-- `ORDER BY seq DESC LIMIT 1` among the rows that pass the test.
unfoldable pub latest_row : (ChainRow → Bool) → List ChainRow → Option ChainRow
latest_row test [] = none
latest_row test (row ∷ rest) =
    let later = latest_row test rest in
    if test row
    then elim later [ none ↦ some row | some b ↦ if leb row.seq b.seq then some b else some row ]
    else later

abbrev pub prev_entry : ChainRow → PrevEntry
prev_entry row = record { seq = row.seq; total = row.total; entry_hash = row.entry_hash }

unfoldable pub latest_chain_entry : Store → String → String → Option String → Option PrevEntry
latest_chain_entry s did kind subkey =
    elim (latest_row (of_chain did kind (subkey_or_empty subkey)) s.chain_entry) [
      | none ↦ none
      | some row ↦ some (prev_entry row)
    ]

abbrev pub checkpoint_of_chain : String → String → String → ChainRow → Bool
checkpoint_of_chain did kind sk row = of_chain did kind sk row && row.is_checkpoint

unfoldable pub latest_checkpoint_hash : Store → String → String → Option String → Option String
latest_checkpoint_hash s did kind subkey =
    elim (latest_row (checkpoint_of_chain did kind (subkey_or_empty subkey)) s.chain_entry) [
      | none ↦ none
      | some row ↦ some row.entry_hash
    ]

-- `ORDER BY seq`.
unfoldable pub insert_row : ChainRow → List ChainRow → List ChainRow
insert_row row [] = row ∷ []
insert_row row (r ∷ rest) =
    let more = insert_row row rest in if leb row.seq r.seq then row ∷ r ∷ rest else r ∷ more

unfoldable pub sort_rows : List ChainRow → List ChainRow
sort_rows [] = []
sort_rows (row ∷ rest) = insert_row row (sort_rows rest)

-- A checkpoint's row keeps the closing total in `total`, and the hash that it closes over in
-- `prev_entry_hash`.
abbrev pub step_of : ChainRow → ChainStep
step_of row = elim row.is_checkpoint [
  | true ↦ checkpoint (record {
    closing_total = row.total;
    chain_head_hash = row.prev_entry_hash;
    prev_checkpoint = row.prev_checkpoint;
  })
  | false ↦
      step (record { delta = row.delta; total = row.total; prev_entry_hash = row.prev_entry_hash })
]

abbrev pub entry_of : String → String → Option String → ChainRow → ChainEntry
entry_of did kind subkey row = record {
  did = did;
  kind = kind;
  subkey = subkey;
  seq = row.seq;
  step = step_of row;
}

unfoldable pub chain_rows : Store → String → String → Option String → List ChainRow
chain_rows s did kind subkey =
    sort_rows (retain (of_chain did kind (subkey_or_empty subkey)) s.chain_entry)

unfoldable pub chain_entries : Store → String → String → Option String → List (ChainEntry × String)
chain_entries s did kind subkey =
    map (λ (row : ChainRow). (entry_of did kind subkey row, row.json))
      (chain_rows s did kind subkey)

-- `DELETE … AND seq < ?`, when there is a checkpoint.
unfoldable pub compact_behind_latest_checkpoint :
    Store → String → String → Option String → Option ℕ × Store
compact_behind_latest_checkpoint s did kind subkey =
    elim (latest_row (checkpoint_of_chain did kind (subkey_or_empty subkey)) s.chain_entry) [
      | none ↦ (none, s)
      | some c ↦ (
        some c.seq,
        record s {
          chain_entry =
              retain
                (λ (row : ChainRow).
                  not (of_chain did kind (subkey_or_empty subkey) row && ltb row.seq c.seq))
                s.chain_entry;
        },
      )
    ]

-- The primary key of a new row is taken.
abbrev pub key_taken : ChainRow → List ChainRow → Bool
key_taken new rows =
    any (λ (row : ChainRow). of_chain new.did new.kind new.subkey row && row.seq == new.seq) rows

module _ ⦃j : Serde⦄ where
  unfoldable pub step_row : Record → Ack → ChainCounterBody → String → ChainRow
  step_row a ack body hash = record {
    did = a.did;
    kind = a.kind;
    subkey = subkey_or_empty a.subkey;
    seq = clamp_i64 a.seq;
    delta = body.delta;
    total = clamp_i64 body.total;
    prev_entry_hash = body.prev_entry_hash;
    entry_hash = hash;
    is_checkpoint = false;
    prev_checkpoint = "";
    json = j.record_text.to_string a;
    ack = j.record_text.ack_to_string ack;
  }

  unfoldable pub checkpoint_row : Record → Ack → CheckpointBody → String → ChainRow
  checkpoint_row a ack body hash = record {
    did = a.did;
    kind = a.kind;
    subkey = subkey_or_empty a.subkey;
    seq = clamp_i64 a.seq;
    delta = pos 0;
    total = clamp_i64 body.closing_total;
    prev_entry_hash = body.chain_head_hash;
    entry_hash = hash;
    is_checkpoint = true;
    prev_checkpoint = body.prev_checkpoint;
    json = j.record_text.to_string a;
    ack = j.record_text.ack_to_string ack;
  }

  -- Both inserts of one transaction; the upsert of the head may change nothing.
  unfoldable pub insert_chain_row : Store → Record → Ack → ChainRow → Result PersistError Store
  insert_chain_row s a ack row =
      if key_taken row s.chain_entry
      then err sqlite
      else ok (record s {
        chain_entry = s.chain_entry ++ row ∷ [];
        assertion = upsert_row (row_of a ack) s.assertion;
      })

  unfoldable pub append_chain_entry :
      Store → Record → Ack → ChainCounterBody → String → Result PersistError Store
  append_chain_entry s a ack body hash = insert_chain_row s a ack (step_row a ack body hash)

  unfoldable pub append_checkpoint_entry :
      Store → Record → Ack → CheckpointBody → String → Result PersistError Store
  append_checkpoint_entry s a ack body hash =
      insert_chain_row s a ack (checkpoint_row a ack body hash)
