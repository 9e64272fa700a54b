-- ===== src/Store/Assertions.antt =====
-- src/persist.rs: the table `assertion`, which keeps one record for each DID, kind and subkey, and
-- takes a new record only at a higher sequence number.
pub mod Supersede
use ciss.Prelude.{
  ℕ, String, Bool, true, false, not, ◌&&◌, Option, none, some, List, [], ◌∷◌, ltb, str_eq,
  if◌then◌else◌, any, retain, Result, ok, err, ok_or, ◌>>=◌,
}
use ciss.Prelude.Text.{concat, insert_sorted, sort}
use ciss.Chain.{subkey_or_empty}
use ciss.Assertion.{SignedAssertion, Ack}
use ciss.Serde.{Serde}
use ciss.Store.{PersistError, sqlite, json, stale_assertion_seq, AssertionRow, Store, clamp_i64}

abbrev pub same_target : String → String → String → AssertionRow → Bool
same_target did kind sk row = str_eq row.did did && (str_eq row.kind kind && str_eq row.subkey sk)

-- The row of a primary key.
unfoldable pub find_row : String → String → String → List AssertionRow → Option AssertionRow
find_row did kind sk [] = none
find_row did kind sk (row ∷ rest) =
    if same_target did kind sk row then some row else find_row did kind sk rest

-- `INSERT … ON CONFLICT … DO UPDATE … WHERE excluded.seq > assertion.seq`.
unfoldable pub upsert_row : AssertionRow → List AssertionRow → List AssertionRow
upsert_row new [] = new ∷ []
upsert_row new (row ∷ rest) =
    let others = upsert_row new rest in
    if same_target new.did new.kind new.subkey row
    then (if ltb row.seq new.seq then new ∷ rest else row ∷ rest)
    else row ∷ others

-- Whether that statement changed a row.
unfoldable pub applies : AssertionRow → List AssertionRow → Bool
unfolding find_row
applies new rows = elim (find_row new.did new.kind new.subkey rows) [
  | none ↦ true
  | some row ↦ ltb row.seq new.seq
]

pub target_text : String → String → Option String → String
target_text did kind none = concat (did ∷ "/" ∷ kind ∷ [])
target_text did kind (some sk) = concat (did ∷ "/" ∷ kind ∷ "/" ∷ sk ∷ [])

unfoldable pub assertion_seq : Store → String → String → Option String → Option ℕ
unfolding find_row
assertion_seq s did kind subkey = elim (find_row did kind (subkey_or_empty subkey) s.assertion) [
  | none ↦ none
  | some row ↦ some row.seq
]

unfoldable pub assertion_json : Store → String → String → Option String → Option (String × String)
unfolding find_row
assertion_json s did kind subkey = elim (find_row did kind (subkey_or_empty subkey) s.assertion) [
  | none ↦ none
  | some row ↦ some (row.json, row.ack)
]

-- The flag tells whether a row was there.
unfoldable pub delete_assertion : Store → String → String → Option String → Bool × Store
delete_assertion s did kind subkey = (
  any (same_target did kind (subkey_or_empty subkey)) s.assertion,
  record s {
    assertion = retain (λ row. not (same_target did kind (subkey_or_empty subkey) row)) s.assertion;
  },
)

subkeys_of : String → String → List AssertionRow → List String
subkeys_of did kind [] = []
subkeys_of did kind (row ∷ rest) =
    let more = subkeys_of did kind rest in
    if str_eq row.did did && str_eq row.kind kind then row.subkey ∷ more else more

unfoldable pub list_assertion_subkeys : Store → String → String → List String
unfolding subkeys_of
list_assertion_subkeys s did kind = sort (subkeys_of did kind s.assertion)

module _ ⦃j : Serde⦄ where
  abbrev pub Record : Type 0
  Record = SignedAssertion j.Value

  unfoldable pub row_of : Record → Ack → AssertionRow
  row_of a ack = record {
    did = a.did;
    kind = a.kind;
    subkey = subkey_or_empty a.subkey;
    seq = clamp_i64 a.seq;
    json = j.record_text.to_string a;
    ack = j.record_text.ack_to_string ack;
  }

  unfoldable pub save_assertion : Store → Record → Ack → Result PersistError Store
  unfolding upsert_row applies target_text
  save_assertion s a ack =
      if applies (row_of a ack) s.assertion
      then ok (record s { assertion = upsert_row (row_of a ack) s.assertion })
      else err (stale_assertion_seq (target_text a.did a.kind a.subkey) a.seq)

  unfoldable pub load_assertion :
      Store → String → String → Option String → Result PersistError (Option (Record × Ack))
  load_assertion s did kind subkey = elim (assertion_json s did kind subkey) [
    | none ↦ ok none
    | some texts ↦ ok_or (j.record_text.from_str texts.0) json >>= λ a.
        ok_or (j.record_text.ack_from_str texts.1) json >>= λ ack. ok (some (a, ack))
  ]
