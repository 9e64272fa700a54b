-- ===== src/Store/Countersign.antt =====
-- src/persist.rs: the customer's signature on a stored receipt. SQLite's LIKE is the parameter `like`, a
-- text against a pattern.
use ciss.Prelude.{
  String, Bool, not, ◌&&◌, Option, none, some, List, [], ◌∷◌, any, str_eq, if◌then◌else◌, Result,
  ok, ◌>>=◌, ok_or,
}
use ciss.Prelude.Map
use ciss.Prelude.Text.{concat}
use ciss.Receipts.{Receipt}
use ciss.Serde.{Serde}
use ciss.Store.{PersistError, json, JsonRow, Store}

-- `ORDER BY rowid DESC LIMIT 1`.
unfoldable pub last_match : (JsonRow → Bool) → List JsonRow → Option JsonRow
last_match test [] = none
last_match test (row ∷ rows) =
    let later = last_match test rows in
    elim later [ some found ↦ some found | none ↦ if test row then some row else none ]

-- The same row with another text.
unfoldable pub update_last : (JsonRow → Bool) → String → List JsonRow → List JsonRow
update_last test text [] = []
update_last test text (row ∷ rows) =
    let later = update_last test text rows in
    if any test rows
    then row ∷ later
    else if test row
    then record row { json = text } ∷ rows
    else row ∷ rows

-- The receipt with one more signature.
unfoldable pub with_signature : Receipt → String → String → Receipt
with_signature r signer sig = record r { sigs = Map.insert signer sig r.sigs }

module _ ⦃j : Serde⦄ (like : String → String → Bool) where
  abbrev pub mentions : String → String → JsonRow → Bool
  mentions did content_hash row =
      str_eq row.did did && like row.json (concat ("%" ∷ content_hash ∷ "%" ∷ []))

  unfoldable pub countersign_receipt :
      Store → String → String → String → String → Result PersistError (Option (Store × Receipt))
  unfolding last_match update_last with_signature
  countersign_receipt s did content_hash signer sig =
      elim (last_match (mentions did content_hash) s.receipt) [
        | none ↦ ok none
        | some row ↦ ok_or (j.receipt_text.from_text row.json) json >>= λ receipt.
            if not (str_eq receipt.content_hash content_hash)
            then ok none
            else (let completed = with_signature receipt signer sig in
                let text = j.receipt_text.to_text completed in
                ok (
                  some (
                    record s { receipt = update_last (mentions did content_hash) text s.receipt },
                    completed,
                  )))
      ]
