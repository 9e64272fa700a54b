-- ===== src/Store/Meter.antt =====
-- src/persist.rs: the receipts of each DID and the cached totals over them. An operation that fails
-- rolls its transaction back: the caller keeps the store that it had.
pub mod Cache
pub mod Usage
pub mod Countersigned
pub mod Unmoved
use ciss.Prelude.{
  ℕ, ◌+◌, String, Bool, true, false, not, ◌&&◌, Option, none, some, List, [], ◌∷◌, ◌++◌, str_eq,
  if◌then◌else◌, sum_by, Result, ok, err, ◌>>=◌,
}
use ciss.Prelude.Map
use ciss.Prelude.Map.{Map}
use ciss.Dials.{AccountMode, drawdown, is_drawdown}
use ciss.Receipts.{Direction, upload, download, ReceiptCore, Receipt}
use ciss.Serde.{Serde}
use ciss.Store.{PersistError, json, ReceiptTotals, no_receipts, JsonRow, DidTotal, Store}

abbrev pub is_download : Direction → Bool
is_download download = true
is_download upload = false

-- The match of `sum_receipts` on the direction.
unfoldable pub tally : ReceiptTotals → ReceiptCore → ReceiptTotals
tally t core = elim core.direction [
  | upload ↦ record t {
    receipt_count = t.receipt_count + 1;
    upload_bytes = t.upload_bytes + core.bytes;
  }
  | download ↦ record t {
    receipt_count = t.receipt_count + 1;
    download_bytes = t.download_bytes + core.bytes;
    drawdown_download_bytes =
        if is_drawdown core.account_mode
        then t.drawdown_download_bytes + core.bytes
        else t.drawdown_download_bytes;
  }
]

unfoldable pub tally_all : ReceiptTotals → List Receipt → ReceiptTotals
tally_all t [] = t
tally_all t (r ∷ rest) = tally_all (tally t r.core) rest

-- The `UPDATE` of `append_receipt`: it adds what the receipt moved up, down and as a drain.
unfoldable pub bump : ReceiptTotals → ReceiptCore → ReceiptTotals
bump t core =
    let up : ℕ = if is_download core.direction then 0 else core.bytes in
    let down : ℕ = if is_download core.direction then core.bytes else 0 in
    let drain : ℕ =
      if is_download core.direction && is_drawdown core.account_mode then core.bytes else 0 in
    record {
      receipt_count = t.receipt_count + 1;
      upload_bytes = t.upload_bytes + up;
      download_bytes = t.download_bytes + down;
      drawdown_download_bytes = t.drawdown_download_bytes + drain;
    }

module _ ⦃j : Serde⦄ where
  read_receipt : String → Result PersistError Receipt
  read_receipt text = elim (j.receipt_text.from_text text) [ none ↦ err json | some r ↦ ok r ]

  load_rows : String → List JsonRow → Result PersistError (List Receipt)
  unfolding read_receipt
  load_rows did [] = ok []
  load_rows did (row ∷ rest) =
      let more = load_rows did rest in
      if str_eq row.did did then (do r ← read_receipt row.json; rs ← more; ok (r ∷ rs)) else more

  unfoldable pub load_receipts : Store → String → Result PersistError (List Receipt)
  unfolding load_rows
  load_receipts s did = load_rows did s.receipt

  unfoldable pub sum_receipts : Store → String → Result PersistError ReceiptTotals
  unfolding tally_all
  sum_receipts s did = load_receipts s did >>= λ rs. ok (tally_all no_receipts rs)

  unfoldable pub running_totals : Store → String → Result PersistError ReceiptTotals
  running_totals s did = elim (Map.get did s.did_total) [
    | some row ↦ ok row.totals
    | none ↦ sum_receipts s did
  ]

  unfoldable pub ensure_total_row : Store → String → Result PersistError DidTotal
  ensure_total_row s did = elim (Map.get did s.did_total) [
    | some row ↦ ok row
    | none ↦ sum_receipts s did >>= λ t. ok (record { totals = t; stored_bytes = 0 })
  ]

  unfoldable pub append_receipt : Store → String → Receipt → Result PersistError Store
  append_receipt s did receipt = ensure_total_row s did >>= λ row. ok (record s {
    receipt = s.receipt ++ record { did = did; json = j.receipt_text.to_text receipt } ∷ [];
    did_total = Map.upsert did (record row { totals = bump row.totals receipt.core }) s.did_total;
  })

  unfoldable pub add_stored_bytes : Store → String → ℕ → Result PersistError Store
  add_stored_bytes s did size = ensure_total_row s did >>= λ row. ok (record s {
    did_total = Map.upsert did (record row { stored_bytes = row.stored_bytes + size }) s.did_total;
  })

unfoldable pub store_usage : Store → ℕ
store_usage s = sum_by (λ (e : String × DidTotal). e.1.stored_bytes) s.did_total

unfoldable pub did_stored_bytes : Store → String → ℕ
did_stored_bytes s did = elim (Map.get did s.did_total) [ none ↦ 0 | some row ↦ row.stored_bytes ]
