-- ===== src/Server/Objects/Metering.antt =====
-- Transfers are metered: a successful one leaves exactly one receipt behind.
use ciss.Prelude.{
  ℕ, ◌+◌, ◌≡◌, refl, sym, ◌∙◌, ap, subst, inl, inr, String, Bool, true, false, [], ◌∷◌, ◌++◌, ◌==◌,
  length, Result, ok, >>=-eq-ok, ok-injective, Result-cases, Bool-cases, arith,
}
use ciss.Crypto.{Bytes, Primitives, sha256_hex}
use ciss.Receipts.{ReceiptCore, Receipt, Canonical}
use ciss.Receipts.Direction.{upload}
use ciss.Serde.{Serde}
use ciss.Store.{ReceiptTotals, Store, total_bytes}
use ciss.Store.Meter.{append_receipt, running_totals, add_stored_bytes, ensure_total_row}
use ciss.Store.Dials.{account_mode}
use ciss.Store.Meter.Cache.{running_totals-append_receipt}
use ciss.Store.Meter.Usage.{add_stored_bytes-running_totals}
use ciss.Blobs.{BlobStore}
use ciss.Server.{ServerError, AppState}
use ciss.Server.Objects.{
  admit_put, count_new, transfer_receipt, record_upload, meter_upload, op_put_object, Stored,
}
use ciss.Server.Objects.Steps.{op_put_object-written}
use ciss.Server.Objects.Attested.{
  Attests, transfer_receipt-core, transfer_core-Attests, append_receipt-receipt, bump-upload,
}

module _ ⦃p : Primitives⦄ ⦃b : BlobStore⦄ ⦃j : Serde⦄ ⦃c : Canonical ReceiptCore⦄ where
  count_new-running_totals :
      (before after : Store) (did : String) (size : ℕ) (is_new : Bool)
      → count_new before did size is_new ≡ ok after
      → running_totals after did ≡ running_totals before did
  unfolding count_new
  count_new-running_totals before after did size true h =
      add_stored_bytes-running_totals before after did size h
  count_new-running_totals before after did size false h =
      ap (λ u. running_totals u did) (sym (ok-injective h))

  record_upload-ok :
      (state : AppState) (did cid : String) (boundary : ℕ) (is_new : Bool) (r : Receipt)
      {st : Stored}
      → (record_upload state did cid boundary is_new r).1 ≡ ok st
      → (s : Store) × (count_new state.store did boundary is_new ≡ ok s)
        × (append_receipt s did r ≡ ok (record_upload state did cid boundary is_new r).0.store)
        × (st
            ≡ record { cid = cid; bytes = boundary; mode = r.mode; receipt_hash = r.content_hash })
  unfolding record_upload
  record_upload-ok state did cid boundary is_new r h =
      elim (Result-cases (count_new state.store did boundary is_new)) [
        | inr (e, bad) ↦ ground arith
        | inl (s, good) ↦ elim (Result-cases (append_receipt s did r)) [
          | inr (e, bad) ↦ ground arith
          | inl (after, done) ↦ (s, good, ground arith, ground arith)
        ]
      ]

  -- What a successful upload leaves: one more receipt, at the end of the table, totals with one more
  -- upload, and an outcome that names the object and that receipt.
  unfoldable pub Metered :
      AppState → String → String → ℕ → AppState × Result ServerError Stored → Stored → Type 0
  Metered state did cid boundary after st =
      (t : ReceiptTotals) × (r : Receipt) × (running_totals state.store did ≡ ok t)
      × (running_totals after.0.store did
          ≡ ok (record t {
            receipt_count = t.receipt_count + 1;
            upload_bytes = t.upload_bytes + boundary;
          }))
      × Attests r upload cid boundary (t.upload_bytes + t.download_bytes + boundary)
          (account_mode state.store did) state.provider.id did
      × (after.0.store.receipt
          ≡ state.store.receipt ++ record { did = did; json = j.receipt_text.to_text r } ∷ [])
      × (st ≡ record { cid = cid; bytes = boundary; mode = r.mode; receipt_hash = r.content_hash })

  count_new-receipt :
      (before after : Store) (did : String) (size : ℕ) (is_new : Bool)
      → count_new before did size is_new ≡ ok after
      → after.receipt ≡ before.receipt
  unfolding count_new add_stored_bytes
  count_new-receipt before after did size true h =
      let (row, _, is) = >>=-eq-ok (ensure_total_row before did) _ h in
      ap (λ (u : Store). u.receipt) (sym (ok-injective is))
  count_new-receipt before after did size false h =
      ap (λ (u : Store). u.receipt) (sym (ok-injective h))

  record_upload-Metered :
      (state : AppState) (did cid : String) (boundary : ℕ) (is_new : Bool) (r : Receipt)
      {st : Stored}
      → transfer_receipt state upload did cid boundary ≡ ok r
      → (record_upload state did cid boundary is_new r).1 ≡ ok st
      → Metered state did cid boundary (record_upload state did cid boundary is_new r) st
  unfolding Metered Attests total_bytes
  record_upload-Metered state did cid boundary is_new r {st} made h =
      let (t, before, core) = transfer_receipt-core state upload did cid boundary made in
      let (s, counts, appends, reported) = record_upload-ok state did cid boundary is_new r h in
      let says =
        (transfer_core-Attests state did cid boundary (total_bytes t + boundary) r).0 core in
      let after = (record_upload state did cid boundary is_new r).0.store in
      (
        t,
        r,
        before,
        running_totals-append_receipt s after did r appends
            ∙ rw (count_new-running_totals state.store s did boundary is_new counts, before)
                (ap ok (bump-upload t r.core boundary says.0 says.2)),
        says,
        append_receipt-receipt s after did r appends
            ∙ rw (count_new-receipt state.store s did boundary is_new counts) refl,
        reported,
      )

  meter_upload-recorded :
      (state : AppState) (did cid : String) (boundary : ℕ) (is_new : Bool) (written : ℕ)
      (r : Receipt)
      → (written == boundary) ≡ true
      → transfer_receipt state upload did cid boundary ≡ ok r
      → meter_upload state did cid boundary is_new written
        ≡ record_upload state did cid boundary is_new r
  unfolding meter_upload
  meter_upload-recorded state did cid boundary is_new written r equal made =
      rw (meter_upload, equal, made) refl

  meter_upload-Metered :
      (state : AppState) (did cid : String) (boundary : ℕ) (is_new : Bool) (written : ℕ)
      {st : Stored}
      → (meter_upload state did cid boundary is_new written).1 ≡ ok st
      → Metered state did cid boundary (meter_upload state did cid boundary is_new written) st
  unfolding meter_upload
  meter_upload-Metered state did cid boundary is_new written {st} h =
      elim (Bool-cases (written == boundary)) [
        | inr differs ↦ ground arith
        | inl equal ↦ elim (Result-cases (transfer_receipt state upload did cid boundary)) [
          | inr (e, bad) ↦ ground arith
          | inl (r, made) ↦
              let is = meter_upload-recorded state did cid boundary is_new written r equal made in
              subst
                (λ (u : AppState × Result ServerError Stored). Metered state did cid boundary u st)
                (sym is)
                (record_upload-Metered state did cid boundary is_new r made
                  (ap (λ (u : AppState × Result ServerError Stored). u.1) (sym is) ∙ h))
        ]
      ]

  -- A store that succeeds leaves one more receipt, at the end of the table: an upload of the address
  -- and the length of its bytes, from the DID to the provider, under the account mode in force and with
  -- the total of all bytes that the DID moved up and down so far, these included. The
  -- totals of the DID gain one receipt and that many uploaded bytes, and the outcome reports the
  -- address, the length, and the mode and hash of that receipt.
  pub op_put_object-Metered :
      (state : AppState) (did : String) (bytes : Bytes) {st : Stored}
      → (op_put_object state did bytes).1 ≡ ok st
      → Metered state did (sha256_hex bytes) (length bytes) (op_put_object state did bytes) st
  unfolding op_put_object Metered Attests
  op_put_object-Metered state did bytes {st} h =
      let cid = sha256_hex bytes in
      let boundary = length bytes in
      elim (Result-cases (admit_put state did cid boundary)) [
        | inr (e, refused) ↦ ground arith
        | inl (is_new, admitted) ↦ elim (Result-cases (b.put state.blobs did cid bytes).1) [
          | inr (e, bad) ↦ ground arith
          | inl (n, good) ↦
              let is = op_put_object-written state did bytes is_new n admitted good in
              subst
                (λ (u : AppState × Result ServerError Stored). Metered state did cid boundary u st)
                (sym is)
                (meter_upload-Metered (record state { blobs = (b.put state.blobs did cid bytes).0 })
                  did cid boundary is_new n
                  (ap (λ (u : AppState × Result ServerError Stored). u.1) (sym is) ∙ h))
        ]
      ]
