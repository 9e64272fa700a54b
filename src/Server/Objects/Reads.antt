-- ===== src/Server/Objects/Reads.antt =====
-- `op_get_object`: what is served is what the address names, and no setting of the owner stands in
-- the way of a read.
use ciss.Prelude.{
  ok-injective, ℕ, ◌+◌, ◌≤◌, ◌≡◌, refl, sym, ◌∙◌, ap, inl, inr, String, Bool, true, [], ◌∷◌, ◌++◌,
  if◌then◌else◌, ◌==◌, str_eq, str_eq→eq, str_eq_refl, length, Result, ok, ok->>=, Result-cases,
  Bool-cases, arith,
}
use ciss.Crypto.{Bytes, Primitives, sha256_hex}
use ciss.Dials.{is_drawdown}
use ciss.Store.Dials.{account_mode}
use ciss.Receipts.{Direction, ReceiptCore, Receipt, Canonical}
use ciss.Receipts.Direction.{upload, download}
use ciss.Serde.{Serde}
use ciss.Store.{ReceiptTotals, total_bytes}
use ciss.Store.Meter.{append_receipt, running_totals}
use ciss.Store.Meter.Cache.{append_receipt-succeeds, running_totals-append_receipt}
use ciss.Blobs.{BlobStore, MemoryBlobStore, memory_get-memory_put, max_object_bytes}
use ciss.Server.{ServerError, AppState, lift}
use ciss.Server.Objects.{
  transfer_core, admit_put, transfer_receipt, count_new, record_upload, meter_upload, op_put_object,
  meter_download, op_get_object, Stored,
}
use ciss.Server.Objects.Steps.{op_put_object-written, op_get_object-served}
use ciss.Server.Objects.Metering.{Metered, op_put_object-Metered}
use ciss.Server.Objects.Attested.{
  Attests, transfer_receipt-core, transfer_core-Attests, append_receipt-receipt, bump-download,
}

module _ ⦃p : Primitives⦄ ⦃b : BlobStore⦄ ⦃j : Serde⦄ ⦃c : Canonical ReceiptCore⦄ where
  meter_download-bytes :
      (state : AppState) (did cid : String) (found : Bytes) {bytes : Bytes}
      → (meter_download state did cid found).1 ≡ ok bytes
      → found ≡ bytes
  unfolding meter_download
  meter_download-bytes state did cid found h =
      elim (Result-cases (transfer_receipt state download did cid (length found))) [
        | inr (e, bad) ↦ ground arith
        | inl (r, made) ↦ elim (Result-cases (append_receipt state.store did r)) [
          | inr (e, bad) ↦ ground arith
          | inl (after, done) ↦ ground arith
        ]
      ]

  -- Bytes that are served are the backend's and have the content address that was asked for.
  pub op_get_object-integrity :
      (state : AppState) (did cid : String) {bytes : Bytes}
      → (op_get_object state did cid).1 ≡ ok bytes
      → (b.get state.blobs did cid ≡ ok bytes) × (sha256_hex bytes ≡ cid)
  unfolding op_get_object
  op_get_object-integrity state did cid {bytes} h =
      elim (Result-cases (b.get state.blobs did cid)) [
        | inr (e, bad) ↦ ground arith
        | inl (found, got) ↦ elim (Bool-cases (str_eq (sha256_hex found) cid)) [
          | inr differs ↦ ground arith
          | inl equal ↦
              let is : found ≡ bytes = meter_download-bytes state did cid found (ground arith) in
              (got ∙ ap ok is, ap sha256_hex (sym is) ∙ str_eq→eq (sha256_hex found) cid equal)
        ]
      ]

  transfer_receipt-succeeds :
      (state : AppState) (direction : Direction) (did cid : String) (boundary : ℕ)
      {totals : ReceiptTotals}
      → running_totals state.store did ≡ ok totals
      → (r : Receipt) × (transfer_receipt state direction did cid boundary ≡ ok r)
  unfolding transfer_receipt
  transfer_receipt-succeeds state direction did cid boundary h =
      (_, ok->>= (lift (running_totals state.store did)) _ (ap lift h))

  -- A read of bytes that the backend has and that match their address, under a DID whose totals can be
  -- read, succeeds, whatever the account mode and the dials of the owner are. It leaves one more
  -- receipt, at the end of the table: a download of that address and of the length of the bytes, from
  -- the provider to the DID, under the account mode in force and with the total of all bytes that the
  -- DID moved up and down so far, these included. The totals of the DID gain one receipt and
  -- that many downloaded bytes, which count as a drain too where that mode is drawdown.
  pub op_get_object-never_gated :
      (state : AppState) (did cid : String) (bytes : Bytes) (t : ReceiptTotals)
      → b.get state.blobs did cid ≡ ok bytes
      → sha256_hex bytes ≡ cid
      → running_totals state.store did ≡ ok t
      → ((op_get_object state did cid).1 ≡ ok bytes)
        × (running_totals (op_get_object state did cid).0.store did
            ≡ ok (record t {
              receipt_count = t.receipt_count + 1;
              download_bytes = t.download_bytes + length bytes;
              drawdown_download_bytes =
                  t.drawdown_download_bytes
                  + (if is_drawdown (account_mode state.store did) then length bytes else 0);
            }))
        × (r : Receipt) × Attests r download cid
            (length bytes)
            (t.upload_bytes + t.download_bytes + length bytes)
            (account_mode state.store did)
            did
            state.provider.id
        × ((op_get_object state did cid).0.store.receipt
            ≡ state.store.receipt ++ record { did = did; json = j.receipt_text.to_text r } ∷ [])
  unfolding Attests total_bytes
  op_get_object-never_gated state did cid bytes t got address before =
      let (r, made) = transfer_receipt-succeeds state download did cid (length bytes) before in
      let (after, done) = append_receipt-succeeds state.store did r before in
      let equal : str_eq (sha256_hex bytes) cid ≡ true = rw address (str_eq_refl cid) in
      let is = op_get_object-served state did cid bytes r after got equal made done in
      let (t', read, core) = transfer_receipt-core state download did cid (length bytes) made in
      let is_t : t' ≡ t = ok-injective (sym read ∙ before) in
      let of_t : r.core
          ≡ transfer_core state download did cid (length bytes) (total_bytes t + length bytes) =
        core
        ∙ ap
            (λ (x : ReceiptTotals).
              transfer_core state download did cid (length bytes) (total_bytes x + length bytes))
            is_t in
      let says =
        (transfer_core-Attests state did cid (length bytes) (total_bytes t + length bytes) r).1
          of_t in
      let counted =
        bump-download t r.core (length bytes) (account_mode state.store did) says.0 says.2 says.4 in
      (
        ap (λ (u : AppState × Result ServerError Bytes). u.1) is,
        ap (λ (u : AppState × Result ServerError Bytes). running_totals u.0.store did) is
            ∙ running_totals-append_receipt state.store after did r done
            ∙ rw before (ap ok counted),
        r,
        says,
        ap (λ (u : AppState × Result ServerError Bytes). u.0.store.receipt) is
            ∙ append_receipt-receipt state.store after did r done,
      )

  record_upload-blobs :
      (state : AppState) (did cid : String) (boundary : ℕ) (is_new : Bool) (r : Receipt)
      → (record_upload state did cid boundary is_new r).0.blobs ≡ state.blobs
  unfolding record_upload
  record_upload-blobs state did cid boundary is_new r =
      elim (Result-cases (count_new state.store did boundary is_new)) [
        | inr (e, bad) ↦ rw (record_upload, bad) refl
        | inl (s, good) ↦ elim (Result-cases (append_receipt s did r)) [
          | inr (e, bad) ↦ rw (record_upload, good, bad) refl
          | inl (after, done) ↦ rw (record_upload, good, done) refl
        ]
      ]

  meter_upload-blobs :
      (state : AppState) (did cid : String) (boundary : ℕ) (is_new : Bool) (written : ℕ)
      → (meter_upload state did cid boundary is_new written).0.blobs ≡ state.blobs
  unfolding meter_upload
  meter_upload-blobs state did cid boundary is_new written =
      elim (Bool-cases (written == boundary)) [
        | inr differs ↦ rw (meter_upload, differs) refl
        | inl equal ↦ elim (Result-cases (transfer_receipt state upload did cid boundary)) [
          | inr (e, bad) ↦ rw (meter_upload, equal, bad) refl
          | inl (r, made) ↦
              rw (meter_upload, equal, made) (record_upload-blobs state did cid boundary is_new r)
        ]
      ]

  op_put_object-blobs :
      (state : AppState) (did : String) (bytes : Bytes) {st : Stored}
      → (op_put_object state did bytes).1 ≡ ok st
      → (op_put_object state did bytes).0.blobs ≡ (b.put state.blobs did (sha256_hex bytes) bytes).0
  unfolding op_put_object
  op_put_object-blobs state did bytes h =
      let cid = sha256_hex bytes in
      elim (Result-cases (admit_put state did cid (length bytes))) [
        | inr (e, refused) ↦ ground arith
        | inl (is_new, admitted) ↦ elim (Result-cases (b.put state.blobs did cid bytes).1) [
          | inr (e, bad) ↦ ground arith
          | inl (n, good) ↦
              ap (λ (u : AppState × Result ServerError Stored). u.0.blobs)
                (op_put_object-written state did bytes is_new n admitted good)
              ∙ meter_upload-blobs (record state { blobs = (b.put state.blobs did cid bytes).0 })
                  did cid (length bytes) is_new n
        ]
      ]

  -- A stored object is read back when the backend gives back what was put.
  read_back :
      (state : AppState) (did : String) (bytes : Bytes) {st : Stored}
      → (op_put_object state did bytes).1 ≡ ok st
      → b.get (b.put state.blobs did (sha256_hex bytes) bytes).0 did (sha256_hex bytes) ≡ ok bytes
      → (op_get_object (op_put_object state did bytes).0 did st.cid).1 ≡ ok bytes
  unfolding Metered
  read_back state did bytes {st} h got =
      let (_, _, _, after, _, _, reported) = op_put_object-Metered state did bytes h in
      rw (ap (λ (x : Stored). x.cid) reported)
        (op_get_object-never_gated (op_put_object state did bytes).0 did (sha256_hex bytes) bytes _
          (rw (op_put_object-blobs state did bytes h) got) refl after).0

module _ ⦃p : Primitives⦄ ⦃j : Serde⦄ ⦃c : Canonical ReceiptCore⦄ where
  -- On the backend in memory, bytes up to the read limit that were stored are served under the
  -- address that the store reported.
  pub op_get_object-op_put_object :
      (state : AppState ⦃b = MemoryBlobStore⦄) (did : String) (bytes : Bytes) {st : Stored}
      → length bytes ≤ max_object_bytes
      → (op_put_object ⦃b = MemoryBlobStore⦄ state did bytes).1 ≡ ok st
      → (op_get_object ⦃b = MemoryBlobStore⦄
          (op_put_object ⦃b = MemoryBlobStore⦄ state did bytes).0
          did
          st.cid).1
        ≡ ok bytes
  op_get_object-op_put_object state did bytes small h =
      read_back ⦃b = MemoryBlobStore⦄ state did bytes h
        (memory_get-memory_put state.blobs did (sha256_hex bytes) bytes small)
