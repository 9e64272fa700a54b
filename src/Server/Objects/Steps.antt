-- ===== src/Server/Objects/Steps.antt =====
-- What `op_put_object` and `op_get_object` can do to the store, as the steps that it takes.
use ciss.Prelude.{
  ℕ, ◌≡◌, refl, sym, ◌∙◌, ap, subst, inl, inr, ◌⊎◌, String, Bool, true, ◌==◌, str_eq, length,
  Result, ok, Result-cases, Bool-cases, arith,
}
use ciss.Crypto.{Bytes, Primitives, sha256_hex}
use ciss.Receipts.{ReceiptCore, Receipt, Canonical}
use ciss.Receipts.Direction.{upload, download}
use ciss.Serde.{Serde}
use ciss.Store.{Store}
use ciss.Store.Meter.{append_receipt}
use ciss.Blobs.{BlobStore}
use ciss.Server.{ServerError, AppState}
use ciss.Server.Objects.{
  admit_put, transfer_receipt, count_new, record_upload, meter_upload, op_put_object,
  meter_download, op_get_object, Stored,
}

module _ ⦃p : Primitives⦄ ⦃b : BlobStore⦄ ⦃j : Serde⦄ ⦃c : Canonical ReceiptCore⦄ where
  -- Nothing; or the count of new bytes alone, where the receipt cannot be written; or both.
  pub data Uploads (before : Store) (did : String) (boundary : ℕ) (is_new : Bool) (after : Store)
      : Type 0 where
    same : after ≡ before → Uploads before did boundary is_new after
    counted :
        count_new before did boundary is_new ≡ ok after → Uploads before did boundary is_new after
    metered :
        (s : Store) (r : Receipt)
        → count_new before did boundary is_new ≡ ok s
        → append_receipt s did r ≡ ok after
        → Uploads before did boundary is_new after

  record_upload-Uploads :
      (state : AppState) (did cid : String) (boundary : ℕ) (is_new : Bool) (receipt : Receipt)
      → Uploads state.store did boundary is_new
          (record_upload state did cid boundary is_new receipt).0.store
  unfolding record_upload
  record_upload-Uploads state did cid boundary is_new receipt =
      elim (Result-cases (count_new state.store did boundary is_new)) [
        | inr (e, bad) ↦ same (ground arith)
        | inl (s, good) ↦ elim (Result-cases (append_receipt s did receipt)) [
          | inr (e, bad) ↦ counted (ground arith)
          | inl (after, done) ↦ metered s receipt good (ground arith)
        ]
      ]

  pub meter_upload-Uploads :
      (state : AppState) (did cid : String) (boundary : ℕ) (is_new : Bool) (written : ℕ)
      → Uploads state.store did boundary is_new
          (meter_upload state did cid boundary is_new written).0.store
  unfolding meter_upload
  meter_upload-Uploads state did cid boundary is_new written =
      elim (Bool-cases (written == boundary)) [
        | inr differs ↦ same (rw differs refl)
        | inl equal ↦ elim (Result-cases (transfer_receipt state upload did cid boundary)) [
          | inr (e, bad) ↦ same (rw (equal, bad) refl)
          | inl (r, good) ↦ rw (equal, good) (record_upload-Uploads state did cid boundary is_new r)
        ]
      ]

  pub op_put_object-written :
      (state : AppState) (did : String) (bytes : Bytes) (is_new : Bool) (n : ℕ)
      → admit_put state did (sha256_hex bytes) (length bytes) ≡ ok is_new
      → (b.put state.blobs did (sha256_hex bytes) bytes).1 ≡ ok n
      → op_put_object state did bytes
        ≡ meter_upload
            (record state { blobs = (b.put state.blobs did (sha256_hex bytes) bytes).0 })
            did
            (sha256_hex bytes)
            (length bytes)
            is_new
            n
  unfolding op_put_object
  op_put_object-written state did bytes is_new n admitted written =
      rw (op_put_object, admitted, written) refl

  pub op_get_object-served :
      (state : AppState) (did cid : String) (bytes : Bytes) (r : Receipt) (after : Store)
      → b.get state.blobs did cid ≡ ok bytes
      → str_eq (sha256_hex bytes) cid ≡ true
      → transfer_receipt state download did cid (length bytes) ≡ ok r
      → append_receipt state.store did r ≡ ok after
      → op_get_object state did cid ≡ (record state { store = after }, ok bytes)
  unfolding op_get_object meter_download
  op_get_object-served state did cid bytes r after got equal made done =
      rw (op_get_object, got, equal, meter_download, made, done) refl

  -- A store is refused with nothing changed, or admitted and counted.
  pub op_put_object-Uploads :
      (state : AppState) (did : String) (bytes : Bytes)
      → ((op_put_object state did bytes).0.store ≡ state.store)
        ⊎ ((is_new : Bool) × (admit_put state did (sha256_hex bytes) (length bytes) ≡ ok is_new)
            × Uploads state.store did (length bytes) is_new (op_put_object state did bytes).0.store)
  unfolding op_put_object
  op_put_object-Uploads state did bytes =
      let cid = sha256_hex bytes in
      let boundary = length bytes in
      elim (Result-cases (admit_put state did cid boundary)) [
        | inr (e, refused) ↦ inl (rw (op_put_object, refused) refl)
        | inl (is_new, admitted) ↦ elim (Result-cases (b.put state.blobs did cid bytes).1) [
          | inr (e, bad) ↦ inl (rw (op_put_object, admitted, bad) refl)
          | inl (n, good) ↦ inr (
            is_new,
            admitted,
            subst
                (λ (u : AppState × Result ServerError Stored).
                  Uploads state.store did boundary is_new u.0.store)
                (sym (op_put_object-written state did bytes is_new n admitted good))
                (meter_upload-Uploads (record state { blobs = (b.put state.blobs did cid bytes).0 })
                  did cid boundary is_new n),
          )
        ]
      ]

  -- A read appends at most one receipt.
  pub op_get_object-appends :
      (state : AppState) (did cid : String)
      → ((op_get_object state did cid).0.store ≡ state.store)
        ⊎ ((r : Receipt) × (append_receipt state.store did r
              ≡ ok (op_get_object state did cid).0.store))
  unfolding op_get_object meter_download
  op_get_object-appends state did cid = elim (Result-cases (b.get state.blobs did cid)) [
    | inr (e, bad) ↦ inl (rw (op_get_object, bad) refl)
    | inl (bytes, good) ↦ elim (Bool-cases (str_eq (sha256_hex bytes) cid)) [
      | inr differs ↦ inl (rw (op_get_object, good, differs) refl)
      | inl equal ↦ elim (Result-cases (transfer_receipt state download did cid (length bytes))) [
        | inr (e, bad) ↦ inl (rw (op_get_object, good, equal, meter_download, bad) refl)
        | inl (r, made) ↦ elim (Result-cases (append_receipt state.store did r)) [
          | inr (e, bad) ↦ inl (rw (op_get_object, good, equal, meter_download, made, bad) refl)
          | inl (after, done) ↦ inr (
            r,
            done
                ∙ sym (
                    ap (λ (u : AppState × Result ServerError Bytes). ok u.0.store)
                      (op_get_object-served state did cid bytes r after good equal made done)),
          )
        ]
      ]
    ]
  ]
