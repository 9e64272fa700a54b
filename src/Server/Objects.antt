-- ===== src/Server/Objects.antt =====
-- src/server.rs: `op_put_object` and `op_get_object`. The total of a receipt is a `usize`; a total
-- that does not fit stops the program and is outside the model.
pub mod Steps
pub mod Quota
pub mod Cached
pub mod Attested
pub mod Metering
pub mod Gates
pub mod Reads
use ciss.Prelude.{
  ℕ, ◌+◌, ◌-◌, ◌<◌, ◌≤◌, min, String, Bool, true, false, not, ◌&&◌, Option, none, some, List, [],
  ◌∷◌, ltb, leb, ◌==◌, str_eq, if◌then◌else◌, length, Result, ok, err, ◌>>=◌, ◌>>◌, refuse_if,
}
use ciss.Prelude.Map
use ciss.Crypto.{Bytes, Primitives, Keypair, sha256_hex, sign_message}
use ciss.Dials.{AccountMode, is_drawdown, ReceiptModeChoice}
use ciss.Pricing.{postage_cents}
use ciss.Receipts.{
  Direction, ReceiptMode, ReceiptCore, Receipt, Canonical, new_core, select_mode, content_hash_of,
  make_unilateral_receipt,
}
use ciss.Receipts.Direction.{upload, download}
use ciss.Receipts.ReceiptMode.{unilateral, bilateral}
use ciss.Serde.{Serde}
use ciss.Store.{PersistError, ReceiptTotals, total_bytes, Store}
use ciss.Store.Meter.{
  running_totals, append_receipt, add_stored_bytes, store_usage, did_stored_bytes,
}
use ciss.Store.Dials.{at_rest_dial, spend_dial, account_mode, receipt_mode_dial, period_baseline}
use ciss.Blobs.{BlobError, missing, too_large, io, BlobStore}
use ciss.Server.{
  ServerError, persist, blob, not_found, object_too_large, tampered, byte_count_mismatch,
  store_full, did_quota_exceeded, drawdown_active, spend_ceiling, Limits, saturating_add, lift,
  Provider, AppState,
}

-- `(Some(p), Some(d)) => Some(p.min(d))` and the other cases.
unfoldable pub effective_cap : Option ℕ → Option ℕ → Option ℕ
effective_cap (some p) (some d) = some (min p d)
effective_cap (some p) none = some p
effective_cap none dial = dial

abbrev pub over_cap : Option ℕ → ℕ → Bool
over_cap none n = false
over_cap (some cap) n = ltb cap n

abbrev pub blob_error : BlobError → ServerError
blob_error (missing _ _) = not_found
blob_error (too_large _ _ size max) = object_too_large size max
blob_error (io did cid) = blob (io did cid)

-- What a new object is.
pub record Stored : Type 0 where
  pub cid : String
  pub bytes : ℕ
  pub mode : ReceiptMode
  pub receipt_hash : String

module _ ⦃p : Primitives⦄ ⦃b : BlobStore⦄ ⦃j : Serde⦄ ⦃c : Canonical ReceiptCore⦄ where
  unfoldable pub spend_gate : ℕ → ℕ → ℕ → ℕ → Result ServerError (Unit {0})
  spend_gate ceiling_cents baseline total size =
      let period_bytes = total - baseline in
      let spent_cents = postage_cents period_bytes in
      let needed_cents = postage_cents (saturating_add period_bytes size) in
      refuse_if (ltb ceiling_cents needed_cents && ltb spent_cents needed_cents)
        (spend_ceiling needed_cents spent_cents ceiling_cents)

  -- The gates in front of a store that do not depend on the bytes at rest.
  unfoldable pub dial_gates : Store → String → ℕ → Result ServerError (Unit {0})
  unfolding spend_gate
  dial_gates s did size =
      refuse_if (is_drawdown (account_mode s did)) drawdown_active >> elim (spend_dial s did) [
        | none ↦ ok tt
        | some ceiling_cents ↦ lift (period_baseline s did) >>= λ baseline.
            lift (running_totals s did) >>= λ totals.
            spend_gate ceiling_cents baseline (total_bytes totals) size
      ]

  -- The gates in front of bytes that are new on disk.
  unfoldable pub quota_gates : Limits → Store → String → ℕ → Result ServerError (Unit {0})
  quota_gates limits s did size =
      refuse_if (ltb limits.store_ceiling (saturating_add (store_usage s) size)) store_full
      >> refuse_if
          (over_cap (effective_cap limits.did_cap (at_rest_dial s did))
            (saturating_add (did_stored_bytes s did) size))
          did_quota_exceeded

  unfoldable pub gate_new : Limits → Store → String → ℕ → Bool → Result ServerError (Unit {0})
  gate_new limits s did size true = quota_gates limits s did size
  gate_new limits s did size false = ok tt

  -- Whether the bytes may be written, and whether they are new.
  unfoldable pub admit_put : AppState → String → String → ℕ → Result ServerError Bool
  unfolding gate_new
  admit_put state did cid size =
      let is_new_store = not (b.has state.blobs did cid) in
      dial_gates state.store did size
      >> gate_new state.limits state.store did size is_new_store
      >> ok is_new_store

  unfoldable pub boundary_receipt_mode : Store → String → ℕ → ReceiptMode
  boundary_receipt_mode s did boundary =
      let default : ReceiptMode = elim (receipt_mode_dial s did) [
        | ReceiptModeChoice.bilateral ↦ bilateral
        | ReceiptModeChoice.unilateral ↦ unilateral
      ] in
      select_mode (record { bytes = boundary; trust_distance = none }) default

  unfoldable pub build_boundary_receipt : AppState → ReceiptCore → ReceiptMode → Receipt
  build_boundary_receipt state core unilateral =
      make_unilateral_receipt core state.provider.id state.provider.keypair
  build_boundary_receipt state core bilateral =
      let content_hash = content_hash_of core in
      record {
        core = core;
        content_hash = content_hash;
        mode = bilateral;
        sigs = Map.insert state.provider.id (sign_message state.provider.keypair content_hash) [];
      }

  -- From the DID to the provider.
  abbrev pub upload_core : AppState → String → String → ℕ → ℕ → ReceiptCore
  upload_core state did cid boundary total =
      new_core upload cid (0, boundary) total state.day (account_mode state.store did)
        state.provider.id did

  -- From the provider to the DID.
  abbrev pub download_core : AppState → String → String → ℕ → ℕ → ReceiptCore
  download_core state did cid boundary total =
      new_core download cid (0, boundary) total state.day (account_mode state.store did) did
        state.provider.id

  -- The core of a transfer, where the two handlers share what follows it.
  unfoldable pub transfer_core : AppState → Direction → String → String → ℕ → ℕ → ReceiptCore
  transfer_core state upload did cid boundary total = upload_core state did cid boundary total
  transfer_core state download did cid boundary total = download_core state did cid boundary total

  unfoldable pub transfer_receipt :
      AppState → Direction → String → String → ℕ → Result ServerError Receipt
  transfer_receipt state direction did cid boundary =
      lift (running_totals state.store did) >>= λ totals. ok (
        build_boundary_receipt state
          (transfer_core state direction did cid boundary (total_bytes totals + boundary))
          (boundary_receipt_mode state.store did boundary))

  -- A new store adds to the bytes at rest; a repeated one does not.
  unfoldable pub count_new : Store → String → ℕ → Bool → Result PersistError Store
  count_new s did boundary true = add_stored_bytes s did boundary
  count_new s did boundary false = ok s

  -- The last part of `op_put_object`: the count of the bytes at rest, then the receipt.
  unfoldable pub record_upload :
      AppState → String → String → ℕ → Bool → Receipt → AppState × Result ServerError Stored
  record_upload state did cid boundary is_new_store receipt =
      elim (count_new state.store did boundary is_new_store) [
        | err e ↦ (state, err (persist e))
        | ok counted ↦ elim (append_receipt counted did receipt) [
          | err e ↦ (record state { store = counted }, err (persist e))
          | ok metered ↦ (
            record state { store = metered },
            ok (record {
              cid = cid;
              bytes = boundary;
              mode = receipt.mode;
              receipt_hash = receipt.content_hash;
            }),
          )
        ]
      ]

  -- Behind the write to the backend.
  unfoldable pub meter_upload :
      AppState → String → String → ℕ → Bool → ℕ → AppState × Result ServerError Stored
  unfolding record_upload
  meter_upload state did cid boundary is_new_store written =
      if not (written == boundary)
      then (state, err (byte_count_mismatch boundary written))
      else elim (transfer_receipt state upload did cid boundary) [
        | err e ↦ (state, err e)
        | ok receipt ↦ record_upload state did cid boundary is_new_store receipt
      ]

  unfoldable pub op_put_object : AppState → String → Bytes → AppState × Result ServerError Stored
  unfolding meter_upload
  op_put_object state did bytes =
      let boundary = length bytes in
      let cid = sha256_hex bytes in
      elim (admit_put state did cid boundary) [
        | err e ↦ (state, err e)
        | ok is_new_store ↦
            let (blobs, written) = b.put state.blobs did cid bytes in
            let after = record state { blobs = blobs } in
            elim written [
              | err e ↦ (after, err (blob e))
              | ok n ↦ meter_upload after did cid boundary is_new_store n
            ]
      ]

  -- Behind the check of the content address.
  unfoldable pub meter_download :
      AppState → String → String → Bytes → AppState × Result ServerError Bytes
  meter_download state did cid bytes =
      elim (transfer_receipt state download did cid (length bytes)) [
        | err e ↦ (state, err e)
        | ok receipt ↦ elim (append_receipt state.store did receipt) [
          | err e ↦ (state, err (persist e))
          | ok metered ↦ (record state { store = metered }, ok bytes)
        ]
      ]

  unfoldable pub op_get_object : AppState → String → String → AppState × Result ServerError Bytes
  unfolding meter_download
  op_get_object state did cid = elim (b.get state.blobs did cid) [
    | err e ↦ (state, err (blob_error e))
    | ok bytes ↦
        if not (str_eq (sha256_hex bytes) cid)
        then (state, err (tampered cid (sha256_hex bytes)))
        else meter_download state did cid bytes
  ]
