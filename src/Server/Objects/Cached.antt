-- ===== src/Server/Objects/Cached.antt =====
-- The cached totals go on agreeing with the receipts on every outcome of a transfer.
use ciss.Prelude.{ℕ, ◌≡◌, sym, subst, inl, inr, String, Bool, true, false, length, ok, ok-injective}
use ciss.Crypto.{Bytes, Primitives}
use ciss.Receipts.{ReceiptCore, Canonical}
use ciss.Serde.{Serde}
use ciss.Store.{Store}
use ciss.Store.Meter.Cache.{IsCached, append_receipt-IsCached}
use ciss.Store.Meter.Usage.{add_stored_bytes-IsCached}
use ciss.Blobs.{BlobStore}
use ciss.Server.{AppState}
use ciss.Server.Objects.{count_new, op_put_object, op_get_object}
use ciss.Server.Objects.Steps.{
  Uploads, same, counted, metered, op_put_object-Uploads, op_get_object-appends,
}

module _ ⦃p : Primitives⦄ ⦃b : BlobStore⦄ ⦃j : Serde⦄ ⦃c : Canonical ReceiptCore⦄ where
  count_new-IsCached :
      (before after : Store) (did : String) (size : ℕ) (is_new : Bool)
      → IsCached before
      → count_new before did size is_new ≡ ok after
      → IsCached after
  unfolding count_new
  count_new-IsCached before after did size true cached h =
      add_stored_bytes-IsCached before after did size cached h
  count_new-IsCached before after did size false cached h = subst IsCached (ok-injective h) cached

  Uploads-IsCached :
      (before after : Store) (did : String) (size : ℕ) (is_new : Bool)
      → IsCached before
      → Uploads before did size is_new after
      → IsCached after
  Uploads-IsCached before after did size is_new cached (same e) = subst IsCached (sym e) cached
  Uploads-IsCached before after did size is_new cached (counted e) =
      count_new-IsCached before after did size is_new cached e
  Uploads-IsCached before after did size is_new cached (metered s r e a) =
      append_receipt-IsCached s after did r (count_new-IsCached before s did size is_new cached e) a

  -- The cached totals of every DID equal what its receipts add up to after a store and after a read,
  -- whatever the outcome, when they did before.
  pub transfers-IsCached :
      (state : AppState) (did cid : String) (bytes : Bytes)
      → IsCached state.store
      → IsCached (op_put_object state did bytes).0.store
        × IsCached (op_get_object state did cid).0.store
  transfers-IsCached state did cid bytes cached = (
    elim (op_put_object-Uploads state did bytes) [
      | inl unchanged ↦ subst IsCached (sym unchanged) cached
      | inr (is_new, admitted, uploads) ↦
          Uploads-IsCached state.store _ did (length bytes) is_new cached uploads
    ],
    elim (op_get_object-appends state did cid) [
      | inl unchanged ↦ subst IsCached (sym unchanged) cached
      | inr (r, done) ↦ append_receipt-IsCached state.store _ did r cached done
    ],
  )
