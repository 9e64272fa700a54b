-- ===== src/Examples/Served.antt =====
-- The claims on the object operations of the server, applied to a small instance.
use ciss.Server.Objects.{
  dial_gates, quota_gates, admit_put, boundary_receipt_mode, build_boundary_receipt,
  transfer_receipt, count_new,
}
use ciss.Store.Dials.{receipt_mode_dial}
use ciss.Store.Assertions.{find_row}
use ciss.Store.Meter.{ensure_total_row, append_receipt, add_stored_bytes}
use ciss.Blobs.{memory_has}
use ciss.Receipts.{make_unilateral_receipt}
use ciss.Store.Meter.{load_receipts}
use ciss.Store.Meter.{sum_receipts}
use ciss.Store.Dials.{stored_body}
use ciss.Store.Assertions.{assertion_json}
use ciss.Store.Dials.{dial_value}
use ciss.Prelude.{none, Result, ◌≤◌, ◌≡◌, refl, String, true, false, some, [], ◌∷◌, ok, err, arith}
use ciss.Prelude.Map
use ciss.Crypto.{Bytes, Keypair, sha256_hex}
use ciss.Dials.{active, is_drawdown}
use ciss.Receipts.{Receipt, new_core, content_hash_of}
use ciss.Receipts.Direction.{upload, download}
use ciss.Receipts.ReceiptMode.{unilateral}
use ciss.Blobs.{MemoryBlobStore, memory_put, memory_get}
use ciss.Store.{Store, empty_store, no_receipts, total_bytes}
use ciss.Store.Meter.{store_usage, did_stored_bytes, running_totals}
use ciss.Store.Meter.Cache.{IsCached}
use ciss.Store.Dials.{at_rest_dial, spend_dial, account_mode}
use ciss.Server.{AppState, on_ack, drawdown_active}
use ciss.Server.Objects.{op_put_object, op_get_object, effective_cap, Stored, transfer_core}
use ciss.Server.Objects.Quota.{op_put_object-quota, op_put_object-cap}
use ciss.Server.Objects.Attested.{Attests}
use ciss.Server.Objects.Metering.{Metered, op_put_object-Metered}
use ciss.Server.Objects.Reads.{
  op_get_object-integrity, op_get_object-never_gated, op_get_object-op_put_object,
}
use ciss.Server.Objects.Gates.{op_put_object-drawdown}
use ciss.Assertion.{Ack, owner_signed}
use ciss.Store.Assertions.{Record, save_assertion}
use ciss.Examples.Codec.{str}
use ciss.Examples.Toy.{toy}
use ciss.Examples.Settings.{toy_core, toy_serde}

abbrev signer : Keypair ⦃p = toy⦄
signer = record { label = "provider"; signing_key = 4 }

abbrev with_store : Store → AppState ⦃p = toy⦄ ⦃b = MemoryBlobStore⦄
with_store s = record {
  provider = record { id = "id:p"; keypair = signer; attest_keypair = signer };
  blobs = [];
  store = s;
  limits = record { store_ceiling = 1000; did_cap = some 100 };
  day = 0;
  admin_dids = [];
  admin_only_du = false;
  compaction = on_ack;
}

abbrev fresh : AppState ⦃p = toy⦄ ⦃b = MemoryBlobStore⦄
fresh = with_store empty_store

abbrev blob : Bytes
blob = 1 ∷ 2 ∷ 3 ∷ []

abbrev put : AppState ⦃p = toy⦄ ⦃b = MemoryBlobStore⦄ → AppState ⦃p = toy⦄ ⦃b = MemoryBlobStore⦄
put s =
    (op_put_object ⦃p = toy⦄ ⦃b = MemoryBlobStore⦄ ⦃j = toy_serde⦄ ⦃c = toy_core⦄ s "id:a" blob).0

op_put_object-cap_example : did_stored_bytes (put fresh).store "id:a" ≤ 100
unfolding effective_cap at_rest_dial dial_value assertion_json find_row did_stored_bytes Map.get
op_put_object-cap_example =
    op_put_object-cap ⦃p = toy⦄ ⦃b = MemoryBlobStore⦄ ⦃j = toy_serde⦄ ⦃c = toy_core⦄ fresh "id:a"
      blob 100 refl (omega arith) (omega arith)

op_put_object-quota_example : store_usage (put fresh).store ≤ 1000
unfolding store_usage
op_put_object-quota_example =
    op_put_object-quota ⦃p = toy⦄ ⦃b = MemoryBlobStore⦄ ⦃j = toy_serde⦄ ⦃c = toy_core⦄ fresh "id:a"
      blob (omega arith) (omega arith)

fresh-IsCached : IsCached ⦃j = toy_serde⦄ empty_store
unfolding IsCached running_totals Map.get
fresh-IsCached did = refl

abbrev cid : String
cid = sha256_hex ⦃p = toy⦄ blob

abbrev done : Stored
done = record {
  cid = cid;
  bytes = 3;
  mode = unilateral;
  receipt_hash =
      content_hash_of ⦃p = toy⦄ ⦃c = toy_core⦄
        (new_core upload cid (0, 3) 3 0 active "id:p" "id:a");
}

put_succeeds :
    (op_put_object ⦃p = toy⦄ ⦃b = MemoryBlobStore⦄ ⦃j = toy_serde⦄ ⦃c = toy_core⦄ fresh "id:a"
      blob).1
    ≡ ok done
unfolding make_unilateral_receipt memory_put memory_has total_bytes load_receipts sum_receipts
    running_totals ensure_total_row append_receipt add_stored_bytes store_usage did_stored_bytes
    assertion_json dial_value at_rest_dial spend_dial account_mode receipt_mode_dial effective_cap
    dial_gates quota_gates admit_put boundary_receipt_mode build_boundary_receipt transfer_core
    transfer_receipt count_new op_put_object Map.get Map.upsert
put_succeeds = refl

op_put_object-Metered_example :
    Metered ⦃p = toy⦄ ⦃b = MemoryBlobStore⦄ ⦃j = toy_serde⦄ ⦃c = toy_core⦄ fresh "id:a" cid 3
      (op_put_object ⦃p = toy⦄ ⦃b = MemoryBlobStore⦄ ⦃j = toy_serde⦄ ⦃c = toy_core⦄ fresh "id:a"
        blob)
      done
op_put_object-Metered_example =
    op_put_object-Metered ⦃p = toy⦄ ⦃b = MemoryBlobStore⦄ ⦃j = toy_serde⦄ ⦃c = toy_core⦄ fresh
      "id:a" blob put_succeeds

op_get_object-op_put_object_example :
    (op_get_object ⦃p = toy⦄ ⦃b = MemoryBlobStore⦄ ⦃j = toy_serde⦄ ⦃c = toy_core⦄
      (put fresh)
      "id:a"
      cid).1
    ≡ ok blob
op_get_object-op_put_object_example =
    op_get_object-op_put_object ⦃p = toy⦄ ⦃j = toy_serde⦄ ⦃c = toy_core⦄ fresh "id:a" blob
      (omega arith) put_succeeds

op_get_object-integrity_example :
    (memory_get (put fresh).blobs "id:a" cid ≡ ok blob) × (sha256_hex ⦃p = toy⦄ blob ≡ cid)
op_get_object-integrity_example =
    op_get_object-integrity ⦃p = toy⦄ ⦃b = MemoryBlobStore⦄ ⦃j = toy_serde⦄ ⦃c = toy_core⦄
      (put fresh) "id:a" cid op_get_object-op_put_object_example

-- An account in drawdown that already stores the object.
abbrev closed_store : Store
closed_store = record empty_store {
  assertion =
      record {
        did = "id:a";
        kind = "dial.account-mode";
        subkey = "";
        seq = 1;
        json = "unreadable";
        ack = "";
      }
      ∷ [];
}

abbrev closed : AppState ⦃p = toy⦄ ⦃b = MemoryBlobStore⦄
closed = record (with_store closed_store) { blobs = (memory_put [] "id:a" cid blob).0 }

-- The owner's record that closes the account.
abbrev closing : Record ⦃j = toy_serde⦄
closing = record {
  did = "id:a";
  kind = "dial.account-mode";
  subkey = none;
  seq = 1;
  body = str "unreadable" ∷ [];
  authorization = owner_signed (record { signer = "k"; sig = "s" });
}

abbrev ack : Ack
ack = record { signer = "p"; sig = "t" }

abbrev ok_or_empty {ℓ} : {E : Type ℓ} → Result E Store → Store
ok_or_empty (ok s) = s
ok_or_empty (err _) = empty_store

abbrev closing_store : Store
closing_store = ok_or_empty (save_assertion ⦃j = toy_serde⦄ empty_store closing ack)

closing_saved : save_assertion ⦃j = toy_serde⦄ empty_store closing ack ≡ ok closing_store
unfolding save_assertion
closing_saved = refl

op_put_object-drawdown_example :
    op_put_object ⦃p = toy⦄ ⦃b = MemoryBlobStore⦄ ⦃j = toy_serde⦄ ⦃c = toy_core⦄
      (record fresh { store = closing_store })
      "id:a"
      blob
    ≡ (record fresh { store = closing_store }, err drawdown_active)
op_put_object-drawdown_example =
    op_put_object-drawdown ⦃p = toy⦄ ⦃b = MemoryBlobStore⦄ ⦃j = toy_serde⦄ ⦃c = toy_core⦄ fresh
      empty_store closing_store closing ack blob refl refl refl closing_saved

has_blob : memory_get closed.blobs "id:a" cid ≡ ok blob
unfolding memory_get memory_put sha256_hex
has_blob = refl

no_totals : running_totals ⦃j = toy_serde⦄ closed_store "id:a" ≡ ok no_receipts
unfolding running_totals Map.get sum_receipts load_receipts
no_totals = refl

under_drawdown : is_drawdown (account_mode ⦃j = toy_serde⦄ closed_store "id:a") ≡ true
unfolding account_mode dial_value assertion_json stored_body
under_drawdown = refl

op_get_object-never_gated_example :
    ((op_get_object ⦃p = toy⦄ ⦃b = MemoryBlobStore⦄ ⦃j = toy_serde⦄ ⦃c = toy_core⦄ closed "id:a"
        cid).1
      ≡ ok blob)
    × (running_totals ⦃j = toy_serde⦄
          (op_get_object ⦃p = toy⦄ ⦃b = MemoryBlobStore⦄ ⦃j = toy_serde⦄ ⦃c = toy_core⦄ closed
            "id:a" cid).0.store
          "id:a"
        ≡ ok (record {
          receipt_count = 1;
          upload_bytes = 0;
          download_bytes = 3;
          drawdown_download_bytes = 3;
        }))
    × (r : Receipt) × Attests r download cid 3 3
        (account_mode ⦃j = toy_serde⦄ closed_store "id:a")
        "id:a"
        "id:p"
    × ((op_get_object ⦃p = toy⦄ ⦃b = MemoryBlobStore⦄ ⦃j = toy_serde⦄ ⦃c = toy_core⦄ closed "id:a"
          cid).0.store.receipt
        ≡ record { did = "id:a"; json = toy_serde.receipt_text.to_text r } ∷ [])
unfolding account_mode dial_value assertion_json stored_body
op_get_object-never_gated_example =
    op_get_object-never_gated ⦃p = toy⦄ ⦃b = MemoryBlobStore⦄ ⦃j = toy_serde⦄ ⦃c = toy_core⦄ closed
      "id:a" cid blob no_receipts has_blob refl no_totals
