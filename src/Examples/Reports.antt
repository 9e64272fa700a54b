-- ===== src/Examples/Reports.antt =====
-- The claims on the ceiling of the owner's spending, on manifests and on reports, applied to a small
-- instance.
use ciss.Server.Objects.{dial_gates, admit_put, transfer_receipt, count_new, op_put_object}
use ciss.Store.Dials.{get_meta, period_baseline, stored_body, dial_value, spend_dial, account_mode}
use ciss.Store.Assertions.{assertion_json}
use ciss.Store.Meter.{load_receipts, sum_receipts, running_totals, ensure_total_row, append_receipt}
use ciss.Blobs.{memory_has}
use ciss.Manifest.{sort_leaves, has_duplicate_cids, merkle_root, signing_preimage}
use ciss.Crypto.{sha256_hex, sign_message, verify_message}
use ciss.Prelude.Text.{concat, decimal_ℤ, as_bytes}
use ciss.Prelude.Map
use ciss.Prelude.{
  arith, ◌+◌, ℕ, ◌≡◌, ◌≤◌, refl, String, true, false, ◌&&◌, Option, none, some, [], ◌∷◌, ◌⊎◌, ◌-◌,
  Result, ok, err, ltb,
}
use ciss.Crypto.{Bytes, Keypair, verifying_key, derive_id, public_key_hex, public_key_from_hex}
use ciss.Manifest.{SignedManifest, build_signed, verify_manifest}
use ciss.Pricing.{postage_cents}
use ciss.Blobs.{MemoryBlobStore, memory_put}
use ciss.Serde.{Serde}
use ciss.Store.{ReceiptTotals, Store, empty_store, no_receipts, total_bytes}
use ciss.Store.Manifests.{save_manifest, load_manifest}
use ciss.Server.{AppState, on_ack, u64_max}
use ciss.Server.Manifests.{
  ManifestSaved, supersedes, op_put_manifest, op_put_manifest_sound, existing_total,
}
use ciss.Server.Objects.Gates.{op_put_object-spend}
use ciss.Server.{ServerError}
use ciss.Receipts.ReceiptMode.{unilateral}
use ciss.Server.Objects.{Stored}
use ciss.Dials.{is_drawdown}
use ciss.Examples.Toy.{toy}
use ciss.Examples.Settings.{toy_core, toy_serde}

abbrev customer : Keypair ⦃p = toy⦄
customer = record { label = "customer"; signing_key = 3 }

abbrev customer_did : String
customer_did = derive_id ⦃p = toy⦄ (verifying_key ⦃p = toy⦄ customer)

abbrev nothing : SignedManifest
nothing = build_signed ⦃p = toy⦄ [] customer_did customer 1 none

-- A stand-in whose only manifest is the one above.
abbrev one_manifest : Serde
one_manifest = record toy_serde { manifest_from_slice = λ bytes. some nothing }

abbrev after : Store
after = save_manifest ⦃j = one_manifest⦄ empty_store customer_did nothing

abbrev saved : ManifestSaved
saved = record { root = nothing.root; total_bytes = 0 }

manifest_taken :
    op_put_manifest ⦃p = toy⦄ ⦃j = one_manifest⦄ empty_store customer_did
      (public_key_hex ⦃p = toy⦄ customer)
      []
    ≡ ok (after, saved)
unfolding concat decimal_ℤ as_bytes public_key_hex sign_message public_key_from_hex verify_message
    derive_id sort_leaves has_duplicate_cids merkle_root signing_preimage verify_manifest
    build_signed assertion_json dial_value account_mode load_manifest op_put_manifest Map.get
manifest_taken = refl

op_put_manifest_sound_example :
    (m : SignedManifest) × (key : ℕ) × (existing : Option SignedManifest) × (public_key_from_hex
        ⦃p = toy⦄
        (public_key_hex ⦃p = toy⦄ customer)
      ≡ ok key)
    × (derive_id ⦃p = toy⦄ key ≡ customer_did)
    × (m.signer_id ≡ customer_did)
    × (verify_manifest ⦃p = toy⦄ key m ≡ true)
    × (load_manifest ⦃j = one_manifest⦄ empty_store customer_did ≡ ok existing)
    × (load_manifest ⦃j = one_manifest⦄ after customer_did ≡ ok (some m))
    × (supersedes m existing ≡ true)
    × ((is_drawdown (account_mode ⦃j = one_manifest⦄ empty_store customer_did)
          && ltb (existing_total existing) m.total_bytes)
        ≡ false)
op_put_manifest_sound_example =
    op_put_manifest_sound ⦃p = toy⦄ ⦃j = one_manifest⦄ empty_store after customer_did
      (public_key_hex ⦃p = toy⦄ customer) [] manifest_taken

abbrev blob : Bytes
blob = 1 ∷ 2 ∷ 3 ∷ []

-- An owner whose ceilings cannot be read, so that both count as zero, and who already stores the
-- object.
abbrev strict_store : Store
strict_store = record empty_store {
  assertion =
      record {
        did = "id:a";
        kind = "dial.ceiling";
        subkey = "";
        seq = 1;
        json = "unreadable";
        ack = "";
      }
      ∷ [];
}

abbrev strict : AppState ⦃p = toy⦄ ⦃b = MemoryBlobStore⦄
strict = record {
  provider = record { id = "id:p"; keypair = customer; attest_keypair = customer };
  blobs = (memory_put [] "id:a" (sha256_hex ⦃p = toy⦄ blob) blob).0;
  store = strict_store;
  limits = record { store_ceiling = 1000; did_cap = none };
  day = 0;
  admin_dids = [];
  admin_only_du = false;
  compaction = on_ack;
}

abbrev stored_or : Result ServerError Stored → Stored
stored_or (ok s) = s
stored_or (err _) = record { cid = ""; bytes = 0; mode = unilateral; receipt_hash = "" }

abbrev stored_object : Stored
stored_object =
    stored_or
      (op_put_object ⦃p = toy⦄ ⦃b = MemoryBlobStore⦄ ⦃j = toy_serde⦄ ⦃c = toy_core⦄ strict "id:a"
        blob).1

zero_spend : spend_dial ⦃j = toy_serde⦄ strict_store "id:a" ≡ some 0
unfolding assertion_json stored_body dial_value spend_dial
zero_spend = refl

no_baseline : period_baseline strict_store "id:a" ≡ ok 0
unfolding get_meta period_baseline Map.get
no_baseline = refl

no_totals : running_totals ⦃j = toy_serde⦄ strict_store "id:a" ≡ ok no_receipts
unfolding load_receipts sum_receipts running_totals Map.get
no_totals = refl

object_stored :
    (op_put_object ⦃p = toy⦄ ⦃b = MemoryBlobStore⦄ ⦃j = toy_serde⦄ ⦃c = toy_core⦄ strict "id:a"
      blob).1
    ≡ ok stored_object
unfolding derive_id postage_cents memory_put memory_has total_bytes load_receipts sum_receipts
    running_totals ensure_total_row append_receipt assertion_json get_meta period_baseline
    stored_body dial_value spend_dial account_mode dial_gates admit_put transfer_receipt count_new
    op_put_object Map.get
object_stored = refl

three_fit : total_bytes no_receipts + 3 ≤ u64_max
unfolding total_bytes
three_fit = omega arith

op_put_object-spend_example :
    (after : ReceiptTotals) × (running_totals ⦃j = toy_serde⦄
        (op_put_object ⦃p = toy⦄ ⦃b = MemoryBlobStore⦄ ⦃j = toy_serde⦄ ⦃c = toy_core⦄ strict "id:a"
          blob).0.store
        "id:a"
      ≡ ok after)
    × (period_baseline
          (op_put_object ⦃p = toy⦄ ⦃b = MemoryBlobStore⦄ ⦃j = toy_serde⦄ ⦃c = toy_core⦄ strict
            "id:a" blob).0.store
          "id:a"
        ≡ ok 0)
    × ((postage_cents (total_bytes after - 0) ≤ 0)
        ⊎ (postage_cents (total_bytes after - 0) ≤ postage_cents (total_bytes no_receipts - 0)))
op_put_object-spend_example =
    op_put_object-spend ⦃p = toy⦄ ⦃b = MemoryBlobStore⦄ ⦃j = toy_serde⦄ ⦃c = toy_core⦄ strict "id:a"
      blob 0 0 no_receipts zero_spend no_baseline no_totals three_fit object_stored
