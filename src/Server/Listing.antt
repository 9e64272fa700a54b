-- ===== src/Server/Listing.antt =====
-- src/server.rs: `op_list_blobs`, `op_du` and `op_get_meter`, which read the receipts and the totals.
pub mod Visible
pub mod Usage
use ciss.Prelude.{
  ℕ, ◌+◌, String, Bool, true, false, not, ◌&&◌, Option, none, some, List, [], ◌∷◌, str_eq,
  if◌then◌else◌, retain, sum_by, Result, ok, err, ◌>>=◌, ◌>>◌, refuse_if,
}
use ciss.Prelude.Map.{Map}
use ciss.Crypto.{Primitives}
use ciss.Policy.{ResolvedPolicy, allows, contains, is_caller}
use ciss.Pricing.{postage_cents}
use ciss.Receipts.{Receipt}
use ciss.Serde.{Serde}
use ciss.Store.{Store, total_bytes}
use ciss.Store.Meter.{is_download, load_receipts, running_totals}
use ciss.Store.Dials.{resolve_policy, resolve_object_policy, has_object_policies}
use ciss.Blobs.{BlobStore}
use ciss.Server.{Principal, did_of, ServerError, forbidden, du_locked_to_admins, lift, AppState}
use ciss.Server.Access.{is_world}

-- The addresses that were uploaded, each once, in the order of the first upload, less those seen.
unfoldable pub distinct_uploads : List String → List Receipt → List String
distinct_uploads seen [] = []
distinct_uploads seen (r ∷ rest) =
    let cid : String = r.core.cid in
    let same = distinct_uploads seen rest in
    let more = distinct_uploads (cid ∷ seen) rest in
    if is_download r.core.direction then same else if contains seen cid then same else cid ∷ more

-- `*v += bytes`, or a new entry at the end.
unfoldable pub add_size : String → ℕ → Map ℕ → Map ℕ
add_size cid bytes [] = (cid, bytes) ∷ []
add_size cid bytes ((k, v) ∷ rest) =
    let more = add_size cid bytes rest in
    if str_eq k cid then (k, v + bytes) ∷ rest else (k, v) ∷ more

unfoldable pub upload_sizes : Map ℕ → List Receipt → Map ℕ
upload_sizes sizes [] = sizes
upload_sizes sizes (r ∷ rest) =
    let skipped = upload_sizes sizes rest in
    let counted = upload_sizes (add_size r.core.cid r.core.bytes sizes) rest in
    if is_download r.core.direction then skipped else counted

-- The fields of the usage report, before they are written as JSON.
pub record UsageReport : Type 0 where
  pub objects : Map ℕ
  pub total : ℕ

pub record MeterReport : Type 0 where
  pub receipt_count : ℕ
  pub upload_bytes : ℕ
  pub download_bytes : ℕ
  pub running_total_bytes : ℕ
  pub postage : ℕ
  pub drawdown_download_bytes : ℕ

module _ ⦃j : Serde⦄ where
  -- The policy that decides on one address: its own, or the namespace's.
  unfoldable pub policy_of : Store → String → ResolvedPolicy → String → ResolvedPolicy
  policy_of s did namespace cid = elim (resolve_object_policy s did cid) [
    | some object ↦ object
    | none ↦ namespace
  ]

  unfoldable pub op_list_blobs : Store → Principal → String → Result ServerError (List String)
  op_list_blobs s principal did = lift (load_receipts s did) >>= λ receipts.
      let distinct = distinct_uploads [] receipts in
      let namespace = resolve_policy s did none in
      if is_world namespace.read_class && not (has_object_policies s did)
      then ok distinct
      else ok
          (retain (λ cid. allows (policy_of s did namespace cid) (did_of principal) did) distinct)

  unfoldable pub op_get_meter : Store → String → Result ServerError MeterReport
  op_get_meter s did = lift (running_totals s did) >>= λ totals. ok (record {
    receipt_count = totals.receipt_count;
    upload_bytes = totals.upload_bytes;
    download_bytes = totals.download_bytes;
    running_total_bytes = total_bytes totals;
    postage = postage_cents (total_bytes totals);
    drawdown_download_bytes = totals.drawdown_download_bytes;
  })

  abbrev is_admin : List String → Principal → Bool
  is_admin admins principal = elim (did_of principal) [ none ↦ false | some c ↦ contains admins c ]

  unfoldable pub op_du :
      Store → List String → Bool → Principal → String → Result ServerError UsageReport
  op_du s admin_dids admin_only_du principal did =
      refuse_if (not (is_caller (did_of principal) did)) forbidden
      >> refuse_if (admin_only_du && not (is_admin admin_dids principal)) du_locked_to_admins
      >> lift (load_receipts s did)
      >>= λ receipts.
          let sizes = upload_sizes [] receipts in
          ok (record { objects = sizes; total = sum_by (λ (e : String × ℕ). e.1) sizes })
