-- ===== src/Server/Listing/Usage.antt =====
-- `op_du` and `op_get_meter` tell the same story.
use ciss.Prelude.{
  ℕ, ◌+◌, ◌≡◌, refl, sym, ◌∙◌, ap, inl, inr, String, Bool, not, List, [], ◌∷◌, eq_iff,
  if◌then◌else◌, sum_by, ok, refuse_if, >>=-eq-ok, ok->>=, ok-injective, arith, Bool-cases,
}
use ciss.Prelude.Map.{Map}
use ciss.Policy.{is_caller}
use ciss.Receipts.{Receipt}
use ciss.Serde.{Serde}
use ciss.Store.{Store, ReceiptTotals, no_receipts}
use ciss.Store.Meter.{is_download, tally, tally_all, load_receipts, sum_receipts, running_totals}
use ciss.Store.Meter.Cache.{IsCached}
use ciss.Server.{Principal, anonymous, authenticated, did_of, forbidden, lift, lift-eq-ok}
use ciss.Server.Listing.{add_size, upload_sizes, UsageReport, MeterReport, op_get_meter, op_du}

abbrev total_size : Map ℕ → ℕ
total_size m = sum_by (λ (e : String × ℕ). e.1) m

total_size-add_size :
    (cid : String) (n : ℕ) (m : Map ℕ) → total_size (add_size cid n m) ≡ total_size m + n
unfolding add_size
total_size-add_size cid n [] = omega arith
total_size-add_size cid n ((k, v) ∷ rest) = ground (arith, total_size-add_size cid n rest)

tally-upload_bytes :
    (t : ReceiptTotals) (r : Receipt)
    → (tally t r.core).upload_bytes
      ≡ (if is_download r.core.direction then t.upload_bytes else t.upload_bytes + r.core.bytes)
unfolding tally
tally-upload_bytes t r = ground arith

-- Both loops over the receipts add the same uploads.
upload_sizes-tally_all :
    (sizes : Map ℕ) (t : ReceiptTotals) (rs : List Receipt)
    → total_size sizes ≡ t.upload_bytes
    → total_size (upload_sizes sizes rs) ≡ (tally_all t rs).upload_bytes
unfolding upload_sizes tally_all
upload_sizes-tally_all sizes t [] h = h
upload_sizes-tally_all sizes t (r ∷ rs) h = elim (Bool-cases (is_download r.core.direction)) [
  | inl down ↦ rw down (
      upload_sizes-tally_all sizes (tally t r.core) rs
        (h ∙ sym (tally-upload_bytes t r ∙ rw down refl)))
  | inr up ↦ rw up (
      upload_sizes-tally_all (add_size r.core.cid r.core.bytes sizes) (tally t r.core) rs (
        total_size-add_size r.core.cid r.core.bytes sizes
        ∙ ap (λ n. n + r.core.bytes) h
        ∙ sym (tally-upload_bytes t r ∙ rw up refl)))
]

caller-is_owner :
    (principal : Principal) (did : String)
    → refuse_if (not (is_caller (did_of principal) did)) forbidden ≡ ok tt
    → principal ≡ authenticated did
caller-is_owner anonymous did h = cc
caller-is_owner (authenticated c) did h = ground (arith, eq_iff c did)

module _ ⦃j : Serde⦄ where
  -- On a store whose cached totals are right, a usage report is only ever given to the DID that it
  -- is about, and its total is the number of uploaded bytes that the meter of that DID shows.
  pub op_du-op_get_meter :
      (s : Store) (admin_dids : List String) (admin_only_du : Bool) (principal : Principal)
      (did : String) {report : UsageReport} {meter : MeterReport}
      → IsCached s
      → op_du s admin_dids admin_only_du principal did ≡ ok report
      → op_get_meter s did ≡ ok meter
      → (principal ≡ authenticated did) × (report.total ≡ meter.upload_bytes)
  unfolding op_du op_get_meter IsCached sum_receipts
  op_du-op_get_meter s admin_dids admin_only_du principal did {report} {meter} cached du m =
      let (receipts, read, reported) = >>=-eq-ok _ _ du in
      let (_, gates, loaded) = >>=-eq-ok _ _ read in
      let (_, own, _) = >>=-eq-ok _ _ gates in
      let (totals, run, shown) = >>=-eq-ok (lift (running_totals s did)) _ m in
      let sums =
        sym (lift-eq-ok (running_totals s did) run)
        ∙ cached did
        ∙ ok->>= (load_receipts s did) (λ rs. ok (tally_all no_receipts rs))
            (lift-eq-ok (load_receipts s did) loaded) in
      (
        caller-is_owner principal did own,
        ap (λ (u : UsageReport). u.total) (sym (ok-injective reported))
            ∙ upload_sizes-tally_all [] no_receipts receipts refl
            ∙ ap (λ (t : ReceiptTotals). t.upload_bytes) (sym (ok-injective sums))
            ∙ ap (λ (u : MeterReport). u.upload_bytes) (ok-injective shown),
      )
