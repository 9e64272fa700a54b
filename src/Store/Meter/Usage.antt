-- ===== src/Store/Meter/Usage.antt =====
-- The bytes stored: per owner and over the whole instance.
use ciss.Prelude.{
  ℕ, ◌+◌, ◌≡◌, String, str_eq_refl, eq_iff, arith, ok, >>=-eq-ok, ok-injective, ap, sym, subst, ◌∙◌,
  inl, inr, Option-cases, Result-cases,
}
use ciss.Prelude.Map
use ciss.Prelude.Map.{Map, get-upsert, sum_by-upsert}
use ciss.Receipts.{Receipt}
use ciss.Serde.{Serde}
use ciss.Store.{DidTotal, Store}
use ciss.Store.Meter.{
  bump, load_receipts, sum_receipts, running_totals, ensure_total_row, append_receipt,
  add_stored_bytes, store_usage, did_stored_bytes,
}
use ciss.Store.Meter.Cache.{
  IsCached, appended, append_receipt-eq-ok, ensure_total_row-running_totals,
}

module _ ⦃j : Serde⦄ where
  ensure_total_row-stored :
      (s : Store) (did : String) {row : DidTotal}
      → ensure_total_row s did ≡ ok row
      → did_stored_bytes s did ≡ row.stored_bytes
  unfolding ensure_total_row did_stored_bytes
  ensure_total_row-stored s did {row} h = elim (Option-cases (Map.get did s.did_total)) [
    | inl absent ↦ elim (Result-cases (sum_receipts s did)) [
      | inl (t, good) ↦ ground arith
      | inr (e, bad) ↦ ground arith
    ]
    | inr (_, present) ↦ ground arith
  ]

  stored : Store → String → ℕ → DidTotal → Store
  stored s did size row = record s {
    did_total = Map.upsert did (record row { stored_bytes = row.stored_bytes + size }) s.did_total;
  }

  add_stored_bytes-eq-ok :
      (s s' : Store) (did : String) (size : ℕ)
      → add_stored_bytes s did size ≡ ok s'
      → (row : DidTotal) × (ensure_total_row s did ≡ ok row) × (s' ≡ stored s did size row)
  unfolding add_stored_bytes stored
  add_stored_bytes-eq-ok s s' did size h =
      let (row, found, same) = >>=-eq-ok (ensure_total_row s did) _ h in
      (row, found, sym (ok-injective same))

  stored-usage :
      (s : Store) (did : String) (size : ℕ) (row : DidTotal)
      → ensure_total_row s did ≡ ok row
      → (store_usage (stored s did size row) ≡ store_usage s + size)
        × (did_stored_bytes (stored s did size row) did ≡ did_stored_bytes s did + size)
  unfolding store_usage stored did_stored_bytes
  stored-usage s did size row found = (
    omega (
      arith,
      ensure_total_row-stored s did found,
      sum_by-upsert (λ (d : DidTotal). d.stored_bytes) did
          (record row { stored_bytes = row.stored_bytes + size }) s.did_total,
    ),
    ground (
      arith,
      str_eq_refl did,
      ensure_total_row-stored s did found,
      get-upsert did did (record row { stored_bytes = row.stored_bytes + size }) s.did_total,
    ),
  )

  -- Counting a store raises the instance's usage by the size and the owner's by the same.
  pub add_stored_bytes-usage :
      (s s' : Store) (did : String) (size : ℕ)
      → add_stored_bytes s did size ≡ ok s'
      → (store_usage s' ≡ store_usage s + size)
        × (did_stored_bytes s' did ≡ did_stored_bytes s did + size)
  add_stored_bytes-usage s s' did size h =
      let (row, found, same) = add_stored_bytes-eq-ok s s' did size h in
      subst
        (λ u.
          (store_usage u ≡ store_usage s + size)
          × (did_stored_bytes u did ≡ did_stored_bytes s did + size))
        (sym same) (stored-usage s did size row found)

  running_totals-stored_self :
      (s : Store) (did : String) (size : ℕ) (row : DidTotal)
      → running_totals (stored s did size row) did ≡ ok row.totals
  unfolding running_totals stored
  running_totals-stored_self s did size row = ground (
    arith,
    str_eq_refl did,
    get-upsert did did (record row { stored_bytes = row.stored_bytes + size }) s.did_total,
  )

  running_totals-stored :
      (s : Store) (did other : String) (size : ℕ) (row : DidTotal)
      → ensure_total_row s did ≡ ok row
      → IsCached s
      → running_totals (stored s did size row) other ≡ running_totals s other
  unfolding running_totals stored sum_receipts load_receipts IsCached
  running_totals-stored s did other size row found cached = ground (
    arith,
    eq_iff did other,
    ensure_total_row-running_totals s did found,
    get-upsert did other (record row { stored_bytes = row.stored_bytes + size }) s.did_total,
    cached other,
  )

  stored-IsCached :
      (s : Store) (did : String) (size : ℕ) (row : DidTotal)
      → IsCached s
      → ensure_total_row s did ≡ ok row
      → IsCached (stored s did size row)
  unfolding IsCached stored sum_receipts load_receipts
  stored-IsCached s did size row cached found other =
      running_totals-stored s did other size row found cached ∙ cached other

  -- An update of the bytes stored changes no totals.
  pub add_stored_bytes-running_totals :
      (s s' : Store) (did : String) (size : ℕ)
      → add_stored_bytes s did size ≡ ok s'
      → running_totals s' did ≡ running_totals s did
  add_stored_bytes-running_totals s s' did size h =
      let (row, found, same) = add_stored_bytes-eq-ok s s' did size h in
      ap (λ u. running_totals u did) same
      ∙ running_totals-stored_self s did size row
      ∙ sym (ensure_total_row-running_totals s did found)

  -- An update of the bytes stored leaves the counters in agreement with the receipts.
  pub add_stored_bytes-IsCached :
      (s s' : Store) (did : String) (size : ℕ)
      → IsCached s
      → add_stored_bytes s did size ≡ ok s'
      → IsCached s'
  add_stored_bytes-IsCached s s' did size cached h =
      let (row, found, same) = add_stored_bytes-eq-ok s s' did size h in
      subst IsCached (sym same) (stored-IsCached s did size row cached found)

  appended-usage :
      (s : Store) (did : String) (r : Receipt) (row : DidTotal)
      → ensure_total_row s did ≡ ok row
      → store_usage (appended s did r row) ≡ store_usage s
  unfolding store_usage appended did_stored_bytes
  appended-usage s did r row found = omega (
    arith,
    ensure_total_row-stored s did found,
    sum_by-upsert (λ (d : DidTotal). d.stored_bytes) did
        (record row { totals = bump row.totals r.core }) s.did_total,
  )

  appended-did_stored :
      (s : Store) (did other : String) (r : Receipt) (row : DidTotal)
      → ensure_total_row s did ≡ ok row
      → did_stored_bytes (appended s did r row) other ≡ did_stored_bytes s other
  unfolding appended did_stored_bytes
  appended-did_stored s did other r row found = ground (
    arith,
    eq_iff did other,
    ensure_total_row-stored s did found,
    get-upsert did other (record row { totals = bump row.totals r.core }) s.did_total,
  )

  -- A receipt changes no count of stored bytes.
  pub append_receipt-usage :
      (s s' : Store) (did : String) (r : Receipt)
      → append_receipt s did r ≡ ok s'
      → (store_usage s' ≡ store_usage s)
        × ((other : String) → did_stored_bytes s' other ≡ did_stored_bytes s other)
  append_receipt-usage s s' did r h =
      let (row, found, same) = append_receipt-eq-ok s s' did r h in
      (
        ap store_usage same ∙ appended-usage s did r row found,
        λ other.
            ap (λ u. did_stored_bytes u other) same ∙ appended-did_stored s did other r row found,
      )
