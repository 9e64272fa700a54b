-- ===== src/Store/Meter/Cache.antt =====
-- The cached totals are the totals: what the counters say is what the receipts add up to.
use ciss.Prelude.{
  ◌≡◌, ◌≢◌, refl, String, List, [], ◌∷◌, ◌++◌, str_eq, str_eq_refl, str_eq→eq, str_eq-false, eq_iff,
  arith, Result, ok, ◌>>=◌, >>=-eq-ok, ok->>=, ok-injective, ap, sym, subst, ◌∙◌, inl, inr,
  Option-cases, Bool-cases, Result-cases,
}
use ciss.Prelude.Map
use ciss.Prelude.Map.{Map, get-upsert}
use ciss.Receipts.{ReceiptCore, Receipt}
use ciss.Serde.{Serde}
use ciss.Store.{PersistError, ReceiptTotals, no_receipts, JsonRow, DidTotal, Store}
use ciss.Store.Meter.{
  tally, tally_all, bump, load_rows, read_receipt, load_receipts, sum_receipts, running_totals,
  ensure_total_row, append_receipt,
}

-- The incremental update and the recomputation count one receipt alike.
bump-eq-tally : (t : ReceiptTotals) (core : ReceiptCore) → bump t core ≡ tally t core
unfolding bump tally
bump-eq-tally t core = ground arith

tally_all-append :
    (t : ReceiptTotals) (rs : List Receipt) (r : Receipt)
    → tally_all t (rs ++ r ∷ []) ≡ tally (tally_all t rs) r.core
unfolding tally_all
tally_all-append t [] r = refl
tally_all-append t (q ∷ rs) r = tally_all-append (tally t q.core) rs r

module _ ⦃j : Serde⦄ where
  unfoldable pub row_of : String → Receipt → JsonRow
  row_of did r = record { did = did; json = j.receipt_text.to_text r }

  -- One more row of the same DID is one more receipt at the end.
  load_rows-append_self :
      (did : String) (rows : List JsonRow) (r : Receipt)
      → load_rows did (rows ++ row_of did r ∷ []) ≡ (load_rows did rows >>= λ rs. ok (rs ++ r ∷ []))
  unfolding load_rows row_of
  load_rows-append_self did [] r =
      ground (arith, str_eq_refl did, j.receipt_text.from_text-to_text r)
  load_rows-append_self did (row ∷ rows) r = elim (Bool-cases (str_eq row.did did)) [
    | inr other ↦ ground (arith, load_rows-append_self did rows r)
    | inl mine ↦ elim (Result-cases (read_receipt row.json)) [
      | inr (e, bad) ↦ ground arith
      | inl (q, good) ↦ elim (Result-cases (load_rows did rows)) [
        | inl (rs, more) ↦ ground (arith, load_rows-append_self did rows r)
        | inr (e, more) ↦ ground (arith, load_rows-append_self did rows r)
      ]
    ]
  ]

  load_rows-append_ne :
      (did other : String) (rows : List JsonRow) (r : Receipt)
      → other ≢ did
      → load_rows did (rows ++ row_of other r ∷ []) ≡ load_rows did rows
  unfolding load_rows row_of
  load_rows-append_ne did other [] r ne = ground (arith, eq_iff other did)
  load_rows-append_ne did other (row ∷ rows) r ne = rw (load_rows-append_ne did other rows r ne)

  -- What the stored counters should be.
  unfoldable pub IsCached : Store → Type 0
  IsCached s = (did : String) → running_totals s did ≡ sum_receipts s did

  pub ensure_total_row-running_totals :
      (s : Store) (did : String) {row : DidTotal}
      → ensure_total_row s did ≡ ok row
      → running_totals s did ≡ ok row.totals
  unfolding ensure_total_row running_totals
  ensure_total_row-running_totals s did {row} h = elim (Option-cases (Map.get did s.did_total)) [
    | inl absent ↦ elim (Result-cases (sum_receipts s did)) [
      | inl (t, good) ↦ ground arith
      | inr (e, bad) ↦ ground arith
    ]
    | inr (_, present) ↦ ground arith
  ]

  pub running_totals-ensure_total_row :
      (s : Store) (did : String) {t : ReceiptTotals}
      → running_totals s did ≡ ok t
      → (row : DidTotal) × (ensure_total_row s did ≡ ok row)
  unfolding ensure_total_row running_totals
  running_totals-ensure_total_row s did {t} h = elim (Option-cases (Map.get did s.did_total)) [
    | inl absent ↦ (record { totals = t; stored_bytes = 0 }, ground arith)
    | inr (row, present) ↦ (row, ground arith)
  ]

  -- A DID whose totals can be read can be metered.
  pub append_receipt-succeeds :
      (s : Store) (did : String) (r : Receipt) {t : ReceiptTotals}
      → running_totals s did ≡ ok t
      → (s' : Store) × (append_receipt s did r ≡ ok s')
  unfolding append_receipt
  append_receipt-succeeds s did r h =
      let (row, found) = running_totals-ensure_total_row s did h in
      (_, ok->>= (ensure_total_row s did) _ found)

  sum_receipts-append_self :
      (did : String) (rows : List JsonRow) (r : Receipt) {t : ReceiptTotals}
      → (load_rows did rows >>= λ rs. ok (tally_all no_receipts rs)) ≡ ok t
      → (load_rows did (rows ++ row_of did r ∷ []) >>= λ rs. ok (tally_all no_receipts rs))
        ≡ ok (bump t r.core)
  sum_receipts-append_self did rows r {t} h = elim (Result-cases (load_rows did rows)) [
    | inl (rs, loaded) ↦ ground (
      arith,
      load_rows-append_self did rows r,
      bump-eq-tally t r.core,
      tally_all-append no_receipts rs r,
    )
    | inr (e, bad) ↦ ground arith
  ]

  unfoldable pub appended : Store → String → Receipt → DidTotal → Store
  appended s did r row = record s {
    receipt = s.receipt ++ row_of did r ∷ [];
    did_total = Map.upsert did (record row { totals = bump row.totals r.core }) s.did_total;
  }

  pub append_receipt-eq-ok :
      (s s' : Store) (did : String) (r : Receipt)
      → append_receipt s did r ≡ ok s'
      → (row : DidTotal) × (ensure_total_row s did ≡ ok row) × (s' ≡ appended s did r row)
  unfolding append_receipt row_of appended
  append_receipt-eq-ok s s' did r h =
      let (row, found, same) = >>=-eq-ok (ensure_total_row s did) _ h in
      (row, found, sym (ok-injective same))

  sum_receipts-appended_ne :
      (s : Store) (did other : String) (r : Receipt) (row : DidTotal)
      → did ≢ other
      → sum_receipts (appended s did r row) other ≡ sum_receipts s other
  unfolding appended sum_receipts load_receipts
  sum_receipts-appended_ne s did other r row ne =
      ap (λ (m : Result PersistError (List Receipt)). m >>= λ rs. ok (tally_all no_receipts rs))
        (load_rows-append_ne other did s.receipt r ne)

  sum_receipts-appended :
      (s : Store) (did : String) (r : Receipt) (row : DidTotal)
      → IsCached s
      → ensure_total_row s did ≡ ok row
      → sum_receipts (appended s did r row) did ≡ ok (bump row.totals r.core)
  unfolding appended sum_receipts load_receipts IsCached
  sum_receipts-appended s did r row cached found =
      sum_receipts-append_self did s.receipt r
        (sym (cached did) ∙ ensure_total_row-running_totals s did found)

  running_totals-appended_self :
      (s : Store) (did : String) (r : Receipt) (row : DidTotal)
      → running_totals (appended s did r row) did ≡ ok (bump row.totals r.core)
  unfolding running_totals appended
  running_totals-appended_self s did r row = ground (
    arith,
    str_eq_refl did,
    get-upsert did did (record row { totals = bump row.totals r.core }) s.did_total,
  )

  running_totals-appended_ne :
      (s : Store) (did other : String) (r : Receipt) (row : DidTotal)
      → IsCached s
      → did ≢ other
      → running_totals (appended s did r row) other ≡ sum_receipts (appended s did r row) other
  unfolding running_totals appended IsCached
  running_totals-appended_ne s did other r row cached ne = ground (
    arith,
    eq_iff did other,
    cached other,
    sum_receipts-appended_ne s did other r row ne,
    get-upsert did other (record row { totals = bump row.totals r.core }) s.did_total,
  )

  running_totals-appended :
      (s : Store) (did other : String) (r : Receipt) (row : DidTotal)
      → ensure_total_row s did ≡ ok row
      → IsCached s
      → running_totals (appended s did r row) other ≡ sum_receipts (appended s did r row) other
  running_totals-appended s did other r row found cached = elim (Bool-cases (str_eq did other)) [
    | inl same ↦
        subst (λ d. running_totals (appended s did r row) d ≡ sum_receipts (appended s did r row) d)
          (str_eq→eq did other same)
          (running_totals-appended_self s did r row
            ∙ sym (sum_receipts-appended s did r row cached found))
    | inr differs ↦
        running_totals-appended_ne s did other r row cached (str_eq-false did other differs)
  ]

  -- Appending a receipt keeps every DID's counters equal to what its receipts add up to.
  pub append_receipt-IsCached :
      (s s' : Store) (did : String) (r : Receipt)
      → IsCached s
      → append_receipt s did r ≡ ok s'
      → IsCached s'
  unfolding IsCached
  append_receipt-IsCached s s' did r cached h other =
      let (row, found, same) = append_receipt-eq-ok s s' did r h in
      subst (λ u. running_totals u other ≡ sum_receipts u other) (sym same)
        (running_totals-appended s did other r row found cached)

  -- The totals after an append are the ones before it with the receipt counted in.
  pub running_totals-append_receipt :
      (s s' : Store) (did : String) (r : Receipt)
      → append_receipt s did r ≡ ok s'
      → running_totals s' did ≡ (running_totals s did >>= λ t. ok (bump t r.core))
  running_totals-append_receipt s s' did r h =
      let (row, found, same) = append_receipt-eq-ok s s' did r h in
      ap (λ u. running_totals u did) same
      ∙ running_totals-appended_self s did r row
      ∙ sym (
          ap (λ (m : Result PersistError ReceiptTotals). m >>= λ t. ok (bump t r.core))
            (ensure_total_row-running_totals s did found))
