-- ===== src/Store/Meter/Countersigned.antt =====
-- src/persist.rs: a countersignature changes no total.
use ciss.Prelude.{
  String, ◌≡◌, refl, sym, ap, ◌∙◌, Bool, true, false, none, some, List, [], ◌∷◌, any, str_eq,
  if◌then◌else◌, Result, ok, ◌>>=◌, inl, inr, arith, Bool-cases, Option-cases, Result-cases,
}
use ciss.Receipts.{Receipt}
use ciss.Serde.{Serde}
use ciss.Store.{PersistError, ReceiptTotals, no_receipts, JsonRow, Store}
use ciss.Store.Countersign.{last_match, update_last, with_signature, mentions, countersign_receipt}
use ciss.Store.Meter.{tally, tally_all, read_receipt, load_rows, load_receipts, sum_receipts}

any-last_match :
    (test : JsonRow → Bool) (rows : List JsonRow)
    → last_match test rows ≡ none
    → any test rows ≡ false
unfolding last_match
any-last_match test [] h = refl
any-last_match test (row ∷ rows) h = elim (Option-cases (last_match test rows)) [
  | inl none' ↦ ground (arith, none', any-last_match test rows none', h)
  | inr (found, there) ↦ ground (arith, there, h)
]

any-last_match-some :
    (test : JsonRow → Bool) (row : JsonRow) (rows : List JsonRow)
    → last_match test rows ≡ some row
    → any test rows ≡ true
unfolding last_match
any-last_match-some test row [] h = cc
any-last_match-some test row (r ∷ rows) h = elim (Option-cases (last_match test rows)) [
  | inl none' ↦ ground (arith, none', h)
  | inr (found, there) ↦ ground (arith, there, any-last_match-some test found rows there)
]

module _ ⦃j : Serde⦄ where
  -- The tally of the rows of a DID on top of some totals.
  tally_rows : String → ReceiptTotals → List JsonRow → Result PersistError ReceiptTotals
  tally_rows did t rows = load_rows did rows >>= λ rs. ok (tally_all t rs)

  -- One row at a time.
  tally_rows-cons :
      (did : String) (t : ReceiptTotals) (row : JsonRow) (rows : List JsonRow)
      → tally_rows did t (row ∷ rows) ≡ (
          if str_eq row.did did
          then (read_receipt row.json >>= λ r. tally_rows did (tally t r.core) rows)
          else tally_rows did t rows)
  unfolding tally_rows load_rows tally_all
  tally_rows-cons did t row rows = elim (Bool-cases (str_eq row.did did)) [
    | inr other ↦ rw other refl
    | inl own ↦ elim (Result-cases (read_receipt row.json)) [
      | inr (e, bad) ↦ rw (own, bad) refl
      | inl (r, good) ↦ elim (Result-cases (load_rows did rows)) [
        | inr (e, worse) ↦ rw (own, good, worse) refl
        | inl (rs, fine) ↦ rw (own, good, fine) refl
      ]
    ]
  ]

  tally_rows-same :
      (did : String) (row : JsonRow) (text : String) (t : ReceiptTotals) (rows : List JsonRow)
      (r completed : Receipt)
      → read_receipt row.json ≡ ok r
      → read_receipt text ≡ ok completed
      → completed.core ≡ r.core
      → tally_rows did t (record row { json = text } ∷ rows) ≡ tally_rows did t (row ∷ rows)
  tally_rows-same did row text t rows r completed old new same =
      tally_rows-cons did t (record row { json = text }) rows
      ∙ rw (new, old, same) refl
      ∙ sym (tally_rows-cons did t row rows)

  tally_rows-cons_cong :
      (did : String) (row : JsonRow) (xs ys : List JsonRow)
      → ((t : ReceiptTotals) → tally_rows did t xs ≡ tally_rows did t ys)
      → (t : ReceiptTotals) → tally_rows did t (row ∷ xs) ≡ tally_rows did t (row ∷ ys)
  tally_rows-cons_cong did row xs ys same t =
      tally_rows-cons did t row xs
      ∙ elim (Bool-cases (str_eq row.did did)) [
        | inr other ↦ rw other (same t)
        | inl own ↦ elim (Result-cases (read_receipt row.json)) [
          | inr (e, bad) ↦ rw (own, bad) refl
          | inl (r, good) ↦ rw (own, good) (same (tally t r.core))
        ]
      ]
      ∙ sym (tally_rows-cons did t row ys)

  tally_rows-update_last :
      (did : String) (test : JsonRow → Bool) (row : JsonRow) (text : String) (r completed : Receipt)
      (rows : List JsonRow)
      → last_match test rows ≡ some row
      → read_receipt row.json ≡ ok r
      → read_receipt text ≡ ok completed
      → completed.core ≡ r.core
      → (t : ReceiptTotals) → tally_rows did t (update_last test text rows) ≡ tally_rows did t rows
  unfolding last_match update_last
  tally_rows-update_last did test row text r completed [] h old new same t = refl
  tally_rows-update_last did test row text r completed (x ∷ rows) h old new same t =
      elim (Option-cases (last_match test rows)) [
        | inr (found, later) ↦
            let this : found ≡ row = ground (arith, later, h) in
            let go =
              tally_rows-update_last did test row text r completed rows (later ∙ ap some this) old
                new same in
            rw (any-last_match-some test found rows later)
              (tally_rows-cons_cong did x (update_last test text rows) rows go t)
        | inl none' ↦ elim (Bool-cases (test x)) [
          | inr other ↦ absurd (ground (arith, none', other, h))
          | inl here ↦
              let this : x ≡ row = ground (arith, none', here, h) in
              rw (any-last_match test rows none', here)
                (tally_rows-same did x text t rows r completed
                  (ap (λ (y : JsonRow). read_receipt y.json) this ∙ old) new same)
        ]
      ]

  -- A receipt that is countersigned goes on counting as it did: behind the signature, the receipts of
  -- every DID add up to what they added up to before, their errors included.
  pub countersign_receipt-sum_receipts :
      (like : String → String → Bool) (s s' : Store) (did content_hash signer sig other : String)
      (completed : Receipt)
      → countersign_receipt like s did content_hash signer sig ≡ ok (some (s', completed))
      → sum_receipts s' other ≡ sum_receipts s other
  unfolding countersign_receipt sum_receipts load_receipts tally_rows read_receipt with_signature
  countersign_receipt-sum_receipts like s s' did content_hash signer sig other completed h =
      elim (Option-cases (last_match (mentions like did content_hash) s.receipt)) [
        | inl nothing ↦ absurd (ground (arith, nothing, h))
        | inr (row, found) ↦ elim (Option-cases (j.receipt_text.from_text row.json)) [
          | inl bad ↦ absurd (ground (arith, found, bad, h))
          | inr (r, good) ↦ elim (Bool-cases (str_eq r.content_hash content_hash)) [
            | inr wrong ↦ absurd (ground (arith, found, good, wrong, h))
            | inl right ↦
                let signed = with_signature r signer sig in
                let text = j.receipt_text.to_text signed in
                let done : record s {
                  receipt = update_last (mentions like did content_hash) text s.receipt;
                }
                    ≡ s' =
                  ground (arith, found, good, right, h) in
                ap (λ (x : Store). sum_receipts x other) (sym done)
                ∙ tally_rows-update_last other (mentions like did content_hash) row text r signed
                    s.receipt found (rw (read_receipt, good) refl)
                    (rw (read_receipt, j.receipt_text.from_text-to_text signed) refl) refl
                    no_receipts
          ]
        ]
      ]

  -- A countersignature leaves the cached totals alone.
  pub countersign_receipt-did_total :
      (like : String → String → Bool) (s s' : Store) (did content_hash signer sig : String)
      (completed : Receipt)
      → countersign_receipt like s did content_hash signer sig ≡ ok (some (s', completed))
      → s'.did_total ≡ s.did_total
  unfolding countersign_receipt
  countersign_receipt-did_total like s s' did content_hash signer sig completed h =
      elim (Option-cases (last_match (mentions like did content_hash) s.receipt)) [
        | inl nothing ↦ absurd (ground (arith, nothing, h))
        | inr (row, found) ↦ elim (Option-cases (j.receipt_text.from_text row.json)) [
          | inl bad ↦ absurd (ground (arith, found, bad, h))
          | inr (r, good) ↦ elim (Bool-cases (str_eq r.content_hash content_hash)) [
            | inr wrong ↦ absurd (ground (arith, found, good, wrong, h))
            | inl right ↦
                let done : record s {
                  receipt =
                      update_last (mentions like did content_hash)
                        (j.receipt_text.to_text (with_signature r signer sig)) s.receipt;
                }
                    ≡ s' =
                  ground (arith, found, good, right, h) in
                ap (λ (x : Store). x.did_total) (sym done)
          ]
        ]
      ]
