-- ===== src/Store/Meter/Unmoved.antt =====
-- src/persist.rs: the writes that leave the receipts and their cached totals alone.
use ciss.Prelude.{
  String, ◌≡◌, refl, sym, ap, ◌∙◌, subst, Bool, Option, none, some, [], ◌∷◌, ◌++◌, Result, ok, inl,
  inr, arith, Bool-cases, Option-cases,
}
use ciss.Prelude.Map
use ciss.Chain.{ChainCounterBody, CheckpointBody, subkey_or_empty}
use ciss.Receipts.{Receipt}
use ciss.Assertion.{Ack}
use ciss.Serde.{Serde}
use ciss.Prelude.Map.{Map}
use ciss.Store.{Store, ChainRow, DidTotal, PersistError, ReceiptTotals}
use ciss.Store.Meter.{sum_receipts, load_receipts, running_totals}
use ciss.Store.Meter.Cache.{IsCached}
use ciss.Store.Meter.Countersigned.{countersign_receipt-sum_receipts, countersign_receipt-did_total}
use ciss.Store.Countersign.{countersign_receipt}
use ciss.Store.Assertions.{Record, save_assertion, applies, row_of, upsert_row}
use ciss.Store.Chains.{
  insert_chain_row, step_row, checkpoint_row, key_taken, append_chain_entry,
  append_checkpoint_entry, compact_behind_latest_checkpoint, latest_row, checkpoint_of_chain,
}

module _ ⦃j : Serde⦄ where
  -- The second store has the totals of the first, and receipts that add up to the same.
  abbrev pub Unmoved : Store → Store → Type 0
  Unmoved s s' =
      (s'.did_total ≡ s.did_total) × ((did : String) → sum_receipts s' did ≡ sum_receipts s did)

  pub Unmoved-IsCached : (s s' : Store) → Unmoved s s' → IsCached s → IsCached s'
  unfolding IsCached running_totals
  Unmoved-IsCached s s' (totals, sums) cached did =
      ap
        (λ (m : Map DidTotal). elim (Map.get did m) as (λ _. Result PersistError ReceiptTotals) [
          | some row ↦ ok row.totals
          | none ↦ sum_receipts s' did
        ])
        totals
      ∙ ap
          (λ (r : Result PersistError ReceiptTotals).
            elim (Map.get did s.did_total) as (λ _. Result PersistError ReceiptTotals) [
              | some row ↦ ok row.totals
              | none ↦ r
            ])
          (sums did)
      ∙ cached did
      ∙ sym (sums did)

  pub same-Unmoved : (s : Store) → Unmoved s s
  same-Unmoved s = (refl, λ did. refl)

  pub Unmoved-trans : (s t u : Store) → Unmoved s t → Unmoved t u → Unmoved s u
  Unmoved-trans s t u (totals, sums) (totals', sums') =
      (totals' ∙ totals, λ did. sums' did ∙ sums did)

  pub save_assertion-Unmoved :
      (s s' : Store) (a : Record) (ack : Ack) → save_assertion s a ack ≡ ok s' → Unmoved s s'
  unfolding save_assertion sum_receipts load_receipts
  save_assertion-Unmoved s s' a ack h = elim (Bool-cases (applies (row_of a ack) s.assertion)) [
    | inr stale ↦ absurd (ground (arith, stale, h))
    | inl newer ↦
        let same : record s { assertion = upsert_row (row_of a ack) s.assertion } ≡ s' =
          ground (arith, newer, h) in
        subst (Unmoved s) same (refl, λ did. refl)
  ]

  insert_chain_row-Unmoved :
      (s s' : Store) (a : Record) (ack : Ack) (row : ChainRow)
      → insert_chain_row s a ack row ≡ ok s'
      → Unmoved s s'
  unfolding insert_chain_row sum_receipts load_receipts
  insert_chain_row-Unmoved s s' a ack row h = elim (Bool-cases (key_taken row s.chain_entry)) [
    | inl taken ↦ absurd (ground (arith, taken, h))
    | inr free ↦
        let same : record s {
          chain_entry = s.chain_entry ++ row ∷ [];
          assertion = upsert_row (row_of a ack) s.assertion;
        }
            ≡ s' =
          ground (arith, free, h) in
        subst (Unmoved s) same (refl, λ did. refl)
  ]

  pub append_chain_entry-Unmoved :
      (s s' : Store) (a : Record) (ack : Ack) (body : ChainCounterBody) (hash : String)
      → append_chain_entry s a ack body hash ≡ ok s'
      → Unmoved s s'
  unfolding append_chain_entry
  append_chain_entry-Unmoved s s' a ack body hash h =
      insert_chain_row-Unmoved s s' a ack (step_row a ack body hash) h

  pub append_checkpoint_entry-Unmoved :
      (s s' : Store) (a : Record) (ack : Ack) (body : CheckpointBody) (hash : String)
      → append_checkpoint_entry s a ack body hash ≡ ok s'
      → Unmoved s s'
  unfolding append_checkpoint_entry
  append_checkpoint_entry-Unmoved s s' a ack body hash h =
      insert_chain_row-Unmoved s s' a ack (checkpoint_row a ack body hash) h

  pub compact-Unmoved :
      (s : Store) (did kind : String) (subkey : Option String)
      → Unmoved s (compact_behind_latest_checkpoint s did kind subkey).1
  unfolding compact_behind_latest_checkpoint sum_receipts load_receipts
  compact-Unmoved s did kind subkey =
      elim (Option-cases
        (latest_row (checkpoint_of_chain did kind (subkey_or_empty subkey)) s.chain_entry)) [
          | inl nothing ↦ rw (compact_behind_latest_checkpoint, nothing) (refl, λ did. refl)
          | inr (c, found) ↦ rw (compact_behind_latest_checkpoint, found) (refl, λ did. refl)
        ]

  pub countersign_receipt-Unmoved :
      (like : String → String → Bool) (s s' : Store) (did content_hash signer sig : String)
      (completed : Receipt)
      → countersign_receipt like s did content_hash signer sig ≡ ok (some (s', completed))
      → Unmoved s s'
  countersign_receipt-Unmoved like s s' did content_hash signer sig completed h = (
    countersign_receipt-did_total like s s' did content_hash signer sig completed h,
    λ other.
        countersign_receipt-sum_receipts like s s' did content_hash signer sig other completed h,
  )
