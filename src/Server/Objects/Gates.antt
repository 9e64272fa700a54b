-- ===== src/Server/Objects/Gates.antt =====
-- The gates that the owner's settings put in front of `op_put_object`.
use ciss.Prelude.{
  ℕ, ◌-◌, ◌+◌, ◌≤◌, sym, ap, subst, ◌∙◌, none, ok-injective, ◌≡◌, refl, inl, inr, ◌⊎◌, String, Bool,
  true, false, some, length, ok, err, >>=-eq-ok, refuse_if, Result-cases, arith,
}
use ciss.Crypto.{Bytes, Primitives, sha256_hex}
use ciss.Dials.{is_drawdown, AccountMode, active, drawdown, AccountModeBody}
use ciss.KindSpec.{account_mode_dial_kind}
use ciss.Assertion.{Ack}
use ciss.Store.Assertions.{Record, save_assertion}
use ciss.Store.Dials.Closed.{dial_value-save_assertion}
use ciss.Server.Objects.Metering.{Metered, op_put_object-Metered}
use ciss.Server.Objects.Steps.{Uploads, same, counted, metered, op_put_object-Uploads}
use ciss.Pricing.{postage_cents}
use ciss.Receipts.{Receipt, ReceiptCore, Canonical}
use ciss.Serde.{Serde}
use ciss.Store.{ReceiptTotals, Store, total_bytes}
use ciss.Store.Meter.{running_totals, append_receipt, add_stored_bytes, ensure_total_row}
use ciss.Store.Dials.{account_mode, spend_dial, period_baseline, get_meta, dial_value}
use ciss.Blobs.{BlobStore}
use ciss.Server.{drawdown_active, AppState, saturating_add, u64_max}
use ciss.Server.Objects.{count_new, admit_put, dial_gates, spend_gate, op_put_object, Stored}
use ciss.Server.Objects.Quota.{admit_put-gates}

module _ ⦃p : Primitives⦄ ⦃b : BlobStore⦄ ⦃j : Serde⦄ ⦃c : Canonical ReceiptCore⦄ where
  drawdown-refused :
      (state : AppState) (did cid : String) (size : ℕ)
      → is_drawdown (account_mode state.store did) ≡ true
      → admit_put state did cid size ≡ err drawdown_active
  unfolding admit_put dial_gates
  drawdown-refused state did cid size h = rw (dial_gates, h) refl

  is_closed : {mode : AccountMode} → mode ≡ drawdown → is_drawdown mode ≡ true
  is_closed h = ap is_drawdown h

  -- Once the store has taken an account mode dial whose body says drawdown, or cannot be read, every
  -- store of bytes under that DID is refused as a drawdown and changes nothing.
  pub op_put_object-drawdown :
      (state : AppState) (s s' : Store) (a : Record) (ack : Ack) (bytes : Bytes)
      → a.kind ≡ account_mode_dial_kind
      → a.subkey ≡ none
      → (elim (j.account_mode_body a.body) [ none ↦ drawdown | some body ↦ body.mode ]) ≡ drawdown
      → save_assertion s a ack ≡ ok s'
      → op_put_object (record state { store = s' }) a.did bytes
        ≡ (record state { store = s' }, err drawdown_active)
  unfolding op_put_object account_mode
  op_put_object-drawdown state s s' a ack bytes kind whole says taken =
      let written =
        dial_value-save_assertion s s' a ack j.account_mode_body active drawdown (λ b. b.mode) whole
          taken in
      let mode =
        ap
          (λ k.
            dial_value s' a.did k j.account_mode_body active drawdown
              (λ (b : AccountModeBody). b.mode))
          (sym kind) in
      let closed : is_drawdown (account_mode s' a.did) ≡ true = is_closed (mode ∙ written ∙ says) in
      rw
        (
          op_put_object,
          drawdown-refused (record state { store = s' }) a.did (sha256_hex bytes) (length bytes)
              closed,
        )
        refl

  -- What passes the gate of the spend dial.
  spend_gate-passes :
      (ceiling baseline total size : ℕ)
      → spend_gate ceiling baseline total size ≡ ok tt
      → (postage_cents (saturating_add (total - baseline) size) ≤ ceiling)
        ⊎ (postage_cents (saturating_add (total - baseline) size)
            ≤ postage_cents (total - baseline))
  unfolding spend_gate
  spend_gate-passes ceiling baseline total size h = ground arith

  dial_gates-spend :
      (s : Store) (did : String) (size ceiling baseline : ℕ) (totals : ReceiptTotals)
      → spend_dial s did ≡ some ceiling
      → period_baseline s did ≡ ok baseline
      → running_totals s did ≡ ok totals
      → dial_gates s did size ≡ ok tt
      → spend_gate ceiling baseline (total_bytes totals) size ≡ ok tt
  unfolding dial_gates
  dial_gates-spend s did size ceiling baseline totals dial base run h =
      let (_, _, rest) =
        >>=-eq-ok (refuse_if (is_drawdown (account_mode s did)) drawdown_active) _ h in
      rw (dial, base, run) at rest

  admitted :
      (state : AppState) (did : String) (bytes : Bytes) {st : Stored}
      → (op_put_object state did bytes).1 ≡ ok st
      → (is_new : Bool) × (admit_put state did (sha256_hex bytes) (length bytes) ≡ ok is_new)
  unfolding op_put_object
  admitted state did bytes h =
      elim (Result-cases (admit_put state did (sha256_hex bytes) (length bytes))) [
        | inr (e, refused) ↦ ground arith
        | inl (is_new, good) ↦ (is_new, good)
      ]

  count_new-meta :
      (before after : Store) (did : String) (size : ℕ) (is_new : Bool)
      → count_new before did size is_new ≡ ok after
      → after.meta ≡ before.meta
  unfolding count_new add_stored_bytes
  count_new-meta before after did size true h =
      let (row, _, is) = >>=-eq-ok (ensure_total_row before did) _ h in
      ap (λ (u : Store). u.meta) (sym (ok-injective is))
  count_new-meta before after did size false h = ap (λ (u : Store). u.meta) (sym (ok-injective h))

  append_receipt-meta :
      (before after : Store) (did : String) (r : Receipt)
      → append_receipt before did r ≡ ok after
      → after.meta ≡ before.meta
  unfolding append_receipt
  append_receipt-meta before after did r h =
      let (row, _, is) = >>=-eq-ok (ensure_total_row before did) _ h in
      ap (λ (u : Store). u.meta) (sym (ok-injective is))

  Uploads-meta :
      (before after : Store) (did : String) (size : ℕ) (is_new : Bool)
      → Uploads before did size is_new after
      → after.meta ≡ before.meta
  Uploads-meta before after did size is_new (same e) = ap (λ (u : Store). u.meta) e
  Uploads-meta before after did size is_new (counted e) =
      count_new-meta before after did size is_new e
  Uploads-meta before after did size is_new (metered s r e a) =
      append_receipt-meta s after did r a ∙ count_new-meta before s did size is_new e

  op_put_object-meta :
      (state : AppState) (did : String) (bytes : Bytes)
      → (op_put_object state did bytes).0.store.meta ≡ state.store.meta
  op_put_object-meta state did bytes = elim (op_put_object-Uploads state did bytes) [
    | inl unchanged ↦ ap (λ (u : Store). u.meta) unchanged
    | inr (is_new, admitted, uploads) ↦ Uploads-meta state.store _ did (length bytes) is_new uploads
  ]

  period_baseline-meta :
      (s s' : Store) (did : String)
      → s'.meta ≡ s.meta
      → period_baseline s' did ≡ period_baseline s did
  unfolding period_baseline get_meta
  period_baseline-meta s s' did h = ap (λ m. period_baseline (record s { meta = m }) did) h

  postage_cents_mono : (m n : ℕ) → m ≤ n → postage_cents m ≤ postage_cents n
  unfolding postage_cents
  postage_cents_mono m n h = omega (arith, h)

  -- What the gate let through, as the bytes of the period after the store.
  within :
      (total size baseline ceiling : ℕ)
      → total + size ≤ u64_max
      → (postage_cents (saturating_add (total - baseline) size) ≤ ceiling)
        ⊎ (postage_cents (saturating_add (total - baseline) size)
            ≤ postage_cents (total - baseline))
      → (postage_cents (total + size - baseline) ≤ ceiling)
        ⊎ (postage_cents (total + size - baseline) ≤ postage_cents (total - baseline))
  within total size baseline ceiling fits passed =
      let grown =
        postage_cents_mono (total + size - baseline) (saturating_add (total - baseline) size)
          (omega (arith, fits)) in
      elim passed [
        | inl under ↦ inl (omega (arith, grown, under))
        | inr free ↦ inr (omega (arith, grown, free))
      ]

  -- Under a spend dial, with a baseline and totals that can be read, and while the bytes metered fit in
  -- 64 bits, a store that succeeds leaves the baseline of the period as it was, and the postage of the
  -- bytes metered since that baseline within the ceiling, or no higher than it was before the store.
  pub op_put_object-spend :
      (state : AppState) (did : String) (bytes : Bytes) (ceiling baseline : ℕ)
      (totals : ReceiptTotals) {st : Stored}
      → spend_dial state.store did ≡ some ceiling
      → period_baseline state.store did ≡ ok baseline
      → running_totals state.store did ≡ ok totals
      → total_bytes totals + length bytes ≤ u64_max
      → (op_put_object state did bytes).1 ≡ ok st
      → (after : ReceiptTotals) × (running_totals (op_put_object state did bytes).0.store did
          ≡ ok after)
        × (period_baseline (op_put_object state did bytes).0.store did ≡ ok baseline)
        × ((postage_cents (total_bytes after - baseline) ≤ ceiling)
            ⊎ (postage_cents (total_bytes after - baseline)
                ≤ postage_cents (total_bytes totals - baseline)))
  unfolding Metered total_bytes
  op_put_object-spend state did bytes ceiling baseline totals dial base run fits h =
      let (is_new, good) = admitted state did bytes h in
      let (gates, _) = admit_put-gates state did (sha256_hex bytes) (length bytes) is_new good in
      let (t, _, before, after, _, _, _) = op_put_object-Metered state did bytes h in
      let n = length bytes in
      let u : ReceiptTotals = record totals {
        receipt_count = totals.receipt_count + 1;
        upload_bytes = totals.upload_bytes + n;
      } in
      let is_t : t ≡ totals = ok-injective (sym before ∙ run) in
      let passed =
        spend_gate-passes ceiling baseline (total_bytes totals) n
          (dial_gates-spend state.store did n ceiling baseline totals dial base run gates) in
      let sum : total_bytes u ≡ total_bytes totals + n = omega arith in
      (
        u,
        after
            ∙ ap
                (λ (x : ReceiptTotals). ok (record x {
                  receipt_count = x.receipt_count + 1;
                  upload_bytes = x.upload_bytes + n;
                }))
                is_t,
        period_baseline-meta state.store (op_put_object state did bytes).0.store did
              (op_put_object-meta state did bytes)
            ∙ base,
        subst
            (λ k.
              (postage_cents (k - baseline) ≤ ceiling)
              ⊎ (postage_cents (k - baseline) ≤ postage_cents (total_bytes totals - baseline)))
            (sym sum) (within (total_bytes totals) n baseline ceiling fits passed),
      )
