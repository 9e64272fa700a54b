-- ===== src/Server/Objects/Attested.antt =====
-- The receipt of a transfer, what it says and what it adds to the totals.
use ciss.Prelude.{
  ℕ, ◌+◌, ◌≡◌, refl, sym, ◌∙◌, ap, subst, String, [], ◌∷◌, ◌++◌, ok, >>=-eq-ok, ok-injective, arith,
}
use native.Mathlib.Numerals.{unary_clauses}
use ciss.Crypto.{Primitives}
use ciss.Dials.{AccountMode}
use ciss.Receipts.{
  Direction, ReceiptMode, ReceiptCore, Receipt, Canonical, new_core, make_unilateral_receipt,
}
use ciss.Receipts.Direction.{upload, download}
use ciss.Receipts.ReceiptMode.{unilateral, bilateral}
use ciss.Serde.{Serde}
use ciss.Store.{ReceiptTotals, Store, total_bytes}
use ciss.Store.Meter.{bump, append_receipt, running_totals, ensure_total_row}
use ciss.Store.Dials.{account_mode}
use ciss.Blobs.{BlobStore}
use ciss.Server.{AppState, lift, lift-eq-ok}
use ciss.Server.Objects.{build_boundary_receipt, transfer_core, transfer_receipt}
use ciss.Dials.{is_drawdown}
use ciss.Prelude.{if◌then◌else◌}

-- What a receipt says of a transfer: which way, of what, how much, with what running total, under
-- which mode, to whom and from whom.
unfoldable pub Attests :
    Receipt → Direction → String → ℕ → ℕ → AccountMode → String → String → Type 0
Attests r direction cid size total mode receiver sender =
    (r.core.direction ≡ direction)
    × (r.core.cid ≡ cid)
    × (r.core.bytes ≡ size)
    × (r.core.running_total ≡ total)
    × (r.core.account_mode ≡ mode)
    × (r.core.receiver_id ≡ receiver)
    × (r.core.sender_id ≡ sender)

module _ ⦃p : Primitives⦄ ⦃b : BlobStore⦄ ⦃j : Serde⦄ ⦃c : Canonical ReceiptCore⦄ where
  build_boundary_receipt-core :
      (state : AppState) (core : ReceiptCore) (mode : ReceiptMode)
      → (build_boundary_receipt state core mode).core ≡ core
  unfolding build_boundary_receipt make_unilateral_receipt
  build_boundary_receipt-core state core unilateral = refl
  build_boundary_receipt-core state core bilateral = refl

  -- The receipt of a transfer is over the bytes that moved.
  pub transfer_receipt-core :
      (state : AppState) (direction : Direction) (did cid : String) (boundary : ℕ) {r : Receipt}
      → transfer_receipt state direction did cid boundary ≡ ok r
      → (totals : ReceiptTotals) × (running_totals state.store did ≡ ok totals)
        × (r.core ≡ transfer_core state direction did cid boundary (total_bytes totals + boundary))
  unfolding transfer_receipt
  transfer_receipt-core state direction did cid boundary h =
      let (totals, good, built) = >>=-eq-ok (lift (running_totals state.store did)) _ h in
      (
        totals,
        lift-eq-ok (running_totals state.store did) good,
        ap (λ (r : Receipt). r.core) (sym (ok-injective built))
            ∙ build_boundary_receipt-core state _ _,
      )

  pub transfer_core-Attests :
      (state : AppState) (did cid : String) (boundary total : ℕ) (r : Receipt)
      → (r.core ≡ transfer_core state upload did cid boundary total
          → Attests r upload cid boundary total
              (account_mode state.store did)
              state.provider.id
              did)
        × (r.core ≡ transfer_core state download did cid boundary total
            → Attests r download cid boundary total
                (account_mode state.store did)
                did
                state.provider.id)
  unfolding Attests transfer_core new_core
  transfer_core-Attests state did cid boundary total r =
      let mode = account_mode state.store did in
      let provider = state.provider.id in
      (
        λ is.
            subst (λ k. Attests (record r { core = k }) upload cid boundary total mode provider did)
              (sym is) (refl, refl, omega arith, refl, refl, refl, refl),
        λ is.
            subst
              (λ k. Attests (record r { core = k }) download cid boundary total mode did provider)
              (sym is) (refl, refl, omega arith, refl, refl, refl, refl),
      )

  pub bump-upload :
      (t : ReceiptTotals) (core : ReceiptCore) (n : ℕ)
      → core.direction ≡ upload
      → core.bytes ≡ n
      → bump t core
        ≡ record t { receipt_count = t.receipt_count + 1; upload_bytes = t.upload_bytes + n }
  unfolding bump
  bump-upload t core n up size = rw (up, size) (simp unary_clauses refl)

  pub bump-download :
      (t : ReceiptTotals) (core : ReceiptCore) (n : ℕ) (mode : AccountMode)
      → core.direction ≡ download
      → core.bytes ≡ n
      → core.account_mode ≡ mode
      → bump t core ≡ record t {
        receipt_count = t.receipt_count + 1;
        download_bytes = t.download_bytes + n;
        drawdown_download_bytes = t.drawdown_download_bytes + (if is_drawdown mode then n else 0);
      }
  unfolding bump
  bump-download t core n mode down size under = rw (down, size, under) (simp unary_clauses refl)

  pub append_receipt-receipt :
      (before after : Store) (did : String) (r : Receipt)
      → append_receipt before did r ≡ ok after
      → after.receipt ≡ before.receipt ++ record { did = did; json = j.receipt_text.to_text r } ∷ []
  unfolding append_receipt
  append_receipt-receipt before after did r h =
      let (row, _, is) = >>=-eq-ok (ensure_total_row before did) _ h in
      ap (λ (u : Store). u.receipt) (sym (ok-injective is))
