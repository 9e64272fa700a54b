-- ===== src/Server/Objects/Quota.antt =====
-- The storage limits of `op_put_object`.
use ciss.Prelude.{
  ℕ, ◌+◌, ◌≤◌, ◌<◌, ◌≡◌, sym, subst, inl, inr, String, Bool, true, false, not, some, if◌then◌else◌,
  length, ok, ◌>>◌, >>=-eq-ok, ok-injective, arith,
}
use ciss.Crypto.{Bytes, Primitives, sha256_hex}
use ciss.Receipts.{ReceiptCore, Canonical}
use ciss.Serde.{Serde}
use ciss.Store.{Store}
use ciss.Store.Meter.{store_usage, did_stored_bytes}
use ciss.Store.Meter.Usage.{add_stored_bytes-usage, append_receipt-usage}
use ciss.Store.Dials.{at_rest_dial}
use ciss.Blobs.{BlobStore}
use ciss.Server.{Limits, AppState, u64_max}
use ciss.Server.Objects.{
  effective_cap, dial_gates, quota_gates, gate_new, admit_put, count_new, op_put_object,
}
use ciss.Server.Objects.Steps.{Uploads, same, counted, metered, op_put_object-Uploads}

-- What an operation adds to both counts of the bytes at rest is at most `n`.
abbrev Adds : ℕ → Store → Store → String → Type 0
Adds n before after did =
    (store_usage after ≤ store_usage before + n)
    × (did_stored_bytes after did ≤ did_stored_bytes before did + n)

abbrev new_bytes : Bool → ℕ → ℕ
new_bytes is_new size = if is_new then size else 0

module _ ⦃p : Primitives⦄ ⦃b : BlobStore⦄ ⦃j : Serde⦄ ⦃c : Canonical ReceiptCore⦄ where
  quota_gates-admit :
      (limits : Limits) (s : Store) (did : String) (size : ℕ)
      → quota_gates limits s did size ≡ ok tt
      → (limits.store_ceiling < u64_max → store_usage s + size ≤ limits.store_ceiling)
        × ((cap : ℕ)
            → effective_cap limits.did_cap (at_rest_dial s did) ≡ some cap
            → cap < u64_max
            → did_stored_bytes s did + size ≤ cap)
  unfolding quota_gates
  quota_gates-admit limits s did size h = ((λ small. ground arith), λ cap eff small. ground arith)

  -- An admitted store has passed the gates of the settings, and those of the limits when it is new.
  pub admit_put-gates :
      (state : AppState) (did cid : String) (size : ℕ) (is_new : Bool)
      → admit_put state did cid size ≡ ok is_new
      → (dial_gates state.store did size ≡ ok tt)
        × (gate_new state.limits state.store did size is_new ≡ ok tt)
  unfolding admit_put
  admit_put-gates state did cid size is_new h =
      let (_, gates, last) =
        >>=-eq-ok
          (dial_gates state.store did size
            >> gate_new state.limits state.store did size (not (b.has state.blobs did cid)))
          _ h in
      let (_, dials, new) = >>=-eq-ok (dial_gates state.store did size) _ gates in
      (
        dials,
        subst (λ n. gate_new state.limits state.store did size n ≡ ok tt) (ok-injective last) new,
      )

  -- What an admitted store may add.
  admit_put-room :
      (state : AppState) (did cid : String) (size : ℕ) (is_new : Bool)
      → admit_put state did cid size ≡ ok is_new
      → (state.limits.store_ceiling < u64_max
          → store_usage state.store ≤ state.limits.store_ceiling
          → store_usage state.store + new_bytes is_new size ≤ state.limits.store_ceiling)
        × ((cap : ℕ)
            → effective_cap state.limits.did_cap (at_rest_dial state.store did) ≡ some cap
            → cap < u64_max
            → did_stored_bytes state.store did ≤ cap
            → did_stored_bytes state.store did + new_bytes is_new size ≤ cap)
  unfolding gate_new
  admit_put-room state did cid size true h =
      let (_, gated) = admit_put-gates state did cid size true h in
      let (usage, stored) = quota_gates-admit state.limits state.store did size gated in
      ((λ small _. usage small), λ cap eff small _. stored cap eff small)
  admit_put-room state did cid size false h =
      ((λ _ within. omega (arith, within)), λ cap _ _ within. omega (arith, within))

  count_new-Adds :
      (before after : Store) (did : String) (size : ℕ) (is_new : Bool)
      → count_new before did size is_new ≡ ok after
      → Adds (new_bytes is_new size) before after did
  unfolding count_new
  count_new-Adds before after did size true h =
      let (usage, stored) = add_stored_bytes-usage before after did size h in
      (omega (arith, usage), omega (arith, stored))
  count_new-Adds before after did size false h =
      subst (λ u. Adds 0 before u did) (ok-injective h) (omega arith, omega arith)

  Uploads-Adds :
      (before after : Store) (did : String) (size : ℕ) (is_new : Bool)
      → Uploads before did size is_new after
      → Adds (new_bytes is_new size) before after did
  Uploads-Adds before after did size is_new (same e) =
      subst (λ u. Adds (new_bytes is_new size) before u did) (sym e) (omega arith, omega arith)
  Uploads-Adds before after did size is_new (counted e) =
      count_new-Adds before after did size is_new e
  Uploads-Adds before after did size is_new (metered s r e a) =
      let (usage, stored) = count_new-Adds before s did size is_new e in
      let (usage', stored') = append_receipt-usage s after did r a in
      (omega (arith, usage, usage'), omega (arith, stored, stored' did))

  op_put_object-room :
      (state : AppState) (did : String) (bytes : Bytes)
      → (state.limits.store_ceiling < u64_max
          → store_usage state.store ≤ state.limits.store_ceiling
          → store_usage (op_put_object state did bytes).0.store ≤ state.limits.store_ceiling)
        × ((cap : ℕ)
            → effective_cap state.limits.did_cap (at_rest_dial state.store did) ≡ some cap
            → cap < u64_max
            → did_stored_bytes state.store did ≤ cap
            → did_stored_bytes (op_put_object state did bytes).0.store did ≤ cap)
  op_put_object-room state did bytes = elim (op_put_object-Uploads state did bytes) [
    | inl unchanged ↦ (λ _ within. rw unchanged within, λ cap _ _ below. rw unchanged below)
    | inr (is_new, admitted, uploads) ↦
        let (usage, stored) =
          admit_put-room state did (sha256_hex bytes) (length bytes) is_new admitted in
        let (adds_usage, adds_stored) =
          Uploads-Adds state.store _ did (length bytes) is_new uploads in
        (
          λ small within. omega (arith, adds_usage, usage small within),
          λ cap eff cap_small below. omega (arith, adds_stored, stored cap eff cap_small below),
        )
  ]

  -- A store, whatever its outcome, leaves the bytes at rest within the ceiling of the instance, when
  -- they were within it before and the ceiling is below 2^64 - 1.
  pub op_put_object-quota :
      (state : AppState) (did : String) (bytes : Bytes)
      → state.limits.store_ceiling < u64_max
      → store_usage state.store ≤ state.limits.store_ceiling
      → store_usage (op_put_object state did bytes).0.store ≤ state.limits.store_ceiling
  op_put_object-quota state did bytes = (op_put_object-room state did bytes).0

  -- A store, whatever its outcome, leaves the bytes of its owner within the lower one of the
  -- provider's cap and the owner's own dial, when they were within it before and it is below 2^64 -
  -- 1.
  pub op_put_object-cap :
      (state : AppState) (did : String) (bytes : Bytes) (cap : ℕ)
      → effective_cap state.limits.did_cap (at_rest_dial state.store did) ≡ some cap
      → cap < u64_max
      → did_stored_bytes state.store did ≤ cap
      → did_stored_bytes (op_put_object state did bytes).0.store did ≤ cap
  op_put_object-cap state did bytes = (op_put_object-room state did bytes).1
