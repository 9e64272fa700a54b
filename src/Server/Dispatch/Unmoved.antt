-- ===== src/Server/Dispatch/Unmoved.antt =====
-- src/server.rs: the operations that move no bytes leave the receipts and their cached totals alone.
use ciss.Prelude.{
  String, ◌≡◌, refl, sym, subst, Bool, Option, none, some, str_eq, if◌then◌else◌, Result, ok, err,
  ◌>>◌, >>=-eq-ok, ok-injective, ok_or, inl, inr, Bool-cases, Option-cases, Result-cases,
}
use ciss.Crypto.{Primitives, Bytes, derive_id, public_key_from_hex, verify_message}
use ciss.KindSpec.{kind_spec, permanent, erasable, period_dial_kind}
use ciss.Chain.{
  CheckpointBody, PrevEntry, ChainStep, step, checkpoint, verify_step, verify_checkpoint,
  genesis_prev_hash, checkpoint_hash,
}
use ciss.Receipts.{Receipt}
use ciss.Assertion.{Ack, make_ack}
use ciss.Serde.{Serde}
use ciss.Server.Access.{AuthedWrite}
use ciss.Store.{Store}
use ciss.Store.Meter.{sum_receipts, load_receipts, running_totals}
use ciss.Store.Countersign.{countersign_receipt}
use ciss.Store.Assertions.{Record, save_assertion, delete_assertion}
use ciss.Store.Chains.{
  append_checkpoint_entry, compact_behind_latest_checkpoint, latest_chain_entry,
  latest_checkpoint_hash,
}
use ciss.Store.Dials.{put_meta}
use ciss.Store.Manifests.{save_manifest}
use ciss.Blobs.{BlobStore}
use ciss.Server.{
  AppState, ServerError, CompactionPolicy, on_ack, erasure_not_allowed, not_found, deferred, lift,
  lift-eq-ok,
}
use ciss.Server.Assertions.{
  append_step, append_verified_chain_entry, start_period, commit_setting, op_put_assertion,
  AssertionSaved, admit_record, saved_as, is_chain_kind, lift_break,
}
use ciss.Server.Manifests.{ManifestSaved, op_put_manifest, op_put_manifest-saves}
use ciss.Server.Lifecycle.{op_delete_assertion, op_compact_chain}
use ciss.Server.Dispatch.{op_countersign_receipt}
use ciss.Store.Meter.Unmoved.{
  Unmoved, Unmoved-trans, same-Unmoved, save_assertion-Unmoved, append_chain_entry-Unmoved,
  append_checkpoint_entry-Unmoved, compact-Unmoved, countersign_receipt-Unmoved,
}

module _ ⦃p : Primitives⦄ ⦃b : BlobStore⦄ ⦃j : Serde⦄ where
  -- The check of a checkpoint, and its append.
  abbrev gate :
      Store
      → String
      → String
      → Option String
      → Record
      → CheckpointBody
      → PrevEntry
      → Result ServerError (Unit {0})
  gate s did kind subkey a body prev = lift_break (
      verify_checkpoint prev
        (elim (latest_checkpoint_hash s did kind subkey) [ none ↦ genesis_prev_hash | some h ↦ h ])
        body a.seq)

  abbrev closing :
      Store
      → String
      → String
      → Option String
      → Record
      → Ack
      → CheckpointBody
      → PrevEntry
      → Result ServerError Store
  closing s did kind subkey a ack body prev =
      gate s did kind subkey a body prev
      >> lift (append_checkpoint_entry s a ack body (checkpoint_hash did kind subkey a.seq body))

  closing-Unmoved :
      (s s' : Store) (did kind : String) (subkey : Option String) (a : Record) (ack : Ack)
      (body : CheckpointBody) (prev : PrevEntry)
      → closing s did kind subkey a ack body prev ≡ ok s'
      → Unmoved s s'
  closing-Unmoved s s' did kind subkey a ack body prev h =
      let (_, _, wrote) = >>=-eq-ok (gate s did kind subkey a body prev) _ h in
      append_checkpoint_entry-Unmoved s s' a ack body _ (lift-eq-ok _ wrote)

  append_step-Unmoved :
      (s s' : Store) (compaction : CompactionPolicy) (did kind : String) (subkey : Option String)
      (a : Record) (ack : Ack) (st : ChainStep)
      → append_step s compaction did kind subkey a ack st ≡ ok s'
      → Unmoved s s'
  unfolding append_step
  append_step-Unmoved s s' compaction did kind subkey a ack (step body) h =
      let (_, _, h1) =
        >>=-eq-ok (lift_break (verify_step (latest_chain_entry s did kind subkey) body a.seq)) _
          h in
      append_chain_entry-Unmoved s s' a ack body _ (lift-eq-ok _ h1)
  append_step-Unmoved s s' on_ack did kind subkey a ack (checkpoint body) h =
      let (prev, _, rest) = >>=-eq-ok (ok_or (latest_chain_entry s did kind subkey) _) _ h in
      let (appended, gates, compacted) =
        >>=-eq-ok (closing s did kind subkey a ack body prev) _ rest in
      subst (Unmoved s) (ok-injective compacted) (
        Unmoved-trans s appended _
          (closing-Unmoved s appended did kind subkey a ack body prev gates)
          (compact-Unmoved appended did kind subkey))
  append_step-Unmoved s s' deferred did kind subkey a ack (checkpoint body) h =
      let (prev, _, rest) = >>=-eq-ok (ok_or (latest_chain_entry s did kind subkey) _) _ h in
      let (appended, gates, kept) = >>=-eq-ok (closing s did kind subkey a ack body prev) _ rest in
      subst (Unmoved s) (ok-injective kept)
        (closing-Unmoved s appended did kind subkey a ack body prev gates)

  start_period-Unmoved :
      (s : Store) (did : String) (saved : AssertionSaved) → Unmoved s (start_period s did saved).0
  unfolding start_period put_meta sum_receipts load_receipts
  start_period-Unmoved s did saved = elim (Result-cases (running_totals s did)) [
    | inl (t, good) ↦ rw (start_period, good) (refl, λ did. refl)
    | inr (e, bad) ↦ rw (start_period, bad) (refl, λ did. refl)
  ]

  commit_setting-Unmoved :
      (s : Store) (did kind : String) (a : Record) (ack : Ack)
      → Unmoved s (commit_setting s did kind a ack).0
  unfolding commit_setting
  commit_setting-Unmoved s did kind a ack = elim (Result-cases (save_assertion s a ack)) [
    | inr (e, bad) ↦ rw (commit_setting, bad) (same-Unmoved s)
    | inl (stored, good) ↦
        let first = save_assertion-Unmoved s stored a ack good in
        elim (Bool-cases (str_eq kind period_dial_kind)) [
          | inr other ↦ rw (commit_setting, good, other) first
          | inl period ↦
              rw (commit_setting, good, period)
                (Unmoved-trans s stored _ first (start_period-Unmoved stored did (saved_as a ack)))
        ]
  ]

  pub op_put_assertion-Unmoved :
      (state : AppState) (did kind : String) (subkey : Option String) (body : Bytes)
      (authed : Option AuthedWrite)
      → Unmoved state.store (op_put_assertion state did kind subkey body authed).0
  unfolding op_put_assertion append_verified_chain_entry
  op_put_assertion-Unmoved state did kind subkey body authed =
      elim (Result-cases (admit_record state did kind subkey body authed)) [
        | inr (e, bad) ↦ rw (op_put_assertion, bad) (same-Unmoved state.store)
        | inl (a, good) ↦
            let ack = make_ack ⦃t = j.record_text⦄ a state.provider.attest_keypair in
            elim (Bool-cases (is_chain_kind kind)) [
              | inr other ↦
                  rw (op_put_assertion, good, other)
                    (commit_setting-Unmoved state.store did kind a ack)
              | inl chained ↦
                  elim (Result-cases (
                    append_verified_chain_entry state.store state.compaction did kind subkey a
                      ack)) [
                        | inr (e, broken) ↦
                            rw (op_put_assertion, good, chained, broken) (same-Unmoved state.store)
                        | inl (appended, done) ↦
                            let (st, _, h) = >>=-eq-ok (ok_or (j.chain_step a.body) _) _ done in
                            rw (op_put_assertion, good, chained, done)
                              (append_step-Unmoved state.store appended state.compaction did kind
                                subkey a ack st h)
                      ]
            ]
      ]

  pub op_put_manifest-Unmoved :
      (s s' : Store) (did pubkey_hex : String) (body : Bytes) (saved : ManifestSaved)
      → op_put_manifest s did pubkey_hex body ≡ ok (s', saved)
      → Unmoved s s'
  unfolding save_manifest sum_receipts load_receipts
  op_put_manifest-Unmoved s s' did pubkey_hex body saved h =
      let (m, same) = op_put_manifest-saves s s' did pubkey_hex body h in
      subst (Unmoved s) (sym same) (refl, λ d. refl)

  pub op_delete_assertion-Unmoved :
      (s : Store) (did kind : String) (subkey : Option String)
      → Unmoved s (op_delete_assertion s did kind subkey).0
  unfolding op_delete_assertion delete_assertion sum_receipts load_receipts
  op_delete_assertion-Unmoved s did kind subkey = elim (Option-cases (kind_spec kind)) [
    | inl unknown ↦ rw (op_delete_assertion, unknown) (refl, λ d. refl)
    | inr (spec, known) ↦
        rw (op_delete_assertion, known)
          (elim spec.erasure
            as (λ e.
              Unmoved s
                (elim e as (λ _. Store × Result ServerError (Unit {0})) [
                  | permanent ↦ (s, err (erasure_not_allowed kind))
                  | erasable ↦
                      let (found, erased) = delete_assertion s did kind subkey in
                      (erased, if found then ok tt else err not_found)
                ]).0) [ permanent ↦ (refl, λ d. refl) | erasable ↦ (refl, λ d. refl) ])
  ]

  pub op_compact_chain-Unmoved :
      (s : Store) (did kind : String) (subkey : Option String)
      → Unmoved s (op_compact_chain s did kind subkey).0
  unfolding op_compact_chain
  op_compact_chain-Unmoved s did kind subkey = elim (Bool-cases (is_chain_kind kind)) [
    | inr other ↦ rw (op_compact_chain, other) (same-Unmoved s)
    | inl chained ↦ elim (Option-cases (compact_behind_latest_checkpoint s did kind subkey).0) [
      | inl nothing ↦ rw (op_compact_chain, chained, nothing) (compact-Unmoved s did kind subkey)
      | inr (n, behind) ↦ rw (op_compact_chain, chained, behind) (compact-Unmoved s did kind subkey)
    ]
  ]

  pub op_countersign_receipt-Unmoved :
      (like : String → String → Bool) (s : Store) (did content_hash sig : String)
      → Unmoved s (op_countersign_receipt like s did content_hash sig).0
  unfolding op_countersign_receipt
  op_countersign_receipt-Unmoved like s did content_hash sig =
      elim (Option-cases (j.countersign_from_str sig)) [
        | inl bad ↦ rw (op_countersign_receipt, bad) (same-Unmoved s)
        | inr (body, good) ↦ elim (Result-cases (public_key_from_hex body.0)) [
          | inr (e, bad) ↦ rw (op_countersign_receipt, good, bad) (same-Unmoved s)
          | inl (key, parsed) ↦ elim (Bool-cases (str_eq (derive_id key) did)) [
            | inr other ↦ rw (op_countersign_receipt, good, parsed, other) (same-Unmoved s)
            | inl owner ↦ elim (Bool-cases (verify_message key content_hash body.1)) [
              | inr forged ↦
                  rw (op_countersign_receipt, good, parsed, owner, forged) (same-Unmoved s)
              | inl signed ↦
                  elim (Result-cases
                    (lift (countersign_receipt like s did content_hash did body.1))) [
                      | inr (e, failed) ↦
                          rw (op_countersign_receipt, good, parsed, owner, signed, failed)
                            (same-Unmoved s)
                      | inl (done, ran) ↦
                          rw (op_countersign_receipt, good, parsed, owner, signed, ran)
                            (elim done
                                as (λ d.
                                  lift (countersign_receipt like s did content_hash did body.1)
                                    ≡ ok d
                                  → Unmoved s
                                      (elim d as (λ _. Store × Result ServerError Receipt) [
                                        | none ↦ (s, err not_found)
                                        | some c ↦ (c.0, ok c.1)
                                      ]).0) [
                                        | none ↦ λ h. same-Unmoved s
                                        | some (s', completed) ↦ λ h.
                                            countersign_receipt-Unmoved like s s' did content_hash
                                              did body.1 completed (lift-eq-ok _ h)
                                      ]
                              ran)
                    ]
            ]
          ]
        ]
      ]
