-- ===== src/Server/Assertions.antt =====
-- src/server.rs: the operations on assertions and chains.
pub mod Admitted
pub mod Accepted
pub mod Chained
use ciss.Prelude.{
  ℕ, String, Bool, true, false, not, ◌&&◌, ◌||◌, Option, none, some, List, [], ◌∷◌, ltb, leb,
  str_eq, min, map, if◌then◌else◌, Result, ok, err, ok_or, ◌>>=◌, ◌>>◌, refuse_if,
}
use ciss.Prelude.Text.{concat, decimal}
use ciss.Crypto.{Bytes, Primitives, verifying_key}
use ciss.KindSpec.{
  KindSpec, kind_spec, Retention, chain, Erasure, permanent, erasable, Enumeration, point_only,
  listable, ceiling_dial_kind, period_dial_kind,
}
use ciss.Chain.{
  ChainStep, step, checkpoint, ChainEntry, ChainBreak, reason, genesis_prev_hash, entry_hash,
  checkpoint_hash, verify_step, verify_checkpoint, recompute_total,
}
use ciss.Assertion.{SignedAssertion, Ack, attest_provider, verify_assertion, make_ack, RecordText}
use ciss.Serde.{Serde}
use ciss.Store.{PersistError, Store, total_bytes}
use ciss.Store.Meter.{running_totals}
use ciss.Store.Dials.{put_meta}
use ciss.Store.Assertions.{
  Record, assertion_seq, save_assertion, delete_assertion, list_assertion_subkeys,
}
use ciss.Store.Chains.{
  latest_chain_entry, latest_checkpoint_hash, append_chain_entry, append_checkpoint_entry,
  chain_entries, compact_behind_latest_checkpoint,
}
use ciss.Blobs.{BlobStore}
use ciss.Server.{
  ServerError, persist, bad_assertion, assertion_unauthorized, assertion_above_bound,
  body_above_ceiling, assertion_stale, chain_broken, erasure_not_allowed, enumeration_not_allowed,
  not_found, Limits, CompactionPolicy, on_ack, deferred, lift, AppState, Provider,
}
use ciss.Server.Access.{AuthedWrite}
use ciss.Server.KindFold.{kind_fold}

-- `AssertionSaved`.
pub record AssertionSaved : Type 0 where
  pub seq : ℕ
  pub ack_json : String

abbrev pub opt_eq : Option String → Option String → Bool
opt_eq none none = true
opt_eq (some a) (some b) = str_eq a b
opt_eq _ _ = false

abbrev pub is_chain_kind : String → Bool
is_chain_kind kind = elim (kind_spec kind) [
  | none ↦ false
  | some s ↦ elim s.retention [ chain ↦ true | _ ↦ false ]
]

abbrev pub or_empty : Option String → String
or_empty none = ""
or_empty (some s) = s

unfoldable pub provider_at_rest_bound : Limits → ℕ
provider_at_rest_bound l = elim l.did_cap [
  | none ↦ l.store_ceiling
  | some cap ↦ min cap l.store_ceiling
]

abbrev pub lift_break {ℓ} : {A : Type ℓ} → Result ChainBreak A → Result ServerError A
lift_break (ok a) = ok a
lift_break (err brk) = err (chain_broken (reason brk))

module _ ⦃p : Primitives⦄ ⦃b : BlobStore⦄ ⦃j : Serde⦄ where
  -- The intent of an owner whom a token authenticated.
  unfoldable pub intended : String → Bytes → AuthedWrite → Result ServerError (ℕ × j.Value)
  intended did body auth =
      refuse_if (not (str_eq auth.did did)) assertion_unauthorized
      >> ok_or (j.intent_from_slice body) (bad_assertion "body is not a valid assertion intent")

  -- The record of a request: built and attested for an authenticated owner, or signed by the owner.
  unfoldable pub submitted :
      AppState
      → String
      → String
      → Option String
      → Bytes
      → Option AuthedWrite
      → Result ServerError Record
  submitted state did kind subkey body (some auth) = intended did body auth >>= λ intent.
      kind_fold kind subkey intent.1 >>= λ fold. ok (
        attest_provider kind did subkey intent.0 intent.1 fold (or_empty auth.jti)
          state.provider.attest_keypair)
  submitted state did kind subkey body none =
      ok_or (j.record_from_slice body) (bad_assertion "body is not a valid signed assertion")
      >>= λ a.
          refuse_if (not (str_eq a.did did && (str_eq a.kind kind && opt_eq a.subkey subkey)))
            (bad_assertion "assertion target does not match the route")
          >> ok a

  -- The body's size and the provider's bound on the ceiling dial.
  unfoldable pub within_bounds : Limits → String → j.Value → Result ServerError (Unit {0})
  within_bounds limits kind body =
      elim (kind_spec kind) as (λ _. Result ServerError (Unit {0})) [
        | none ↦ ok tt
        | some s ↦
            refuse_if (ltb s.sizing.body_ceiling (j.byte_len body))
              (body_above_ceiling kind (j.byte_len body) s.sizing.body_ceiling)
      ]
      >> (if not (str_eq kind ceiling_dial_kind)
          then ok tt
          else elim (j.ceiling_dial_body body) as (λ _. Result ServerError (Unit {0})) [
            | none ↦ ok tt
            | some d ↦ elim d.at_rest_bytes [
              | none ↦ ok tt
              | some asserted ↦
                  refuse_if (ltb (provider_at_rest_bound limits) asserted)
                    (assertion_above_bound asserted (provider_at_rest_bound limits))
            ]
          ])

  unfoldable pub supersedes_stored : Store → String → String → Option String → ℕ → Bool
  supersedes_stored s did kind subkey seq = elim (assertion_seq s did kind subkey) [
    | none ↦ true
    | some prior ↦ ltb prior seq
  ]

  unfoldable pub record_gates :
      AppState → String → String → Option String → String → Record → Result ServerError (Unit {0})
  unfolding within_bounds supersedes_stored
  record_gates state did kind subkey fold a =
      within_bounds state.limits kind a.body
      >> refuse_if (not (supersedes_stored state.store did kind subkey a.seq))
          (assertion_stale kind a.seq)
      >> refuse_if
          (not (verify_assertion a fold none (verifying_key state.provider.attest_keypair)))
          assertion_unauthorized

  -- Everything that a record passes before it is written.
  unfoldable pub admit_record :
      AppState
      → String
      → String
      → Option String
      → Bytes
      → Option AuthedWrite
      → Result ServerError Record
  unfolding submitted
  admit_record state did kind subkey body authed =
      submitted state did kind subkey body authed >>= λ a.
      kind_fold kind subkey a.body >>= λ fold. record_gates state did kind subkey fold a >> ok a

  abbrev pub saved_as : Record → Ack → AssertionSaved
  saved_as a ack = record { seq = a.seq; ack_json = j.record_text.ack_to_string ack }

  unfoldable pub append_step :
      Store
      → CompactionPolicy
      → String
      → String
      → Option String
      → Record
      → Ack
      → ChainStep
      → Result ServerError Store
  append_step s compaction did kind subkey a ack (step body) =
      lift_break (verify_step (latest_chain_entry s did kind subkey) body a.seq)
      >> lift (append_chain_entry s a ack body (entry_hash did kind subkey a.seq body))
  append_step s compaction did kind subkey a ack (checkpoint body) =
      ok_or (latest_chain_entry s did kind subkey)
        (chain_broken "a checkpoint needs a chain to close (none exists)")
      >>= λ prev.
          lift_break (
            verify_checkpoint prev
              (elim (latest_checkpoint_hash s did kind subkey) [
                | none ↦ genesis_prev_hash
                | some h ↦ h
              ])
              body a.seq)
          >> lift
              (append_checkpoint_entry s a ack body (checkpoint_hash did kind subkey a.seq body))
          >>= λ appended. elim compaction [
            | on_ack ↦ ok (compact_behind_latest_checkpoint appended did kind subkey).1
            | deferred ↦ ok appended
          ]

  unfoldable pub append_verified_chain_entry :
      Store
      → CompactionPolicy
      → String
      → String
      → Option String
      → Record
      → Ack
      → Result ServerError Store
  unfolding append_step
  append_verified_chain_entry s compaction did kind subkey a ack =
      ok_or (j.chain_step a.body) (bad_assertion "body is not a valid chain.counter entry")
      >>= λ st. append_step s compaction did kind subkey a ack st

  -- A period dial marks the meter's total as the new period's baseline.
  unfoldable pub start_period :
      Store → String → AssertionSaved → Store × Result ServerError AssertionSaved
  start_period s did saved = elim (running_totals s did) [
    | err e ↦ (s, err (persist e))
    | ok totals ↦ (
      put_meta s (concat ("period_baseline:" ∷ did ∷ [])) (decimal (total_bytes totals)),
      ok saved,
    )
  ]

  unfoldable pub commit_setting :
      Store → String → String → Record → Ack → Store × Result ServerError AssertionSaved
  unfolding start_period
  commit_setting s did kind a ack = elim (save_assertion s a ack) [
    | err e ↦ (s, err (persist e))
    | ok stored ↦
        if str_eq kind period_dial_kind
        then start_period stored did (saved_as a ack)
        else (stored, ok (saved_as a ack))
  ]

  unfoldable pub op_put_assertion :
      AppState
      → String
      → String
      → Option String
      → Bytes
      → Option AuthedWrite
      → Store × Result ServerError AssertionSaved
  unfolding commit_setting
  op_put_assertion state did kind subkey body authed =
      elim (admit_record state did kind subkey body authed) [
        | err e ↦ (state.store, err e)
        | ok a ↦
            let ack = make_ack ⦃t = j.record_text⦄ a state.provider.attest_keypair in
            if is_chain_kind kind
            then elim (append_verified_chain_entry state.store state.compaction did kind subkey a
                ack) [
                  | err e ↦ (state.store, err e)
                  | ok appended ↦ (appended, ok (saved_as a ack))
                ]
            else commit_setting state.store did kind a ack
      ]
