-- ===== src/Server/Dispatch.antt =====
-- src/server.rs: the reading of an assertion, the countersignature, and `dispatch`, through which every
-- request goes. The time that an operation takes is an argument.
pub mod Refused
pub mod Unmoved
pub mod Runs
pub mod Views
use ciss.Prelude.{
  ℕ, String, ◌≡◌, Bool, true, false, not, Option, none, some, List, [], ◌∷◌, str_eq, if◌then◌else◌,
  Result, ok, err, ◌>>=◌, ok_or, refuse_if,
}
use ciss.Crypto.{Primitives, Bytes, derive_id, public_key_from_hex, verify_message}
use ciss.KindSpec.{policy_kind}
use ciss.Policy.{ReadClass, PolicyBody, allows, from_body, is_caller}
use ciss.Receipts.{Receipt, ReceiptCore, Canonical}
use ciss.Assertion.{Ack}
use ciss.Serde.{Serde}
use ciss.Store.{Store}
use ciss.Store.Assertions.{Record, load_assertion}
use ciss.Store.Countersign.{countersign_receipt}
use ciss.Compute.{ComputeLedger, record_request}
use ciss.Blobs.{BlobStore}
use ciss.Server.{
  AppState, Principal, did_of, ServerError, bad_assertion, bad_pubkey, not_found,
  assertion_unauthorized, lift,
}
use ciss.Server.Access.{
  Op, put_object, get_object, put_manifest, get_manifest, get_meter, list_blobs, du, put_assertion,
  get_assertion, delete_assertion, get_chain, compact_chain, list_assertions, authorize,
  authorize_read,
}
use ciss.Server.Objects.{Stored, op_put_object, op_get_object}
use ciss.Server.Manifests.{ManifestSaved, op_put_manifest, op_get_manifest}
use ciss.Server.Listing.{UsageReport, MeterReport, op_list_blobs, op_get_meter, op_du}
use ciss.Server.Assertions.{AssertionSaved, op_put_assertion}
use ciss.Server.Lifecycle.{op_delete_assertion, op_list_assertions, op_get_chain, op_compact_chain}

module _ ⦃j : Serde⦄ where
  -- What a reader of an assertion sees: all of it, or a policy's class and that it may read.
  pub data AssertionView : Type 0 where
    full : Record → Ack → AssertionView
    access : ReadClass → AssertionView

module _ ⦃j : Serde⦄ where
  -- The view of a caller that is not the owner.
  unfoldable pub guest_view :
      Option String → String → String → Record → Result ServerError AssertionView
  guest_view caller did kind a =
      if not (str_eq kind policy_kind) then err not_found else elim (j.policy_body a.body) [
        | none ↦ err not_found
        | some body ↦
            if allows (from_body body) caller did
            then ok (access body.read_class)
            else err not_found
      ]

  unfoldable pub op_get_assertion :
      Store → Principal → String → String → Option String → Result ServerError AssertionView
  unfolding guest_view
  op_get_assertion s principal did kind subkey =
      lift (load_assertion s did kind subkey) >>= λ loaded. ok_or loaded not_found >>= λ found.
      if is_caller (did_of principal) did
      then ok (full found.0 found.1)
      else guest_view (did_of principal) did kind found.0

module _ ⦃p : Primitives⦄ ⦃j : Serde⦄ (like : String → String → Bool) where
  unfoldable pub op_countersign_receipt :
      Store → String → String → String → Store × Result ServerError Receipt
  op_countersign_receipt s did content_hash sig_payload =
      elim (j.countersign_from_str sig_payload) [
        | none ↦ (s, err (bad_assertion "body is not a valid countersign"))
        | some body ↦ elim (public_key_from_hex body.0) [
          | err _ ↦ (s, err bad_pubkey)
          | ok key ↦
              if not (str_eq (derive_id key) did)
              then (s, err assertion_unauthorized)
              else if not (verify_message key content_hash body.1)
              then (s, err assertion_unauthorized)
              else elim (lift (countersign_receipt like s did content_hash did body.1)) [
                | err e ↦ (s, err e)
                | ok done ↦ elim done [
                  | none ↦ (s, err not_found)
                  | some completed ↦ (completed.0, ok completed.1)
                ]
              ]
        ]
      ]

abbrev pub class : Op → String
class (put_object _ _ _) = "object-write"
class (get_object _ _) = "object-read"
class (put_manifest _ _ _) = "manifest-write"
class (get_manifest _) = "manifest-read"
class (get_meter _) = "meter-read"
class (list_blobs _) = "list-blobs"
class (put_assertion _ _ _ _ _) = "assertion-write"
class (get_assertion _ _ _) = "assertion-read"
class (delete_assertion _ _ _) = "assertion-delete"
class (list_assertions _ _) = "assertion-list"
class (get_chain _ _ _) = "chain-read"
class (compact_chain _ _ _) = "chain-compact"
class (Op.countersign_receipt _ _ _) = "countersign"
class (du _) = "du"

abbrev pub caller_of : Principal → String
caller_of principal = elim (did_of principal) [ none ↦ "anon" | some did ↦ did ]

module _ ⦃p : Primitives⦄ ⦃b : BlobStore⦄ ⦃j : Serde⦄ ⦃c : Canonical ReceiptCore⦄ where
  pub data OpOutcome : Type 0 where
    stored : Stored → OpOutcome
    bytes : String → Bytes → OpOutcome
    manifest_saved : ManifestSaved → OpOutcome
    manifest_body : String → OpOutcome
    meter : MeterReport → OpOutcome
    blob_list subkeys : List String → OpOutcome
    assertion_saved : AssertionSaved → OpOutcome
    policy_body : AssertionView → OpOutcome
    countersigned : Receipt → OpOutcome
    usage_body : UsageReport → OpOutcome
    erased : OpOutcome
    chain : List String × ℕ → OpOutcome
    compacted : ℕ → OpOutcome

  abbrev outcome :
      {A : Type 0} → (A → OpOutcome) → Result ServerError A → Result ServerError OpOutcome
  outcome f r = r >>= λ a. ok (f a)

  -- A state with the store that an operation leaves.
  abbrev pub with_store : AppState → Store → AppState
  with_store state s = record state { store = s }

  abbrev saved :
      AppState
      → Result ServerError (Store × ManifestSaved)
      → AppState × Result ServerError OpOutcome
  saved state (err e) = (state, err e)
  saved state (ok done) = (with_store state done.0, ok (manifest_saved done.1))

  unfoldable pub dispatch_op :
      (String → String → Bool) → AppState → Principal → Op → AppState × Result ServerError OpOutcome
  dispatch_op like state principal (put_object did _ bs) =
      let (after, r) = op_put_object state did bs in (after, outcome stored r)
  dispatch_op like state principal (get_object did cid) =
      let (after, r) = op_get_object state did cid in (after, outcome (bytes cid) r)
  dispatch_op like state principal (put_manifest did pubkey_hex body) =
      saved state (op_put_manifest state.store did pubkey_hex body)
  dispatch_op like state principal (get_manifest did) =
      (state, outcome manifest_body (op_get_manifest state.store did))
  dispatch_op like state principal (get_meter did) =
      (state, outcome meter (op_get_meter state.store did))
  dispatch_op like state principal (list_blobs did) =
      (state, outcome blob_list (op_list_blobs state.store principal did))
  dispatch_op like state principal (put_assertion did kind subkey body authed) =
      let (after, r) = op_put_assertion state did kind subkey body authed in
      (with_store state after, outcome assertion_saved r)
  dispatch_op like state principal (get_assertion did kind subkey) =
      (state, outcome policy_body (op_get_assertion state.store principal did kind subkey))
  dispatch_op like state principal (delete_assertion did kind subkey) =
      let (after, r) = op_delete_assertion state.store did kind subkey in
      (with_store state after, outcome (λ _. erased) r)
  dispatch_op like state principal (list_assertions did kind) =
      (state, outcome subkeys (op_list_assertions state.store did kind))
  dispatch_op like state principal (get_chain did kind subkey) =
      (state, outcome chain (op_get_chain state.store did kind subkey))
  dispatch_op like state principal (compact_chain did kind subkey) =
      let (after, r) = op_compact_chain state.store did kind subkey in
      (with_store state after, outcome compacted r)
  dispatch_op like state principal (Op.countersign_receipt did content_hash sig) =
      let (after, r) = op_countersign_receipt like state.store did content_hash sig in
      (with_store state after, outcome countersigned r)
  dispatch_op like state principal (du did) = (
    state,
    outcome usage_body (op_du state.store state.admin_dids state.admin_only_du principal did),
  )

  -- The state behind the handlers, with the ledger of what they cost.
  pub record Serving : Type 0 where
    pub app : AppState
    pub compute : ComputeLedger

  unfoldable pub dispatch :
      (String → String → Bool)
      → Serving
      → Principal
      → Op
      → ℕ
      → Serving × Result ServerError OpOutcome
  unfolding dispatch_op
  dispatch like s principal op micros =
      elim (authorize principal op >>= λ _. authorize_read s.app.store principal op) [
        | err e ↦ (s, err e)
        | ok _ ↦
            let (app, done) = dispatch_op like s.app principal op in
            (
              record {
                app = app;
                compute = record_request s.compute (caller_of principal) (class op) micros;
              },
              done,
            )
      ]
