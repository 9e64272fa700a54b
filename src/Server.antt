-- ===== src/Server.antt =====
-- src/server.rs: the state of the server, its errors and outcomes, and who may do what. Each
-- operation is a function from the state to the state and a result; a call takes the store's lock as
-- one step, so that an operation here is one that no other one interrupts.
pub mod Objects
pub mod Access
pub mod Listing
pub mod Manifests
pub mod KindFold
pub mod Assertions
pub mod Lifecycle
pub mod Dispatch
use ciss.Prelude.{
  ℕ, ◌+◌, ◌-◌, ◌^◌, String, Bool, true, false, Option, none, some, List, [], ◌∷◌, str_eq, min,
  if◌then◌else◌, Result, ok, err, ◌≡◌, ap, ok-injective,
}
use ciss.Crypto.{Bytes, Primitives, Keypair}
use ciss.Receipts.{ReceiptMode}
use ciss.Store.{PersistError, Store}
use ciss.Blobs.{BlobError, BlobStore}

pub data Principal : Type 0 where
  anonymous : Principal
  authenticated : String → Principal

abbrev pub did_of : Principal → Option String
did_of anonymous = none
did_of (authenticated did) = some did

pub data ServerError : Type 0 where
  persist : PersistError → ServerError
  blob : BlobError → ServerError
  tampered : String → String → ServerError
  bad_manifest bad_assertion chain_broken : String → ServerError
  not_found bad_pubkey did_key_mismatch unauthorized forbidden du_locked_to_admins : ServerError
  byte_count_mismatch : ℕ → ℕ → ServerError
  store_full did_quota_exceeded drawdown_active assertion_unauthorized : ServerError
  object_too_large assertion_above_bound : ℕ → ℕ → ServerError
  body_above_ceiling : String → ℕ → ℕ → ServerError
  erasure_not_allowed enumeration_not_allowed : String → ServerError
  spend_ceiling : ℕ → ℕ → ℕ → ServerError
  assertion_stale : String → ℕ → ServerError

pub record Limits : Type 0 where
  pub store_ceiling : ℕ
  pub did_cap : Option ℕ

pub data CompactionPolicy : Type 0 where
  on_ack deferred : CompactionPolicy

abbrev pub u64_max : ℕ
u64_max = 2 ^ 64 - 1

abbrev pub saturating_add : ℕ → ℕ → ℕ
saturating_add a b = min (a + b) u64_max

-- `store.f()?` in a handler.
abbrev pub lift {ℓ} : {A : Type ℓ} → Result PersistError A → Result ServerError A
lift (ok a) = ok a
lift (err e) = err (persist e)

pub lift-eq-ok {ℓ} : {A : Type ℓ} (m : Result PersistError A) {a : A} → lift m ≡ ok a → m ≡ ok a
lift-eq-ok (ok a) h = ap ok (ok-injective h)
lift-eq-ok (err e) h = cc

unfoldable pub require_owner : Principal → String → Result ServerError (Unit {0})
require_owner anonymous did = err unauthorized
require_owner (authenticated owner) did = if str_eq owner did then ok tt else err forbidden

module _ ⦃p : Primitives⦄ ⦃b : BlobStore⦄ where
  pub record Provider : Type 0 where
    pub id : String
    pub keypair : Keypair
    pub attest_keypair : Keypair

  pub record AppState : Type 0 where
    pub provider : Provider
    pub blobs : b.Blobs
    pub store : Store
    pub limits : Limits
    pub day : ℕ
    pub admin_dids : List String
    pub admin_only_du : Bool
    pub compaction : CompactionPolicy
