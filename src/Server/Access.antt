-- ===== src/Server/Access.antt =====
-- src/server.rs: `authorize` and `authorize_read`, the two checks in front of every operation.
use ciss.Prelude.{
  ◌≡◌, ◌≢◌, ◌↔◌, refl, sym, ◌∙◌, ap, inl, inr, String, Bool, true, false, Option, none, some, List,
  str_eq_refl, eq_iff, if◌then◌else◌, Result, ok, err, arith, Bool-cases,
}
use ciss.Crypto.{Bytes}
use ciss.Policy.{ReadClass, world, allows}
use ciss.Serde.{Serde}
use ciss.Store.{Store}
use ciss.Store.Dials.{resolve_policy}
use ciss.Server.{
  Principal, anonymous, authenticated, did_of, ServerError, not_found, unauthorized, forbidden,
  require_owner,
}

-- `AuthedWrite`.
pub record AuthedWrite : Type 0 where
  pub did : String
  pub jti : Option String

pub data Op : Type 0 where
  put_object : String → String → Bytes → Op
  get_object : String → String → Op
  put_manifest : String → String → Bytes → Op
  get_manifest get_meter list_blobs du : String → Op
  put_assertion : String → String → Option String → Bytes → Option AuthedWrite → Op
  get_assertion delete_assertion get_chain compact_chain : String → String → Option String → Op
  list_assertions : String → String → Op
  countersign_receipt : String → String → String → Op

unfoldable pub authorize : Principal → Op → Result ServerError (Unit {0})
authorize principal (put_object did _ _) = require_owner principal did
authorize principal (get_meter did) = require_owner principal did
authorize principal (delete_assertion did _ _) = require_owner principal did
authorize principal (list_assertions did _) = require_owner principal did
authorize principal (get_chain did _ _) = require_owner principal did
authorize principal (compact_chain did _ _) = require_owner principal did
authorize principal _ = ok tt

abbrev pub is_world : ReadClass → Bool
is_world world = true
is_world _ = false

module _ ⦃j : Serde⦄ where
  unfoldable pub authorize_read : Store → Principal → Op → Result ServerError (Unit {0})
  authorize_read s principal (get_object did cid) =
      let resolved = resolve_policy s did (some cid) in
      if is_world resolved.read_class
      then ok tt
      else if allows resolved (did_of principal) did
      then ok tt
      else err not_found
  authorize_read s principal _ = ok tt

-- The DID whose verified session an operation needs, if it needs one.
abbrev pub owner_needed : Op → Option String
owner_needed (put_object did _ _) = some did
owner_needed (get_meter did) = some did
owner_needed (delete_assertion did _ _) = some did
owner_needed (list_assertions did _) = some did
owner_needed (get_chain did _ _) = some did
owner_needed (compact_chain did _ _) = some did
owner_needed _ = none

require_owner-ok :
    (principal : Principal) (did : String)
    → require_owner principal did ≡ ok tt
    → principal ≡ authenticated did
unfolding require_owner
require_owner-ok anonymous did h = cc
require_owner-ok (authenticated o) did h = ground (arith, eq_iff o did)

some-injective : {a b : String} → ◌≡◌ {A = Option String} (some a) (some b) → a ≡ b
some-injective {a} h = ap (λ (o : Option String). elim o [ none ↦ a | some x ↦ x ]) h

pub authorize-owner_needed :
    (principal : Principal) (op : Op) (did : String)
    → owner_needed op ≡ some did
    → authorize principal op ≡ require_owner principal did
unfolding authorize
authorize-owner_needed principal op did needs =
    elim op
        as (λ o. owner_needed o ≡ some did → authorize principal o ≡ require_owner principal did) [
          | put_object d k bytes ↦ λ n. ap (require_owner principal) (some-injective n)
          | get_meter d ↦ λ n. ap (require_owner principal) (some-injective n)
          | delete_assertion d k sk ↦ λ n. ap (require_owner principal) (some-injective n)
          | list_assertions d k ↦ λ n. ap (require_owner principal) (some-injective n)
          | get_chain d k sk ↦ λ n. ap (require_owner principal) (some-injective n)
          | compact_chain d k sk ↦ λ n. ap (require_owner principal) (some-injective n)
          | _ ↦ λ n. cc
        ]
      needs

pub require_owner-outcomes :
    (principal : Principal) (did : String)
    → (require_owner principal did ≡ ok tt → principal ≡ authenticated did)
      × (require_owner (authenticated did) did ≡ ok tt)
      × (require_owner anonymous did ≡ err unauthorized)
      × ((other : String) → other ≢ did → require_owner (authenticated other) did ≡ err forbidden)
unfolding require_owner
require_owner-outcomes principal did = (
  require_owner-ok principal did,
  ground (arith, str_eq_refl did),
  refl,
  λ other ne. ground (arith, eq_iff other did),
)

-- An operation of the owner passes exactly under the session of that owner; a caller with no session
-- is told to authenticate, and one with the session of someone else that it may not.
pub authorize_owner :
    (principal : Principal) (op : Op) (did other : String)
    → owner_needed op ≡ some did
    → other ≢ did
    → ((authorize principal op ≡ ok tt) ↔ (principal ≡ authenticated did))
      × (authorize anonymous op ≡ err unauthorized)
      × (authorize (authenticated other) op ≡ err forbidden)
authorize_owner principal op did other needs ne =
    let (only, owner_may, none_may_not, other_may_not) = require_owner-outcomes principal did in
    (
      (
        λ h. only (sym (authorize-owner_needed principal op did needs) ∙ h),
        λ is.
            ap (λ q. authorize q op) is
            ∙ (authorize-owner_needed (authenticated did) op did needs ∙ owner_may),
      ),
      authorize-owner_needed anonymous op did needs ∙ none_may_not,
      authorize-owner_needed (authenticated other) op did needs ∙ other_may_not other ne,
    )

world-allows :
    (k : ReadClass) (readers : List String) (caller : Option String) (did : String)
    → is_world k ≡ true
    → allows (record { read_class = k; readers = readers }) caller did ≡ true
unfolding allows
world-allows k readers caller did h = ground arith

module _ ⦃j : Serde⦄ where
  -- A read is let through exactly when the policy in force admits the caller, and a refused one gets
  -- the answer for an object that does not exist.
  pub authorize_read-allows :
      (s : Store) (principal : Principal) (did cid : String)
      → authorize_read s principal (get_object did cid) ≡ (
          if allows (resolve_policy s did (some cid)) (did_of principal) did
          then ok tt
          else err not_found)
  unfolding authorize_read
  authorize_read-allows s principal did cid =
      let p = resolve_policy s did (some cid) in
      elim (Bool-cases (is_world p.read_class)) [
        | inl open_to_all ↦
            ground (arith, world-allows p.read_class p.readers (did_of principal) did open_to_all)
        | inr gated ↦ ground arith
      ]
