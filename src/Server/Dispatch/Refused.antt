-- ===== src/Server/Dispatch/Refused.antt =====
-- src/server.rs: what `dispatch` does for a caller that may not, and how it counts the others.
use ciss.Prelude.{
  ℕ, String, ◌≡◌, ◌≢◌, refl, sym, ◌∙◌, Bool, some, err, ◌>>=◌, inl, inr, Result-cases,
}
use ciss.Crypto.{Primitives}
use ciss.Receipts.{ReceiptCore, Canonical}
use ciss.Serde.{Serde}
use ciss.Compute.Bounded.{IsBounded, record_request-IsBounded}
use ciss.Blobs.{BlobStore}
use ciss.Server.{Principal, authenticated, ServerError}
use ciss.Server.Access.{
  Op, authorize, authorize_read, owner_needed, authorize-owner_needed, require_owner-outcomes,
}
use ciss.Server.Dispatch.{Serving, dispatch, class, caller_of}

module _ ⦃p : Primitives⦄ ⦃b : BlobStore⦄ ⦃j : Serde⦄ ⦃c : Canonical ReceiptCore⦄ where
  -- A request for the owner's eyes or hands only (a store, the meter, a deletion, a listing of settings,
  -- a chain read or a compaction) from anyone but the owner's verified session is refused, and leaves
  -- the whole state as it was, the count of requests included.
  pub dispatch-stranger :
      (like : String → String → Bool) (s : Serving) (principal : Principal) (op : Op) (micros : ℕ)
      (did : String)
      → owner_needed op ≡ some did
      → principal ≢ authenticated did
      → (e : ServerError) × (dispatch like s principal op micros ≡ (s, err e))
  unfolding dispatch
  dispatch-stranger like s principal op micros did needed stranger =
      elim (Result-cases (authorize principal op)) [
        | inr (e, refused) ↦ (e, rw (dispatch, refused) refl)
        | inl (_, passed) ↦
            let (only, _, _, _) = require_owner-outcomes principal did in
            absurd (stranger (only (sym (authorize-owner_needed principal op did needed) ∙ passed)))
      ]

  -- The table of callers stays bounded in every request, whoever makes it and whatever comes of it.
  pub dispatch-IsBounded :
      (like : String → String → Bool) (s : Serving) (principal : Principal) (op : Op) (micros : ℕ)
      → IsBounded s.compute
      → IsBounded (dispatch like s principal op micros).0.compute
  unfolding dispatch
  dispatch-IsBounded like s principal op micros bounded =
      elim (Result-cases
        (authorize principal op >>= λ _. authorize_read s.app.store principal op)) [
          | inr (e, refused) ↦ rw (dispatch, refused) bounded
          | inl (_, passed) ↦
              rw (dispatch, passed)
                (record_request-IsBounded s.compute (caller_of principal) (class op) micros bounded)
        ]
