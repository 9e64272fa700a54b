-- ===== src/Server/Dispatch/Runs.antt =====
-- src/server.rs: what holds after any run of requests through `dispatch`.
use ciss.Prelude.{ℕ, String, Bool, List, [], ◌∷◌, ◌>>=◌, inl, inr, Result-cases}
use ciss.Crypto.{Primitives}
use ciss.Receipts.{ReceiptCore, Canonical}
use ciss.Serde.{Serde}
use ciss.Store.Meter.Cache.{IsCached}
use ciss.Compute.Bounded.{IsBounded}
use ciss.Blobs.{BlobStore}
use ciss.Server.{AppState, Principal}
use ciss.Server.Access.{
  Op, put_object, get_object, put_manifest, get_manifest, get_meter, list_blobs, du, put_assertion,
  get_assertion, delete_assertion, get_chain, compact_chain, list_assertions, countersign_receipt,
  authorize, authorize_read,
}
use ciss.Server.Objects.Cached.{transfers-IsCached}
use ciss.Server.Manifests.{op_put_manifest}
use ciss.Server.Dispatch.{Serving, dispatch, dispatch_op}
use ciss.Server.Dispatch.Refused.{dispatch-IsBounded}
use ciss.Store.Meter.Unmoved.{Unmoved-IsCached}
use ciss.Server.Dispatch.Unmoved.{
  op_put_assertion-Unmoved, op_put_manifest-Unmoved, op_delete_assertion-Unmoved,
  op_compact_chain-Unmoved, op_countersign_receipt-Unmoved,
}

module _ ⦃p : Primitives⦄ ⦃b : BlobStore⦄ ⦃j : Serde⦄ ⦃c : Canonical ReceiptCore⦄
    (like : String → String → Bool) where
  -- A request as the server meets it: who asks for what, and how long it took.
  pub record Request : Type 0 where
    pub principal : Principal
    pub op : Op
    pub micros : ℕ

  -- The state after some requests, whatever came of each.
  unfoldable pub serve_all : List Request → Serving → Serving
  serve_all [] s = s
  serve_all (r ∷ requests) s = serve_all requests (dispatch like s r.principal r.op r.micros).0

  put_manifest-IsCached :
      (state : AppState) (principal : Principal) (did pubkey_hex : String) (body : List ℕ)
      → IsCached state.store
      → IsCached (dispatch_op like state principal (put_manifest did pubkey_hex body)).0.store
  unfolding dispatch_op
  put_manifest-IsCached state principal did pubkey_hex body cached =
      elim (Result-cases (op_put_manifest state.store did pubkey_hex body)) [
        | inr (e, refused) ↦ rw (dispatch_op, refused) cached
        | inl ((after, saved), taken) ↦
            rw (dispatch_op, taken)
              (Unmoved-IsCached state.store after
                (op_put_manifest-Unmoved state.store after did pubkey_hex body saved taken) cached)
      ]

  dispatch_op-IsCached :
      (state : AppState) (principal : Principal) (op : Op)
      → IsCached state.store
      → IsCached (dispatch_op like state principal op).0.store
  unfolding dispatch_op
  dispatch_op-IsCached state principal (put_object did k bytes) cached =
      (transfers-IsCached state did k bytes cached).0
  dispatch_op-IsCached state principal (get_object did cid) cached =
      (transfers-IsCached state did cid [] cached).1
  dispatch_op-IsCached state principal (put_manifest did pubkey_hex body) cached =
      put_manifest-IsCached state principal did pubkey_hex body cached
  dispatch_op-IsCached state principal (put_assertion did kind subkey body authed) cached =
      Unmoved-IsCached state.store _ (op_put_assertion-Unmoved state did kind subkey body authed)
        cached
  dispatch_op-IsCached state principal (delete_assertion did kind subkey) cached =
      Unmoved-IsCached state.store _ (op_delete_assertion-Unmoved state.store did kind subkey)
        cached
  dispatch_op-IsCached state principal (compact_chain did kind subkey) cached =
      Unmoved-IsCached state.store _ (op_compact_chain-Unmoved state.store did kind subkey) cached
  dispatch_op-IsCached state principal (countersign_receipt did content_hash sig) cached =
      Unmoved-IsCached state.store _
        (op_countersign_receipt-Unmoved like state.store did content_hash sig) cached
  dispatch_op-IsCached state principal (get_manifest did) cached = cached
  dispatch_op-IsCached state principal (get_meter did) cached = cached
  dispatch_op-IsCached state principal (list_blobs did) cached = cached
  dispatch_op-IsCached state principal (du did) cached = cached
  dispatch_op-IsCached state principal (get_assertion did kind subkey) cached = cached
  dispatch_op-IsCached state principal (get_chain did kind subkey) cached = cached
  dispatch_op-IsCached state principal (list_assertions did kind) cached = cached

  dispatch-IsCached :
      (s : Serving) (principal : Principal) (op : Op) (micros : ℕ)
      → IsCached s.app.store
      → IsCached (dispatch like s principal op micros).0.app.store
  unfolding dispatch
  dispatch-IsCached s principal op micros cached =
      elim (Result-cases
        (authorize principal op >>= λ _. authorize_read s.app.store principal op)) [
          | inr (e, refused) ↦ rw (dispatch, refused) cached
          | inl (_, passed) ↦ rw (dispatch, passed) (dispatch_op-IsCached s.app principal op cached)
        ]

  -- After any run of requests, by anyone and whatever came of each, the cached totals of every DID are
  -- what its receipts add up to and the table of callers is bounded, when both were so at the start.
  pub serve_all-IsCached :
      (requests : List Request) (s : Serving)
      → IsCached s.app.store
      → IsBounded s.compute
      → IsCached (serve_all requests s).app.store × IsBounded (serve_all requests s).compute
  unfolding serve_all
  serve_all-IsCached [] s cached bounded = (cached, bounded)
  serve_all-IsCached (r ∷ requests) s cached bounded =
      serve_all-IsCached requests (dispatch like s r.principal r.op r.micros).0
        (dispatch-IsCached s r.principal r.op r.micros cached)
        (dispatch-IsBounded like s r.principal r.op r.micros bounded)
