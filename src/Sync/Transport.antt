-- ===== src/Sync/Transport.antt =====
-- crates/ciss-sync/src/transport.rs: the seam to a blob store and to the slot of the keep-set. The trait
-- is a record of functions; the set of held cids is a list.
use ciss.Prelude.{
  String, List, Bool, ℕ, ◌≡◌, not, any, retain, str_eq, if◌then◌else◌, Result, ok, err, arith,
  str_eq→eq,
}
use ciss.Crypto.{Primitives, Bytes}
use ciss.Sync.Tree.{digest_hex}
use ciss.Sync.{SyncError, cid_mismatch}

-- What the flows of one device read from the blob store.
pub record BlobTransport : Type 0 where
  pub have : Result SyncError (List String)
  pub get : String → Result SyncError Bytes
  pub metered : Bool

unfoldable pub verify_server_cid : String → String → Result SyncError (Unit {0})
verify_server_cid expected_hex server_cid =
    if str_eq expected_hex server_cid then ok tt else err (cid_mismatch expected_hex server_cid)

unfoldable pub missing_blobs : List (String × ℕ) → List String → List (String × ℕ)
missing_blobs local have = retain (λ (blob : String × ℕ). not (any (str_eq blob.0) have)) local

module _ ⦃p : Primitives⦄ where
  unfoldable pub verify_content : String → Bytes → Result SyncError (Unit {0})
  verify_content expected_hex bytes = verify_server_cid expected_hex (digest_hex bytes)

  -- Bytes that pass have the digest that they were asked for under.
  pub verify_content_sound :
      (cid : String) (bytes : Bytes) → verify_content cid bytes ≡ ok tt → digest_hex bytes ≡ cid
  unfolding verify_content verify_server_cid
  verify_content_sound cid bytes passed = ground (arith, str_eq→eq cid (digest_hex bytes))
