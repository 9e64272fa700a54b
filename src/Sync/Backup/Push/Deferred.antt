-- ===== src/Sync/Backup/Push/Deferred.antt =====
-- crates/ciss-sync/src/backup.rs: a push that a ceiling defers moves nothing.
use ciss.Prelude.{ℕ, String, ◌≡◌, refl, true, List, ok, err}
use ciss.Prelude.Map.{Map}
use ciss.Crypto.{Primitives, Bytes}
use ciss.Sync.{SyncError}
use ciss.Sync.Tree.{FsManifest, Formats, encode_manifest}
use ciss.Sync.Backup.{PushTransport, PushPlan, check_ceilings, logical_tree, plan_tree}
use ciss.Sync.Backup.Push.{Pusher, push_tree}

module _ ⦃p : Primitives⦄ ⦃formats : Formats⦄ {S : Type 0} where
  -- On a metered transport, when the ceiling of the tree or of the profile refuses the bytes that the
  -- plan wants, the push ends with that refusal before any byte moves: the server, the directory, the
  -- cache and both ledgers are as they were.
  pub push_tree-deferred :
      (slot : PushTransport S) (ts : ℕ) (q : Pusher S) (manifest : FsManifest) (rows : Map Bytes)
      (bytes : Bytes) (have : List String) (plan : PushPlan) (e : SyncError)
      → slot.metered ≡ true
      → logical_tree q.tree ≡ ok (manifest, rows)
      → encode_manifest manifest ≡ ok bytes
      → slot.have q.server ≡ ok have
      → plan_tree manifest have ≡ ok plan
      → check_ceilings q.spend q.profile_spend plan.want_bytes ≡ err e
      → push_tree slot ts q ≡ (record q { tree = record q.tree { placeholders = rows } }, err e)
  unfolding push_tree
  push_tree-deferred slot ts q manifest rows bytes have plan e metered logical encoded listed
        planned over =
      rw (push_tree, logical, encoded, listed, planned, metered, over) refl
