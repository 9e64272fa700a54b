-- ===== src/Sync/Frontier.antt =====
-- crates/ciss-sync/src/frontier.rs: the commit of one device's head into the shared map of heads. The
-- server behind the slot is a state that its answers may change, the writes of other devices included.
pub mod Closure
pub mod Covered
pub mod Retries
use ciss.Prelude.{
  ℕ, suc, zero, ◌+◌, ◌-◌, String, Bool, true, false, not, ◌&&◌, Option, none, some, List, [], ◌∷◌,
  length, str_eq, if◌then◌else◌, Result, ok, err, ◌>>=◌,
}
use ciss.Prelude.Map
use ciss.Prelude.Map.{Map}
use ciss.Prelude.Text.{decimal, parse_u64}
use ciss.Crypto.{Primitives, Bytes}
use ciss.Sync.{SyncError, decode, stale_seq}
use ciss.Sync.Tree.{ChunkRef, FileEntry, FsManifest, Formats, chunk_cid, decode_manifest}
use ciss.Sync.Heads.{DeviceHead, HeadFormat, decode_verified}

abbrev pub max_commit_retries : ℕ
max_commit_retries = 3

abbrev pub key_counter : String
key_counter = "device_counter"

abbrev pub key_last_head : String
key_last_head = "last_head_cid"

abbrev pub key_base : String
key_base = "base_fs_root"

pub record FrontierView : Type 0 where
  pub seq : ℕ
  pub heads : Map String
  pub leaves : List (String × ℕ)

-- The trait `ManifestSlot`, at what the commit loop calls of it.
pub record ManifestSlot (S : Type 0) : Type 0 where
  pub frontier : S → S × Result SyncError (Option FrontierView)
  pub commit_frontier : S → Map ℕ → ℕ → Map String → S × Result SyncError (Unit {0})

unfoldable pub read_chain : Map String → Result SyncError (ℕ × Option String × Option String)
read_chain config =
    let others : Option String × Option String =
      (Map.get key_last_head config, Map.get key_base config) in
    elim (Map.get key_counter config) [
      | none ↦ ok (0, others.0, others.1)
      | some v ↦ elim (parse_u64 v) [
        | none ↦ err (decode "device_counter")
        | some counter ↦ ok (counter, others.0, others.1)
      ]
    ]

unfoldable pub add_chunks : List ChunkRef → Map ℕ → Map ℕ
add_chunks [] leaves = leaves
add_chunks (c ∷ chunks) leaves = add_chunks chunks (Map.insert (chunk_cid c) c.len leaves)

unfoldable pub add_entries : Map FileEntry → Map ℕ → Map ℕ
unfolding add_chunks
add_entries [] leaves = leaves
add_entries ((_, e) ∷ entries) leaves = add_entries entries (add_chunks e.chunks leaves)

abbrev pub Fetch : Type 0
Fetch = String → Result SyncError Bytes

-- The blob of the base, unless the leaves have it.
unfoldable pub add_base : Fetch → Option String → Map ℕ → Result SyncError (Map ℕ)
add_base fetch none leaves = ok leaves
add_base fetch (some base) leaves =
    if Map.contains_key base leaves
    then ok leaves
    else (fetch base >>= λ base_bytes. ok (Map.insert base (length base_bytes) leaves))

module _ ⦃p : Primitives⦄ ⦃formats : Formats⦄ ⦃format : HeadFormat⦄ where
  unfoldable pub extend_with_head_closure :
      Fetch → p.VerifyingKey → String → Map ℕ → Result SyncError (Map ℕ)
  unfolding add_base add_entries
  extend_with_head_closure fetch verifier head_cid leaves = fetch head_cid >>= λ head_bytes.
      decode_verified head_bytes verifier >>= λ head. fetch head.fs_root >>= λ manifest_bytes.
      decode_manifest manifest_bytes >>= λ manifest. add_base fetch head.base (
        add_entries manifest.entries (
          Map.insert head.fs_root (length manifest_bytes)
            (Map.insert head_cid (length head_bytes) leaves)))

  -- The loop over the heads of the others.
  unfoldable pub cover_heads :
      Fetch → p.VerifyingKey → String → Map String → Map ℕ → Result SyncError (Map ℕ)
  unfolding extend_with_head_closure
  cover_heads fetch verifier device_id [] leaves = ok leaves
  cover_heads fetch verifier device_id ((other_id, other_cid) ∷ heads) leaves =
      if str_eq other_id device_id
      then cover_heads fetch verifier device_id heads leaves
      else (extend_with_head_closure fetch verifier other_cid leaves >>= λ covered.
          cover_heads fetch verifier device_id heads covered)

-- `collect` into a map of leaves.
unfoldable pub collect_leaves : List (String × ℕ) → Map ℕ → Map ℕ
collect_leaves [] leaves = leaves
collect_leaves ((cid, size) ∷ needed) leaves = collect_leaves needed (Map.insert cid size leaves)

abbrev pub is_stale_seq : SyncError → Bool
is_stale_seq (stale_seq _) = true
is_stale_seq _ = false

-- What follows a round after so many retries: a commit that failed goes to the given continuation.
abbrev pub after_round :
    {S : Type 0}
    → ℕ
    → (S → SyncError → S × Result SyncError (ℕ × ℕ))
    → S × Result SyncError (ℕ × Result SyncError (Unit {0}))
    → S × Result SyncError (ℕ × ℕ)
after_round retries failed (server, err e) = (server, err e)
after_round retries failed (server, ok (seq, ok _)) = (server, ok (seq, retries))
after_round retries failed (server, ok (seq, err e)) = failed server e

-- What one round commits.
pub record Attempt : Type 0 where
  pub seq : ℕ
  pub heads : Map String
  pub leaves : Map ℕ

-- What one device brings into the loop.
pub record Commit : Type 0 where
  pub device_id : String
  pub head_cid : String
  pub head_bytes : Bytes
  pub needed : List (String × ℕ)

abbrev pub next_commit_seq : Option FrontierView → ℕ
next_commit_seq none = 1
next_commit_seq (some view) = view.seq + 1

abbrev pub heads_of : Option FrontierView → Map String
heads_of none = []
heads_of (some view) = view.heads

module _ ⦃p : Primitives⦄ ⦃formats : Formats⦄ ⦃format : HeadFormat⦄ where
  unfoldable pub attempt :
      Fetch → p.VerifyingKey → Commit → Option FrontierView → Result SyncError Attempt
  unfolding cover_heads collect_leaves
  attempt fetch verifier c frontier =
      let heads = Map.insert c.device_id c.head_cid (heads_of frontier) in
      let own = Map.insert c.head_cid (length c.head_bytes) (collect_leaves c.needed []) in
      cover_heads fetch verifier c.device_id heads own >>= λ leaves.
      ok (record { seq = next_commit_seq frontier; heads = heads; leaves = leaves })

  -- One round: its own failures, or else the seq with what the server said to the commit.
  unfoldable pub round :
      {S : Type 0}
      → ManifestSlot S
      → Fetch
      → p.VerifyingKey
      → Commit
      → S
      → S × Result SyncError (ℕ × Result SyncError (Unit {0}))
  unfolding attempt
  round slot fetch verifier c server =
      let (read, found) = slot.frontier server in
      elim (found >>= attempt fetch verifier c) [
        | err e ↦ (read, err e)
        | ok a ↦
            let (written, answer) = slot.commit_frontier read a.leaves a.seq a.heads in
            (written, ok (a.seq, answer))
      ]

  -- The loop, with the retries that are left: the seq of the commit and the retries that it took.
  unfoldable pub commit_loop :
      {S : Type 0}
      → ManifestSlot S
      → Fetch
      → p.VerifyingKey
      → Commit
      → ℕ
      → S
      → S × Result SyncError (ℕ × ℕ)
  unfolding round
  commit_loop slot fetch verifier c zero server =
      after_round max_commit_retries (λ t e. (t, err e)) (round slot fetch verifier c server)
  commit_loop slot fetch verifier c (suc left) server =
      after_round (max_commit_retries - suc left)
        (λ t e. if is_stale_seq e then commit_loop slot fetch verifier c left t else (t, err e))
        (round slot fetch verifier c server)
