-- ===== src/Sync/Frontier/Covered.antt =====
-- crates/ciss-sync/src/frontier.rs: a commit names every blob that a head of the frontier needs.
use ciss.Prelude.{
  ℕ, String, ◌≡◌, refl, subst, true, false, Option, some, [], ◌∷◌, length, ok, >>=-eq-ok,
  ok-injective, inl, inr, arith, Bool-cases, str_eq, str_eq_refl, eq_iff,
}
use ciss.Prelude.Map
use ciss.Prelude.Map.{Map, contains_key-insert, get-insert}
use ciss.Crypto.{Primitives, Bytes}
use ciss.Sync.Tree.{FsManifest, Formats, decode_manifest}
use ciss.Sync.Heads.{DeviceHead, HeadFormat, decode_verified}
use ciss.Sync.Frontier.Closure.{
  Keeps, insert-Keeps, insert-has, add_entries-Keeps, entries_in-Keeps, base_in-Keeps,
  add_entries-in, add_base-in, entries_in, base_in,
}
use ciss.Sync.Frontier.{
  Fetch, FrontierView, Attempt, Commit, add_entries, extend_with_head_closure, cover_heads,
  collect_leaves, attempt, heads_of, next_commit_seq,
}

module _ ⦃p : Primitives⦄ ⦃formats : Formats⦄ ⦃format : HeadFormat⦄ where
  -- The head behind a cid verifies, its tree reads, and the leaves have the blob of the head, the
  -- manifest of its tree, every chunk of every file in it, and the manifest of its base.
  pub record Covered (fetch : Fetch) (verifier : p.VerifyingKey) (cid : String) (leaves : Map ℕ)
      : Type 0 where
    pub head_bytes : Bytes
    pub head : DeviceHead
    pub manifest_bytes : Bytes
    pub manifest : FsManifest
    pub fetched : fetch cid ≡ ok head_bytes
    pub verified : decode_verified head_bytes verifier ≡ ok head
    pub tree_fetched : fetch head.fs_root ≡ ok manifest_bytes
    pub tree_read : decode_manifest manifest_bytes ≡ ok manifest
    pub has_head : Map.contains_key cid leaves ≡ true
    pub has_tree : Map.contains_key head.fs_root leaves ≡ true
    pub has_chunks : entries_in leaves manifest.entries ≡ true
    pub has_base : base_in leaves head.base ≡ true

  Covered-Keeps :
      {fetch : Fetch} {verifier : p.VerifyingKey} {cid : String} (m n : Map ℕ)
      → Keeps m n
      → Covered fetch verifier cid m
      → Covered fetch verifier cid n
  Covered-Keeps {fetch} {verifier} {cid} m n keeps c = record {
    head_bytes = c.head_bytes;
    head = c.head;
    manifest_bytes = c.manifest_bytes;
    manifest = c.manifest;
    fetched = c.fetched;
    verified = c.verified;
    tree_fetched = c.tree_fetched;
    tree_read = c.tree_read;
    has_head = keeps cid c.has_head;
    has_tree = keeps c.head.fs_root c.has_tree;
    has_chunks = entries_in-Keeps m n c.manifest.entries keeps c.has_chunks;
    has_base = base_in-Keeps m n c.head.base keeps c.has_base;
  }

  extend-Covered :
      (fetch : Fetch) (verifier : p.VerifyingKey) (cid : String) (m n : Map ℕ)
      → extend_with_head_closure fetch verifier cid m ≡ ok n
      → Keeps m n × Covered fetch verifier cid n
  unfolding extend_with_head_closure
  extend-Covered fetch verifier cid m n h =
      let (head_bytes, fetched, h1) = >>=-eq-ok (fetch cid) _ h in
      let (head, verified, h2) = >>=-eq-ok (decode_verified head_bytes verifier) _ h1 in
      let (manifest_bytes, tree_fetched, h3) = >>=-eq-ok (fetch head.fs_root) _ h2 in
      let (manifest, tree_read, h4) = >>=-eq-ok (decode_manifest manifest_bytes) _ h3 in
      let m1 = Map.insert cid (length head_bytes) m in
      let m2 = Map.insert head.fs_root (length manifest_bytes) m1 in
      let m3 = add_entries manifest.entries m2 in
      let (keeps, has_base) = add_base-in fetch head.base m3 n h4 in
      let later : Keeps m2 n = λ k has. keeps k (add_entries-Keeps manifest.entries m2 k has) in
      let step : Keeps m1 n =
        λ k has. later k (insert-Keeps head.fs_root (length manifest_bytes) m1 k has) in
      (
        λ k has. step k (insert-Keeps cid (length head_bytes) m k has),
        record {
          head_bytes = head_bytes;
          head = head;
          manifest_bytes = manifest_bytes;
          manifest = manifest;
          fetched = fetched;
          verified = verified;
          tree_fetched = tree_fetched;
          tree_read = tree_read;
          has_head = step cid (insert-has cid (length head_bytes) m);
          has_tree = later head.fs_root (insert-has head.fs_root (length manifest_bytes) m1);
          has_chunks =
              entries_in-Keeps m3 n manifest.entries keeps (add_entries-in manifest.entries m2);
          has_base = has_base;
        },
      )

  cover_heads-Keeps :
      (fetch : Fetch) (verifier : p.VerifyingKey) (device_id : String) (heads : Map String)
      (m n : Map ℕ)
      → cover_heads fetch verifier device_id heads m ≡ ok n
      → Keeps m n
  unfolding cover_heads
  cover_heads-Keeps fetch verifier device_id [] m n h k has =
      subst (λ x. Map.contains_key k x ≡ true) (ok-injective h) has
  cover_heads-Keeps fetch verifier device_id ((id, cid) ∷ heads) m n h k has =
      elim (Bool-cases (str_eq id device_id)) [
        | inl own ↦ cover_heads-Keeps fetch verifier device_id heads m n (ground arith) k has
        | inr other ↦
            let (m', extended, h1) =
              >>=-eq-ok (extend_with_head_closure fetch verifier cid m)
                (λ m'. cover_heads fetch verifier device_id heads m') (ground arith) in
            cover_heads-Keeps fetch verifier device_id heads m' n h1 k
              ((extend-Covered fetch verifier cid m m' extended).0 k has)
      ]

  cover_heads-Covered :
      (fetch : Fetch) (verifier : p.VerifyingKey) (device_id id cid : String) (heads : Map String)
      (m n : Map ℕ)
      → str_eq id device_id ≡ false
      → Map.get id heads ≡ some cid
      → cover_heads fetch verifier device_id heads m ≡ ok n
      → Covered fetch verifier cid n
  unfolding cover_heads Map.get
  cover_heads-Covered fetch verifier device_id id cid [] m n other has h = cc
  cover_heads-Covered fetch verifier device_id id cid ((i, c) ∷ heads) m n other has h =
      elim (Bool-cases (str_eq i device_id)) [
        | inl own ↦
            cover_heads-Covered fetch verifier device_id id cid heads m n other
              (ground (arith, eq_iff i id, eq_iff i device_id, eq_iff id device_id)) (ground arith)
        | inr foreign ↦
            let (m', extended, h1) =
              >>=-eq-ok (extend_with_head_closure fetch verifier c m)
                (λ m'. cover_heads fetch verifier device_id heads m') (ground arith) in
            elim (Bool-cases (str_eq i id)) [
              | inr later ↦
                  cover_heads-Covered fetch verifier device_id id cid heads m' n other
                    (ground arith) h1
              | inl here ↦
                  let this : c ≡ cid = ground arith in
                  subst (λ x. Covered fetch verifier x n) this
                    (Covered-Keeps m' n (cover_heads-Keeps fetch verifier device_id heads m' n h1)
                      (extend-Covered fetch verifier c m m' extended).1)
            ]
      ]

  -- A round that comes to its commit loses nothing: the head of every other device in the frontier that
  -- it read stays in the map, and the leaves cover that head, with its tree, its chunks and its base;
  -- the device's own slot names its new head, and the leaves have that too.
  pub attempt-covers :
      (fetch : Fetch) (verifier : p.VerifyingKey) (c : Commit) (frontier : Option FrontierView)
      (a : Attempt) (id cid : String)
      → str_eq id c.device_id ≡ false
      → Map.get id (heads_of frontier) ≡ some cid
      → attempt fetch verifier c frontier ≡ ok a
      → (Map.get id a.heads ≡ some cid)
        × Covered fetch verifier cid a.leaves
        × (Map.get c.device_id a.heads ≡ some c.head_cid)
        × (Map.contains_key c.head_cid a.leaves ≡ true)
        × (a.seq ≡ next_commit_seq frontier)
  unfolding attempt
  attempt-covers fetch verifier c frontier a id cid other has h =
      let heads = Map.insert c.device_id c.head_cid (heads_of frontier) in
      let own = Map.insert c.head_cid (length c.head_bytes) (collect_leaves c.needed []) in
      let (leaves, covered, h1) =
        >>=-eq-ok (cover_heads fetch verifier c.device_id heads own) _ h in
      let stays : Map.get id heads ≡ some cid = ground (
        arith,
        get-insert c.device_id id c.head_cid (heads_of frontier),
        eq_iff c.device_id id,
        eq_iff id c.device_id,
      ) in
      let mine : Map.get c.device_id heads ≡ some c.head_cid = ground (
        arith,
        get-insert c.device_id c.device_id c.head_cid (heads_of frontier),
        str_eq_refl c.device_id,
      ) in
      subst
        (λ (x : Attempt).
          (Map.get id x.heads ≡ some cid)
          × Covered fetch verifier cid x.leaves
          × (Map.get c.device_id x.heads ≡ some c.head_cid)
          × (Map.contains_key c.head_cid x.leaves ≡ true)
          × (x.seq ≡ next_commit_seq frontier))
        (ok-injective h1)
        (
          stays,
          cover_heads-Covered fetch verifier c.device_id id cid heads own leaves other stays
              covered,
          mine,
          cover_heads-Keeps fetch verifier c.device_id heads own leaves covered c.head_cid
              (insert-has c.head_cid (length c.head_bytes) (collect_leaves c.needed [])),
          refl,
        )
