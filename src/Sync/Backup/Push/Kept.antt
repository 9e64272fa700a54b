-- ===== src/Sync/Backup/Push/Kept.antt =====
-- crates/ciss-sync/src/backup.rs: a push that succeeds leaves every blob that its tree needs on the
-- server, so that the keep-set names no bytes that nobody has.
use ciss.Prelude.{
  ℕ, String, ◌≡◌, refl, sym, ap, ◌∙◌, subst, Bool, true, not, ◌&&◌, ◌||◌, List, [], ◌∷◌, ◌++◌, ltb,
  any, all, map, length, str_eq, ok, >>=-eq-ok, ok-injective, inl, inr, arith, Bool-cases,
  Result-cases,
}
use ciss.Prelude.Map.{Map}
use ciss.Crypto.{Primitives, Bytes}
use ciss.Sync.Tree.{FsManifest, FileEntry, Formats, chunk_cid, encode_manifest, content_id}
use ciss.Sync.Transport.{missing_blobs}
use ciss.Sync.Backup.{PushTransport, PushPlan, need_entries, plan_tree, record_spend_all}
use ciss.Sync.Backup.Push.Needs.{AllOf, all-append, need_entries-all, listed_or_wanted, all-both}
use ciss.Sync.Backup.Push.Held.{Honest, Grows, CoversAll, push_entries-Uploads, Covers-Grows}
use ciss.Sync.Backup.Push.{
  Uploading, Pusher, PushedTree, wanted, push_entries, push_manifest, push_plan,
}

-- What a plan is made of.
abbrev pub Planned : List String → PushPlan → Type 0
Planned have plan =
    (plan.needed
      ≡ need_entries plan.manifest.entries []
        ++ (plan.fs_manifest_cid, length plan.manifest_bytes) ∷ [])
    × (plan.want ≡ missing_blobs plan.needed have)

module _ ⦃p : Primitives⦄ ⦃formats : Formats⦄ {S : Type 0} (slot : PushTransport S)
    (honest : Honest slot) where
  open honest use {held, have-held, put-held, put-keeps}

  pub plan_tree-Planned :
      (manifest : FsManifest) (have : List String) (plan : PushPlan)
      → plan_tree manifest have ≡ ok plan
      → Planned have plan
  unfolding plan_tree
  plan_tree-Planned manifest have plan h =
      let (bytes, _, h1) = >>=-eq-ok (encode_manifest manifest) _ h in
      let (cid, _, h2) = >>=-eq-ok (content_id manifest) _ h1 in
      subst (Planned have) (ok-injective h2) (refl, refl)

  -- Wanted is held.
  abbrev is_good : List (String × ℕ) → Uploading S → String → Bool
  is_good want u cid = not (wanted want cid) || held u.server cid

  covers-all :
      (want : List (String × ℕ)) (entries : Map FileEntry) (u v : Uploading S)
      → Grows slot honest u v
      → CoversAll slot honest want entries u
      → all (λ (e : String × FileEntry). all (is_good want v) (map chunk_cid e.1.chunks)) entries
        ≡ true
  covers-all want [] u v grows covers = refl
  covers-all want ((path, entry) ∷ entries) u v grows (here, covers) =
      let first : all (is_good want v) (map chunk_cid entry.chunks) ≡ true =
        Covers-Grows slot honest want (map chunk_cid entry.chunks) u v grows here in
      ground (arith, first, covers-all want entries u v grows covers)

  push_manifest-Uploads :
      (want : List (String × ℕ)) (cid : String) (bytes : Bytes) (u : Uploading S)
      → (push_manifest slot want cid bytes u).1 ≡ ok tt
      → Grows slot honest u (push_manifest slot want cid bytes u).0
        × (is_good want (push_manifest slot want cid bytes u).0 cid ≡ true)
  unfolding push_manifest
  push_manifest-Uploads want cid bytes u h = elim (Bool-cases (wanted want cid)) [
    | inr idle ↦ (λ k was. rw (push_manifest, idle) was, ground (arith, idle))
    | inl busy ↦ elim (Result-cases (slot.put u.server cid bytes).1) [
      | inr (e, failed) ↦ absurd (ground (arith, busy, failed, h))
      | inl (_, stored) ↦
          let same : (push_manifest slot want cid bytes u).0.server
              ≡ (slot.put u.server cid bytes).0 =
            rw (push_manifest, busy, stored) refl in
          (
            λ k was. ap (λ s. held s k) same ∙ put-keeps u.server cid bytes k was,
            ground (arith, busy, ap (λ s. held s cid) same, put-held u.server cid bytes stored),
          )
    ]
  ]

  -- Both parts of a push that succeeded, and what it reports.
  push_plan-parts :
      (ts : ℕ) (plan : PushPlan) (q : Pusher S) (report : PushedTree)
      → (push_plan slot ts plan q).1 ≡ ok report
      → let start : Uploading S = record {
        server = q.server;
        cache = q.tree.cache;
        chunks = 0;
        bytes = 0;
      } in
        let files = push_entries slot q.tree.dir plan.want plan.manifest.entries start in
        let sent = push_manifest slot plan.want plan.fs_manifest_cid plan.manifest_bytes files.0 in
        (files.1 ≡ ok tt)
        × (sent.1 ≡ ok tt)
        × ((push_plan slot ts plan q).0.server ≡ sent.0.server)
        × (report.needed ≡ plan.needed)
        × (report.fs_manifest_cid ≡ plan.fs_manifest_cid)
  unfolding push_plan
  push_plan-parts ts plan q report h =
      let start : Uploading S = record {
        server = q.server;
        cache = q.tree.cache;
        chunks = 0;
        bytes = 0;
      } in
      let files = push_entries slot q.tree.dir plan.want plan.manifest.entries start in
      let sent = push_manifest slot plan.want plan.fs_manifest_cid plan.manifest_bytes files.0 in
      let made : PushedTree = record {
        files = length plan.manifest.entries;
        chunks_total = plan.chunks_total;
        chunks_uploaded = sent.0.chunks;
        bytes_uploaded = sent.0.bytes;
        fs_manifest_cid = plan.fs_manifest_cid;
        needed = plan.needed;
      } in
      let named = λ (same : (push_plan slot ts plan q).1 ≡ ok made).
        ap (λ (r : PushedTree). r.needed) (ok-injective (sym h ∙ same)) in
      let addressed = λ (same : (push_plan slot ts plan q).1 ≡ ok made).
        ap (λ (r : PushedTree). r.fs_manifest_cid) (ok-injective (sym h ∙ same)) in
      elim (Result-cases files.1) [
        | inr (e, failed) ↦ absurd (ground (arith, failed, h))
        | inl (_, passed) ↦ elim (Result-cases sent.1) [
          | inr (e, refused) ↦ absurd (ground (arith, passed, refused, h))
          | inl (_, done) ↦ elim (Bool-cases (ltb 0 sent.0.bytes && slot.metered)) [
            | inr free ↦ (
              passed,
              done,
              rw (push_plan, passed, done, free) refl,
              named (rw (push_plan, passed, done, free) refl),
              addressed (rw (push_plan, passed, done, free) refl),
            )
            | inl billed ↦
                elim (Result-cases (record_spend_all q.spend q.profile_spend ts sent.0.bytes)) [
                  | inr (e, lost) ↦ absurd (ground (arith, passed, done, billed, lost, h))
                  | inl (ledgers, kept) ↦ (
                    passed,
                    done,
                    rw (push_plan, passed, done, billed, kept) refl,
                    named (rw (push_plan, passed, done, billed, kept) refl),
                    addressed (rw (push_plan, passed, done, billed, kept) refl),
                  )
                ]
          ]
        ]
      ]

  -- The report of a push names the blobs and the manifest of its plan.
  pub push_plan-reported :
      (ts : ℕ) (plan : PushPlan) (q : Pusher S) (report : PushedTree)
      → (push_plan slot ts plan q).1 ≡ ok report
      → (report.needed ≡ plan.needed) × (report.fs_manifest_cid ≡ plan.fs_manifest_cid)
  push_plan-reported ts plan q report h =
      let (_, _, _, needed, addressed) = push_plan-parts ts plan q report h in (needed, addressed)

  held-needed :
      (have : List String) (plan : PushPlan) (s : S) (u : Uploading S)
      → Planned have plan
      → slot.have s ≡ ok have
      → ((k : String) → held s k ≡ true → held u.server k ≡ true)
      → all
          (λ (e : String × FileEntry). all (is_good plan.want u) (map chunk_cid e.1.chunks))
          plan.manifest.entries
        ≡ true
      → is_good plan.want u plan.fs_manifest_cid ≡ true
      → AllOf (held u.server) plan.needed
  held-needed have plan s u (needed, want) listed grows files sent =
      let last : AllOf (is_good plan.want u)
          ((plan.fs_manifest_cid, length plan.manifest_bytes) ∷ []) =
        ground arith in
      let good : AllOf (is_good plan.want u) plan.needed =
        subst (AllOf (is_good plan.want u)) (sym needed) (
          all-append (is_good plan.want u) (need_entries plan.manifest.entries [])
            ((plan.fs_manifest_cid, length plan.manifest_bytes) ∷ [])
            (need_entries-all (is_good plan.want u) plan.manifest.entries [] files refl) last) in
      all-both (is_good plan.want u) (λ cid. any (str_eq cid) have || wanted plan.want cid)
        (held u.server)
        (λ cid either_way either. ground (arith, have-held s have cid listed, grows cid))
        plan.needed good
        (listed_or_wanted have plan.want plan.needed
          (λ cid h. subst (λ w. wanted w cid ≡ true) (sym want) h))

  -- On a server that holds what it lists, stores what it takes and drops nothing, a push whose plan was
  -- made from that list and that succeeds leaves every blob of its report held by the server.
  pub push_plan-held :
      (ts : ℕ) (manifest : FsManifest) (have : List String) (plan : PushPlan) (q : Pusher S)
      (report : PushedTree)
      → slot.have q.server ≡ ok have
      → plan_tree manifest have ≡ ok plan
      → (push_plan slot ts plan q).1 ≡ ok report
      → all (λ (blob : String × ℕ). held (push_plan slot ts plan q).0.server blob.0) report.needed
        ≡ true
  push_plan-held ts manifest have plan q report listed planned h =
      let start : Uploading S = record {
        server = q.server;
        cache = q.tree.cache;
        chunks = 0;
        bytes = 0;
      } in
      let files = push_entries slot q.tree.dir plan.want plan.manifest.entries start in
      let sent = push_manifest slot plan.want plan.fs_manifest_cid plan.manifest_bytes files.0 in
      let (passed, done, server, needed, _) = push_plan-parts ts plan q report h in
      let (grows, covers) =
        push_entries-Uploads slot honest q.tree.dir plan.want plan.manifest.entries start passed in
      let (grows', last) =
        push_manifest-Uploads plan.want plan.fs_manifest_cid plan.manifest_bytes files.0 done in
      subst (λ blobs. AllOf (held (push_plan slot ts plan q).0.server) blobs) (sym needed)
        (subst (λ s. AllOf (held s) plan.needed) (sym server)
          (held-needed have plan q.server sent.0 (plan_tree-Planned manifest have plan planned)
            listed (λ k was. grows' k (grows k was))
            (covers-all plan.want plan.manifest.entries files.0 sent.0 grows' covers) last))
