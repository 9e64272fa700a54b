-- ===== src/Sync/Backup/Push/Held.antt =====
-- crates/ciss-sync/src/backup.rs: what the loop of uploads puts on a server that keeps what it takes.
use ciss.Prelude.{
  ℕ, ◌+◌, String, ◌≡◌, refl, sym, ap, ◌∙◌, subst, Bool, true, false, not, ◌||◌, List, [], ◌∷◌, ◌==◌,
  any, all, map, length, str_eq, ok, inl, inr, arith, Bool-cases, Option-cases, Result-cases,
}
use ciss.Prelude.Map
use ciss.Prelude.Map.{Map}
use ciss.Crypto.{Primitives, Bytes}
use ciss.Sync.Tree.{FileEntry, Formats, chunk_cid, chunk_file}
use ciss.Sync.Cache
use ciss.Sync.Working.{DiskFile}
use ciss.Sync.Backup.{PushTransport}
use ciss.Sync.Backup.Push.{
  Uploading, Uploaded, wanted, upload, upload_pieces, index_pieces, recover_evicted_from_cache,
  push_entry, push_entries,
}

-- What a push relies on: the server holds what it lists, a `put` that succeeds stores, and none drops.
pub record Honest {S : Type 0} (slot : PushTransport S) : Type 0 where
  pub held : S → String → Bool
  pub have-held :
      (s : S) (cids : List String) (cid : String)
      → slot.have s ≡ ok cids
      → any (str_eq cid) cids ≡ true
      → held s cid ≡ true
  pub put-held :
      (s : S) (cid : String) (bytes : Bytes)
      → (slot.put s cid bytes).1 ≡ ok tt
      → held (slot.put s cid bytes).0 cid ≡ true
  pub put-keeps :
      (s : S) (cid : String) (bytes : Bytes) (k : String)
      → held s k ≡ true
      → held (slot.put s cid bytes).0 k ≡ true

module _ {S : Type 0} (slot : PushTransport S) (honest : Honest slot) where
  open honest use {held, have-held, put-held, put-keeps}

  -- The second state holds what the first does.
  abbrev pub Grows : Uploading S → Uploading S → Type 0
  Grows u v = (k : String) → held u.server k ≡ true → held v.server k ≡ true

  -- What is wanted of these cids is held.
  abbrev pub Covers : List (String × ℕ) → List String → Uploading S → Type 0
  Covers want cids u = all (λ cid. not (wanted want cid) || held u.server cid) cids ≡ true

  -- What a run that succeeded did.
  abbrev Uploads : List (String × ℕ) → List String → Uploading S → Uploaded S → Type 0
  Uploads want cids u done = done.1 ≡ ok tt → Grows u done.0 × Covers want cids done.0

  covers-skip :
      (want : List (String × ℕ)) (cid : String) (cids : List String) (u : Uploading S)
      (done : Uploaded S)
      → wanted want cid ≡ false
      → Uploads want cids u done
      → Uploads want (cid ∷ cids) u done
  covers-skip want cid cids u done unwanted did succeeded =
      let (grows, covers) = did succeeded in (grows, ground (arith, covers))

  upload-Uploads :
      (want : List (String × ℕ)) (cid : String) (cids : List String) (piece : Bytes)
      (u : Uploading S) (next : Uploading S → Uploaded S)
      → ((v : Uploading S) → Uploads want cids v (next v))
      → Uploads want (cid ∷ cids) u (upload slot cid piece u next)
  unfolding upload
  upload-Uploads want cid cids piece u next onward succeeded =
      elim (Result-cases (slot.put u.server cid piece).1) [
        | inr (e, failed) ↦ absurd (ground (arith, failed, succeeded))
        | inl (_, stored) ↦
            let v : Uploading S = record {
              server = (slot.put u.server cid piece).0;
              cache = u.cache;
              chunks = u.chunks + 1;
              bytes = u.bytes + length piece;
            } in
            let (grows, covers) = onward v (ground (arith, stored, succeeded)) in
            let same : upload slot cid piece u next ≡ next v = rw (upload, stored) refl in
            subst (λ x. Grows u x.0 × Covers want (cid ∷ cids) x.0) (sym same)
              (
                λ k h. grows k (put-keeps u.server cid piece k h),
                ground (arith, covers, grows cid (put-held u.server cid piece stored)),
              )
      ]

  upload_pieces-Uploads :
      (path : String) (want : List (String × ℕ)) (by_cid : Map Bytes) (cids : List String)
      (u : Uploading S)
      → Uploads want cids u (upload_pieces slot path want by_cid cids u)
  unfolding upload_pieces
  upload_pieces-Uploads path want by_cid [] u = λ succeeded. (λ k h. h, refl)
  upload_pieces-Uploads path want by_cid (cid ∷ cids) u = elim (Bool-cases (wanted want cid)) [
    | inr unwanted ↦
        let same : upload_pieces slot path want by_cid (cid ∷ cids) u
            ≡ upload_pieces slot path want by_cid cids u =
          rw (upload_pieces, unwanted) refl in
        subst (Uploads want (cid ∷ cids) u) (sym same) (
          covers-skip want cid cids u (upload_pieces slot path want by_cid cids u) unwanted
            (upload_pieces-Uploads path want by_cid cids u))
    | inl needed ↦ elim (Option-cases (Map.get cid by_cid)) [
      | inl absent ↦ λ succeeded. absurd (ground (arith, succeeded, needed, absent))
      | inr (piece, there) ↦
          let same : upload_pieces slot path want by_cid (cid ∷ cids) u
              ≡ upload slot cid piece u (λ v. upload_pieces slot path want by_cid cids v) =
            rw (upload_pieces, needed, there) refl in
          subst (Uploads want (cid ∷ cids) u) (sym same) (
            upload-Uploads want cid cids piece u (λ v. upload_pieces slot path want by_cid cids v)
              (λ v. upload_pieces-Uploads path want by_cid cids v))
    ]
  ]

  module _ ⦃p : Primitives⦄ where
    recover-Uploads :
        (path : String) (want : List (String × ℕ)) (cids : List String) (u : Uploading S)
        → Uploads want cids u (recover_evicted_from_cache slot path want cids u)
    unfolding recover_evicted_from_cache
    recover-Uploads path want [] u = λ succeeded. (λ k h. h, refl)
    recover-Uploads path want (cid ∷ cids) u = elim (Bool-cases (wanted want cid)) [
      | inr unwanted ↦
          let same : recover_evicted_from_cache slot path want (cid ∷ cids) u
              ≡ recover_evicted_from_cache slot path want cids u =
            rw (recover_evicted_from_cache, unwanted) refl in
          subst (Uploads want (cid ∷ cids) u) (sym same) (
            covers-skip want cid cids u (recover_evicted_from_cache slot path want cids u) unwanted
              (recover-Uploads path want cids u))
      | inl needed ↦ elim (Option-cases (Cache.get u.cache cid).1) [
        | inl absent ↦ λ succeeded. absurd (ground (arith, succeeded, needed, absent))
        | inr (bytes, there) ↦
            let cached = record u { cache = (Cache.get u.cache cid).0 } in
            let same : recover_evicted_from_cache slot path want (cid ∷ cids) u
                ≡ upload slot cid bytes cached
                    (λ v. recover_evicted_from_cache slot path want cids v) =
              rw (recover_evicted_from_cache, needed, there) refl in
            subst (Uploads want (cid ∷ cids) u) (sym same) (
              upload-Uploads want cid cids bytes (record u { cache = (Cache.get u.cache cid).0 })
                (λ v. recover_evicted_from_cache slot path want cids v)
                (λ v. recover-Uploads path want cids v))
      ]
    ]

  none-wanted :
      (want : List (String × ℕ)) (cids : List String) (u : Uploading S)
      → any (wanted want) cids ≡ false
      → Covers want cids u
  none-wanted want [] u h = refl
  none-wanted want (cid ∷ cids) u h = ground (arith, none-wanted want cids u)

  pub Covers-Grows :
      (want : List (String × ℕ)) (cids : List String) (u v : Uploading S)
      → Grows u v
      → Covers want cids u
      → Covers want cids v
  Covers-Grows want [] u v grows h = refl
  Covers-Grows want (cid ∷ cids) u v grows h =
      ground (arith, grows cid, Covers-Grows want cids u v grows)

  module _ ⦃p : Primitives⦄ ⦃formats : Formats⦄ where
    push_entry-Uploads :
        (dir : Map DiskFile) (want : List (String × ℕ)) (path : String) (entry : FileEntry)
        (u : Uploading S)
        → Uploads want (map chunk_cid entry.chunks) u (push_entry slot dir want path entry u)
    unfolding push_entry
    push_entry-Uploads dir want path entry u =
        let cids = map chunk_cid entry.chunks in
        elim (Bool-cases (any (wanted want) cids)) [
          | inr idle ↦ rw (push_entry, idle) (λ succeeded. (λ k h. h, none-wanted want cids u idle))
          | inl busy ↦ elim (Option-cases (Map.get path dir)) [
            | inl evicted ↦ rw (push_entry, busy, evicted) (recover-Uploads path want cids u)
            | inr (file, there) ↦
                let rechunked = chunk_file file.content in
                let by_cid = index_pieces rechunked [] in
                elim (Bool-cases (
                  not (length rechunked == length entry.chunks)
                  || not (all (λ cid. Map.contains_key cid by_cid) cids))) [
                    | inl moved ↦
                        λ succeeded. absurd (ground (arith, succeeded, busy, there, moved))
                    | inr still ↦
                        rw (push_entry, busy, there, still)
                          (upload_pieces-Uploads path want by_cid cids u)
                  ]
          ]
        ]

    -- What is wanted of the chunks of these files is held.
    abbrev pub CoversAll : List (String × ℕ) → Map FileEntry → Uploading S → Type 0
    CoversAll want [] u = Unit
    CoversAll want ((path, entry) ∷ entries) u =
        Covers want (map chunk_cid entry.chunks) u × CoversAll want entries u

    pub push_entries-Uploads :
        (dir : Map DiskFile) (want : List (String × ℕ)) (entries : Map FileEntry) (u : Uploading S)
        → (push_entries slot dir want entries u).1 ≡ ok tt
        → Grows u (push_entries slot dir want entries u).0
          × CoversAll want entries (push_entries slot dir want entries u).0
    unfolding push_entries
    push_entries-Uploads dir want [] u succeeded = (λ k h. h, tt)
    push_entries-Uploads dir want ((path, entry) ∷ entries) u succeeded =
        let here = push_entry slot dir want path entry u in
        elim (Result-cases here.1) [
          | inr (e, failed) ↦ absurd (ground (arith, failed, succeeded))
          | inl (_, passed) ↦
              let same : push_entries slot dir want ((path, entry) ∷ entries) u
                  ≡ push_entries slot dir want entries here.0 =
                rw (push_entries, passed) refl in
              let (grows, covers) = push_entry-Uploads dir want path entry u passed in
              let (grows', covers') =
                push_entries-Uploads dir want entries here.0
                  (ap (λ (x : Uploaded S). x.1) (sym same) ∙ succeeded) in
              subst (λ (x : Uploaded S). Grows u x.0 × CoversAll want ((path, entry) ∷ entries) x.0)
                (sym same)
                (
                  λ k h. grows' k (grows k h),
                  (
                    Covers-Grows want (map chunk_cid entry.chunks) here.0
                        (push_entries slot dir want entries here.0).0 grows' covers,
                    covers',
                  ),
                )
        ]
