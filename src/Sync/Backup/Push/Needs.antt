-- ===== src/Sync/Backup/Push/Needs.antt =====
-- crates/ciss-sync/src/backup.rs: what holds of every blob that a tree needs.
use ciss.Prelude.{
  ap, ◌∙◌, str_eq→eq, ℕ, String, ◌≡◌, refl, Bool, true, ◌||◌, List, [], ◌∷◌, ◌++◌, any, all, map,
  str_eq, str_eq_refl, inl, inr, arith, Bool-cases,
}
use ciss.Prelude.Map.{Map}
use ciss.Sync.Tree.{ChunkRef, FileEntry, chunk_cid}
use ciss.Sync.Transport.{missing_blobs}
use ciss.Sync.Backup.{need_chunks, need_entries}
use ciss.Sync.Backup.Push.{wanted}

module _ (test : String → Bool) where
  abbrev pub AllOf : List (String × ℕ) → Type 0
  AllOf blobs = all (λ (blob : String × ℕ). test blob.0) blobs ≡ true

  pub all-append : (xs ys : List (String × ℕ)) → AllOf xs → AllOf ys → AllOf (xs ++ ys)
  all-append [] ys hx hy = hy
  all-append (x ∷ xs) ys hx hy = ground (arith, all-append xs ys)

  pub need_chunks-all :
      (chunks : List ChunkRef) (needed : List (String × ℕ))
      → all test (map chunk_cid chunks) ≡ true
      → AllOf needed
      → AllOf (need_chunks chunks needed)
  unfolding need_chunks
  need_chunks-all [] needed hc hn = hn
  need_chunks-all (c ∷ chunks) needed hc hn =
      let seen = any (λ (blob : String × ℕ). str_eq (chunk_cid c) blob.0) needed in
      elim (Bool-cases seen) [
        | inl known ↦ rw (need_chunks, known) (need_chunks-all chunks needed (ground arith) hn)
        | inr new ↦
            rw (need_chunks, new)
              (need_chunks-all chunks (needed ++ (chunk_cid c, c.len) ∷ []) (ground arith)
                (all-append needed ((chunk_cid c, c.len) ∷ []) hn (ground arith)))
      ]

  -- What holds of every chunk of the files holds of every blob that they need.
  pub need_entries-all :
      (entries : Map FileEntry) (needed : List (String × ℕ))
      → all (λ (e : String × FileEntry). all test (map chunk_cid e.1.chunks)) entries ≡ true
      → AllOf needed
      → AllOf (need_entries entries needed)
  unfolding need_entries
  need_entries-all [] needed he hn = hn
  need_entries-all ((path, entry) ∷ entries) needed he hn =
      need_entries-all entries (need_chunks entry.chunks needed) (ground arith)
        (need_chunks-all entry.chunks needed (ground arith) hn)

  all-append_parts : (xs ys : List (String × ℕ)) → AllOf (xs ++ ys) → AllOf xs × AllOf ys
  all-append_parts [] ys h = (refl, h)
  all-append_parts (x ∷ xs) ys h =
      let (hx, hy) = all-append_parts xs ys (ground arith) in (ground arith, hy)

  all-any :
      (cid : String) (blobs : List (String × ℕ))
      → AllOf blobs
      → any (λ (blob : String × ℕ). str_eq cid blob.0) blobs ≡ true
      → test cid ≡ true
  all-any cid (b ∷ blobs) h found = elim (Bool-cases (str_eq cid b.0)) [
    | inl here ↦ ap test (str_eq→eq cid b.0 here) ∙ ground arith
    | inr later ↦ all-any cid blobs (ground arith) (ground (arith, later, found))
  ]
  all-any cid [] h found = absurd (ground (arith, found))

  need_chunks-only :
      (chunks : List ChunkRef) (needed : List (String × ℕ))
      → AllOf (need_chunks chunks needed)
      → (all test (map chunk_cid chunks) ≡ true) × AllOf needed
  unfolding need_chunks
  need_chunks-only [] needed h = (refl, h)
  need_chunks-only (c ∷ chunks) needed h =
      let seen = any (λ (blob : String × ℕ). str_eq (chunk_cid c) blob.0) needed in
      elim (Bool-cases seen) [
        | inl known ↦
            let (rest, before) = need_chunks-only chunks needed (rw (need_chunks, known) at h) in
            let here : test (chunk_cid c) ≡ true = all-any (chunk_cid c) needed before known in
            (ground (arith, here, rest), before)
        | inr new ↦
            let (rest, both) =
              need_chunks-only chunks (needed ++ (chunk_cid c, c.len) ∷ [])
                (rw (need_chunks, new) at h) in
            let (before, last) = all-append_parts needed ((chunk_cid c, c.len) ∷ []) both in
            (ground (arith, last, rest), before)
      ]

  -- What holds of every blob that some files need holds of every chunk of theirs.
  pub need_entries-only :
      (entries : Map FileEntry) (needed : List (String × ℕ))
      → AllOf (need_entries entries needed)
      → (all (λ (e : String × FileEntry). all test (map chunk_cid e.1.chunks)) entries ≡ true)
        × AllOf needed
  unfolding need_entries
  need_entries-only [] needed h = (refl, h)
  need_entries-only ((path, entry) ∷ entries) needed h =
      let (rest, before) = need_entries-only entries (need_chunks entry.chunks needed) h in
      let (here, first) = need_chunks-only entry.chunks needed before in
      (ground (arith, here, rest), first)

  pub all-append_first : (xs ys : List (String × ℕ)) → AllOf (xs ++ ys) → AllOf xs
  all-append_first xs ys h = (all-append_parts xs ys h).0

  pub all-append_last : (xs ys : List (String × ℕ)) → AllOf (xs ++ ys) → AllOf ys
  all-append_last xs ys h = (all-append_parts xs ys h).1

-- A needed blob is listed by the server or wanted.
pub listed_or_wanted :
    (have : List String) (full blobs : List (String × ℕ))
    → ((cid : String) → wanted (missing_blobs blobs have) cid ≡ true → wanted full cid ≡ true)
    → AllOf (λ cid. any (str_eq cid) have || wanted full cid) blobs
unfolding missing_blobs
listed_or_wanted have full [] into = refl
listed_or_wanted have full (b ∷ blobs) into = elim (Bool-cases (any (str_eq b.0) have)) [
  | inl listed ↦
      ground (arith, listed, listed_or_wanted have full blobs (λ cid h. into cid (rw listed h)))
  | inr missing ↦
      let here : wanted full b.0 ≡ true = into b.0 (rw missing (ground (arith, str_eq_refl b.0))) in
      ground (
        arith,
        here,
        listed_or_wanted have full blobs (λ cid h. into cid (rw missing (ground (arith, h)))),
      )
]

module _ (test other goal : String → Bool)
    (both : (cid : String) → test cid ≡ true → other cid ≡ true → goal cid ≡ true) where
  pub all-both :
      (blobs : List (String × ℕ)) → AllOf test blobs → AllOf other blobs → AllOf goal blobs
  all-both [] ht ho = refl
  all-both (b ∷ blobs) ht ho = ground (arith, both b.0, all-both blobs)
