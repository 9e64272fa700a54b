-- ===== src/Sync/Working/Hydrated.antt =====
-- crates/ciss-sync/src/hydrate.rs: what comes back is what the entry names, and nothing is overwritten,
-- whatever the cache holds and whatever the server answers.
use ciss.Prelude.{
  String, ◌≡◌, refl, sym, ap, ◌∙◌, false, some, List, [], ◌∷◌, ◌==◌, length, Result, ok, err, ◌⊎◌,
  inl, inr, arith, eq_iff, Bool-cases, Option-cases, Result-cases, str_eq_refl, ==→eq,
}
use ciss.Prelude.Map
use ciss.Prelude.Map.{Map, get-upsert, contains_key-some}
use ciss.Prelude.Int.{pos, negsuc}
use ciss.Crypto.{Primitives, Bytes}
use ciss.Sync.{SyncError, no_placeholder, hydrate_would_overwrite}
use ciss.Sync.Tree.{FileEntry, Formats}
use ciss.Sync.Working.{
  DiskFile, Metadata, WorkingTree, restore_metadata, HydrateReport, get_placeholder, assemble,
  write_verified_file, land, hydrate_file, hydrate_files,
}
use ciss.Sync.Working.Assembled.{flatten, Pieces, Assembled, assemble_sound}

module _ ⦃p : Primitives⦄ ⦃formats : Formats⦄ where
  -- The file of an entry, with this content: its time is the entry's from 1970 on, and the one that
  -- the write gave it before.
  abbrev pub file_of : Metadata → FileEntry → Bytes → DiskFile
  file_of created entry content = elim entry.mtime_secs [
    | pos secs ↦ record {
      mode = entry.mode;
      mtime_secs = pos secs;
      mtime_nanos = entry.mtime_nanos;
      content = content;
    }
    | negsuc _ ↦ record {
      mode = entry.mode;
      mtime_secs = created.mtime_secs;
      mtime_nanos = created.mtime_nanos;
      content = content;
    }
  ]

  restore_metadata-file_of :
      (created : Metadata) (entry : FileEntry) (content : Bytes)
      → restore_metadata entry (record {
        mode = created.mode;
        mtime_secs = created.mtime_secs;
        mtime_nanos = created.mtime_nanos;
        content = content;
      })
        ≡ file_of created entry content
  unfolding restore_metadata
  restore_metadata-file_of created entry content = refl

  write_verified_file-ok :
      (created : Metadata) (path : String) (entry : FileEntry) (content : Bytes)
      (dir dir' : Map DiskFile)
      → write_verified_file created path entry content dir ≡ ok dir'
      → (length content ≡ entry.size) × (dir' ≡ Map.upsert path (file_of created entry content) dir)
  unfolding write_verified_file
  write_verified_file-ok created path entry content dir dir' h =
      elim (Bool-cases (length content == entry.size)) [
        | inr other ↦ ground (arith, h)
        | inl same ↦ (
          ==→eq (length content) entry.size same,
          ground (arith, h, same, restore_metadata-file_of created entry content),
        )
      ]

  -- The two things that a file of a hydration may come to.
  abbrev Failed : WorkingTree → WorkingTree × Result SyncError HydrateReport → Type 0
  Failed tree done = (done.0.dir ≡ tree.dir) × (e : SyncError) × (done.1 ≡ err e)

  abbrev Landed : (String → Metadata) → String → FileEntry → WorkingTree → WorkingTree → Type 0
  Landed create path entry tree tree' =
      (content : Bytes) × Assembled entry.chunks [] content
      × (length content ≡ entry.size)
      × (tree'.dir ≡ Map.upsert path (file_of (create path) entry content) tree.dir)

  land-cases :
      (create : String → Metadata) (fetch : String → Result SyncError Bytes) (path : String)
      (entry : FileEntry) (tree : WorkingTree) (report : HydrateReport)
      → Failed tree (land create fetch path entry tree report)
        ⊎ Landed create path entry tree (land create fetch path entry tree report).0
  unfolding land
  land-cases create fetch path entry tree report =
      elim (Result-cases (assemble fetch entry.chunks tree.cache report []).1) [
        | inr (e, failed) ↦ inl (rw (land, failed) refl, e, rw (land, failed) refl)
        | inl ((r, content), assembled) ↦
            elim (Result-cases (write_verified_file (create path) path entry content tree.dir)) [
              | inr (e, refused) ↦
                  inl (rw (land, assembled, refused) refl, e, rw (land, assembled, refused) refl)
              | inl (dir, written) ↦
                  let (sized, same) =
                    write_verified_file-ok (create path) path entry content tree.dir dir written in
                  inr (
                    content,
                    assemble_sound fetch entry.chunks tree.cache report r [] content assembled,
                    sized,
                    rw (land, assembled, written) same,
                  )
            ]
      ]

  hydrate_file-cases :
      (create : String → Metadata) (fetch : String → Result SyncError Bytes) (path : String)
      (tree : WorkingTree) (report : HydrateReport)
      → Failed tree (hydrate_file create fetch path tree report)
        ⊎ ((entry : FileEntry) × (get_placeholder path tree.placeholders ≡ ok (some entry))
            × (Map.contains_key path tree.dir ≡ false)
            × Landed create path entry tree (hydrate_file create fetch path tree report).0)
  unfolding hydrate_file
  hydrate_file-cases create fetch path tree report =
      elim (Result-cases (get_placeholder path tree.placeholders)) [
        | inr (e, failed) ↦ inl (rw (hydrate_file, failed) refl, e, rw (hydrate_file, failed) refl)
        | inl (found, read) ↦ elim (Option-cases found) [
          | inl nothing ↦ inl (
            rw (hydrate_file, read, nothing) refl,
            no_placeholder path,
            rw (hydrate_file, read, nothing) refl,
          )
          | inr (entry, something) ↦ elim (Bool-cases (Map.contains_key path tree.dir)) [
            | inl taken ↦ inl (
              rw (hydrate_file, read, something, taken) refl,
              hydrate_would_overwrite path,
              rw (hydrate_file, read, something, taken) refl,
            )
            | inr free ↦ elim (land-cases create fetch path entry tree report) [
              | inl (kept, e, failed) ↦ inl (
                rw (hydrate_file, read, something, free) kept,
                e,
                rw (hydrate_file, read, something, free) failed,
              )
              | inr landed ↦ inr (
                entry,
                read ∙ ap ok something,
                free,
                rw (hydrate_file, read, something, free) landed,
              )
            ]
          ]
        ]
      ]

  -- A file that a hydration brings back was not on the disk before, and is there as its placeholder says:
  -- its mode and its size are the entry's, its time is the entry's unless that is before 1970 (it is
  -- then the time of the write), and its content is one piece for each chunk of the entry, in order, with the digest that the chunk names, whether the pieces came out of the cache, in
  -- any state of it, or from a server, whatever it answered.
  pub hydrate_file_sound :
      (create : String → Metadata) (fetch : String → Result SyncError Bytes) (path : String)
      (tree : WorkingTree) (report report' : HydrateReport)
      → (hydrate_file create fetch path tree report).1 ≡ ok report'
      → (entry : FileEntry) × (pieces : List Bytes) × (get_placeholder path tree.placeholders
          ≡ ok (some entry))
        × (Map.get path (hydrate_file create fetch path tree report).0.dir
            ≡ some (file_of (create path) entry (flatten pieces)))
        × Pieces entry.chunks pieces
        × (length (flatten pieces) ≡ entry.size)
        × (Map.contains_key path tree.dir ≡ false)
  hydrate_file_sound create fetch path tree report report' done =
      elim (hydrate_file-cases create fetch path tree report) [
        | inl (_, e, failed) ↦ absurd (ground (arith, failed, done))
        | inr (entry, read, free, (content, (pieces, named, same), sized, dir)) ↦ (
          entry,
          pieces,
          read,
          ap (Map.get path) dir
              ∙ get-upsert path path (file_of (create path) entry content) tree.dir
              ∙ rw (str_eq_refl path) (ap (λ x. some (file_of (create path) entry x)) same),
          named,
          ap length (sym same) ∙ sized,
          free,
        )
      ]

  hydrate_file-keeps :
      (create : String → Metadata) (fetch : String → Result SyncError Bytes) (path q : String)
      (file : DiskFile) (tree : WorkingTree) (report : HydrateReport)
      → Map.get q tree.dir ≡ some file
      → Map.get q (hydrate_file create fetch path tree report).0.dir ≡ some file
  hydrate_file-keeps create fetch path q file tree report there =
      elim (hydrate_file-cases create fetch path tree report) [
        | inl (same, _, _) ↦ ap (Map.get q) same ∙ there
        | inr (entry, _, free, (content, _, _, dir)) ↦
            ap (Map.get q) dir
            ∙ get-upsert path q (file_of (create path) entry content) tree.dir
            ∙ ground (arith, there, free, eq_iff path q, contains_key-some q file tree.dir there)
      ]

  -- Hydration, whatever it comes to, leaves every file of the directory as it was.
  pub hydrate_files-keeps :
      (create : String → Metadata) (fetch : String → Result SyncError Bytes) (paths : List String)
      (q : String) (file : DiskFile) (tree : WorkingTree) (report : HydrateReport)
      → Map.get q tree.dir ≡ some file
      → Map.get q (hydrate_files create fetch paths tree report).0.dir ≡ some file
  unfolding hydrate_files
  hydrate_files-keeps create fetch [] q file tree report there = there
  hydrate_files-keeps create fetch (path ∷ paths) q file tree report there =
      let tree' = (hydrate_file create fetch path tree report).0 in
      let next = hydrate_file-keeps create fetch path q file tree report there in
      elim (Result-cases (hydrate_file create fetch path tree report).1) [
        | inr (e, failed) ↦ rw (hydrate_files, failed) next
        | inl (report', passed) ↦
            rw (hydrate_files, passed)
              (hydrate_files-keeps create fetch paths q file tree' report' next)
      ]
