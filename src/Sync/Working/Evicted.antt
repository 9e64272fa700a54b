-- ===== src/Sync/Working/Evicted.antt =====
-- crates/ciss-sync/src/evict.rs: no file is deleted whose bytes are not backed and whose entry is not kept.
use ciss.Prelude.{
  String, ◌≡◌, refl, ap, ◌∙◌, subst, Bool, true, false, none, some, List, [], ◌∷◌, any, all, map,
  retain, not, ◌&&◌, ◌||◌, ok, ◌⊎◌, inl, inr, arith, Bool-cases, Option-cases, Result-cases, str_eq,
  str_eq→eq, str_eq_refl,
}
use ciss.Prelude.Map
use ciss.Prelude.Map.{Map, get-upsert, get-remove}
use ciss.Crypto.{Primitives, Bytes}
use ciss.Sync.Tree.{FileEntry, Formats, chunk_cid}
use ciss.Sync.Working.{
  DiskFile, WorkingTree, EvictReport, file_entry_for, record_placeholder, get_placeholder, unbacked,
  evict_file, evict_files,
}

-- What a filter for either of two lacks leaves out has both.
retain-lacking :
    (a b : String → Bool) (xs : List String)
    → retain (λ x. not (a x) || not (b x)) xs ≡ []
    → all (λ x. a x && b x) xs ≡ true
retain-lacking a b [] h = refl
retain-lacking a b (x ∷ xs) h = elim (Bool-cases (not (a x) || not (b x))) [
  | inl lacks ↦ absurd (ground (arith, lacks, h))
  | inr has ↦ ground (arith, has, h, retain-lacking a b xs)
]

-- Held by the server, and named in the keep-set.
abbrev pub backed : List String → List String → String → Bool
backed have keep cid = any (str_eq cid) have && any (str_eq cid) keep

module _ ⦃p : Primitives⦄ ⦃formats : Formats⦄ where
  -- A placeholder that was recorded is the one that is found.
  pub get_placeholder-record :
      (path : String) (entry : FileEntry) (rows rows' : Map Bytes)
      → record_placeholder path entry rows ≡ ok rows'
      → get_placeholder path rows' ≡ ok (some entry)
  unfolding record_placeholder get_placeholder
  get_placeholder-record path entry rows rows' h =
      elim (Option-cases (formats.entry_to_vec entry)) [
        | inl failed ↦ ground arith
        | inr (blob, written) ↦ ground (
          arith,
          get-upsert path path blob rows,
          str_eq_refl path,
          formats.entry_from_slice-to_vec entry blob written,
        )
      ]

  get_placeholder-other :
      (path q : String) (entry : FileEntry) (rows rows' : Map Bytes)
      → str_eq path q ≡ false
      → record_placeholder path entry rows ≡ ok rows'
      → get_placeholder q rows' ≡ get_placeholder q rows
  unfolding record_placeholder get_placeholder
  get_placeholder-other path q entry rows rows' other h =
      elim (Option-cases (formats.entry_to_vec entry)) [
        | inl failed ↦ ground arith
        | inr (blob, written) ↦ ground (arith, get-upsert path q blob rows)
      ]

  -- The two things that one file of an eviction may do.
  abbrev Kept : WorkingTree → WorkingTree → Type 0
  Kept tree tree' = (tree'.dir ≡ tree.dir) × (tree'.placeholders ≡ tree.placeholders)

  abbrev Gone : List String → List String → String → WorkingTree → WorkingTree → Type 0
  Gone have keep path tree tree' =
      (file : DiskFile) × (Map.get path tree.dir ≡ some file)
      × (unbacked have keep (file_entry_for file) ≡ [])
      × (tree'.dir ≡ Map.remove path tree.dir)
      × (record_placeholder path (file_entry_for file) tree.placeholders ≡ ok tree'.placeholders)

  unbacked-cases :
      (cids : List String) → (cids ≡ []) ⊎ ((c : String) × (cs : List String) × (cids ≡ c ∷ cs))
  unbacked-cases [] = inl refl
  unbacked-cases (c ∷ cs) = inr (c, cs, refl)

  evict_file-cases :
      (have keep : List String) (path : String) (tree : WorkingTree) (report : EvictReport)
      → Kept tree (evict_file have keep path tree report).0
        ⊎ Gone have keep path tree (evict_file have keep path tree report).0
  unfolding evict_file
  evict_file-cases have keep path tree report = elim (Option-cases (Map.get path tree.dir)) [
    | inl missing ↦ inl (rw (evict_file, missing) refl, rw (evict_file, missing) refl)
    | inr (file, there) ↦
        let entry = file_entry_for file in
        elim (unbacked-cases (unbacked have keep entry)) [
          | inr (c, cs, bad) ↦
              inl (rw (evict_file, there, bad) refl, rw (evict_file, there, bad) refl)
          | inl backed ↦ elim (Result-cases (record_placeholder path entry tree.placeholders)) [
            | inr (e, failed) ↦ inl (
              rw (evict_file, there, backed, failed) refl,
              rw (evict_file, there, backed, failed) refl,
            )
            | inl (rows, recorded) ↦ inr (
              file,
              there,
              backed,
              rw (evict_file, there, backed, recorded) refl,
              rw (evict_file, there, backed, recorded) refl,
            )
          ]
        ]
  ]

  -- The file is off the disk, every chunk of its last bytes is backed, and its entry is kept.
  abbrev Backed : List String → List String → String → DiskFile → WorkingTree → Type 0
  Backed have keep q file tree =
      (Map.get q tree.dir ≡ none)
      × (unbacked have keep (file_entry_for file) ≡ [])
      × (get_placeholder q tree.placeholders ≡ ok (some (file_entry_for file)))

  -- What holds of a file behind some evictions.
  abbrev Safe : List String → List String → String → DiskFile → WorkingTree → Type 0
  Safe have keep q file tree = (Map.get q tree.dir ≡ some file) ⊎ Backed have keep q file tree

  evict_file-Safe :
      (have keep : List String) (path q : String) (file : DiskFile) (tree : WorkingTree)
      (report : EvictReport)
      → Safe have keep q file tree
      → Safe have keep q file (evict_file have keep path tree report).0
  evict_file-Safe have keep path q file tree report safe =
      let tree' = (evict_file have keep path tree report).0 in
      elim (evict_file-cases have keep path tree report) [
        | inl (same_dir, same_rows) ↦ elim safe [
          | inl there ↦ inl (ap (Map.get q) same_dir ∙ there)
          | inr (gone, backed, kept) ↦
              inr (ap (Map.get q) same_dir ∙ gone, backed, ap (get_placeholder q) same_rows ∙ kept)
        ]
        | inr (f, found, backed, dir, recorded) ↦ elim (Bool-cases (str_eq path q)) [
          | inr other ↦
              let stays = ap (Map.get q) dir ∙ get-remove path q tree.dir in
              elim safe [
                | inl there ↦ inl (ground (arith, stays))
                | inr (gone, was, kept) ↦ inr (
                  ground (arith, stays),
                  was,
                  get_placeholder-other path q (file_entry_for f) tree.placeholders
                        tree'.placeholders other recorded
                      ∙ kept,
                )
              ]
          | inl here ↦
              let same : path ≡ q = str_eq→eq path q here in
              let left = ap (Map.get q) dir ∙ get-remove path q tree.dir in
              elim safe [
                | inr (gone, _, _) ↦
                    let absent : Map.get path tree.dir ≡ none =
                      ap (λ x. Map.get x tree.dir) same ∙ gone in
                    absurd (ground (arith, absent, found))
                | inl there ↦
                    let this : f ≡ file =
                      ground (arith, found, there, ap (λ x. Map.get x tree.dir) same) in
                    inr (
                      ground (arith, left, here),
                      subst (λ x. unbacked have keep (file_entry_for x) ≡ []) this backed,
                      subst
                          (λ x.
                            get_placeholder x tree'.placeholders ≡ ok (some (file_entry_for file)))
                          same
                          (get_placeholder-record path (file_entry_for file) tree.placeholders
                            tree'.placeholders
                            (subst
                              (λ x.
                                record_placeholder path (file_entry_for x) tree.placeholders
                                ≡ ok tree'.placeholders)
                              this recorded)),
                    )
              ]
        ]
      ]

  evict_files-Safe :
      (have keep paths : List String) (q : String) (file : DiskFile) (tree : WorkingTree)
      (report : EvictReport)
      → Safe have keep q file tree
      → Safe have keep q file (evict_files have keep paths tree report).0
  unfolding evict_files
  evict_files-Safe have keep [] q file tree report safe = safe
  evict_files-Safe have keep (path ∷ paths) q file tree report safe =
      let tree' = (evict_file have keep path tree report).0 in
      let next = evict_file-Safe have keep path q file tree report safe in
      elim (Result-cases (evict_file have keep path tree report).1) [
        | inr (e, failed) ↦ rw (evict_files, failed) next
        | inl (report', passed) ↦
            rw (evict_files, passed) (evict_files-Safe have keep paths q file tree' report' next)
      ]

  -- Whatever an eviction of several files comes to, an error midway included, each file of the directory
  -- is still there as it was, or it is gone, every chunk of its bytes is both held by the server and
  -- named in the keep-set, and its entry is among the placeholders.
  pub evict_files-safe :
      (have keep paths : List String) (q : String) (file : DiskFile) (tree : WorkingTree)
      (report : EvictReport)
      → Map.get q tree.dir ≡ some file
      → (Map.get q (evict_files have keep paths tree report).0.dir ≡ some file)
        ⊎ ((Map.get q (evict_files have keep paths tree report).0.dir ≡ none)
            × (all (backed have keep) (map chunk_cid (file_entry_for file).chunks) ≡ true)
            × (get_placeholder q (evict_files have keep paths tree report).0.placeholders
                ≡ ok (some (file_entry_for file))))
  unfolding unbacked
  evict_files-safe have keep paths q file tree report there =
      elim (evict_files-Safe have keep paths q file tree report (inl there)) [
        | inl kept ↦ inl kept
        | inr (gone, none_lacking, listed) ↦ inr (
          gone,
          retain-lacking (λ cid. any (str_eq cid) have) (λ cid. any (str_eq cid) keep)
              (map chunk_cid (file_entry_for file).chunks) none_lacking,
          listed,
        )
      ]
