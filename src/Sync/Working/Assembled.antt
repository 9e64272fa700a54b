-- ===== src/Sync/Working/Assembled.antt =====
-- crates/ciss-sync/src/hydrate.rs: what the chunks of a file come to.
use ciss.Prelude.{
  ◌+◌, String, ◌≡◌, refl, sym, ap, ◌∙◌, List, [], ◌∷◌, ◌++◌, Result, ok, ok-injective, inl, inr,
  arith, Result-cases,
}
use ciss.Crypto.{Primitives, Bytes}
use ciss.Sync.{SyncError}
use ciss.Sync.Tree.{ChunkRef, Formats, chunk_cid, digest_hex}
use ciss.Sync.Transport.{verify_content, verify_content_sound}
use ciss.Sync.Cache
use ciss.Sync.Cache.{ChunkCache, insert_best_effort}
use ciss.Sync.Cache.Hits.{get_sound}
use ciss.Sync.Working.{HydrateReport, assemble}

abbrev pub flatten : List Bytes → Bytes
flatten [] = []
flatten (b ∷ rest) = b ++ flatten rest

append_assoc : (xs ys zs : Bytes) → (xs ++ ys) ++ zs ≡ xs ++ (ys ++ zs)
append_assoc [] ys zs = refl
append_assoc (x ∷ xs) ys zs = ap (λ r. x ∷ r) (append_assoc xs ys zs)

append_nil : (xs : Bytes) → xs ++ [] ≡ xs
append_nil [] = refl
append_nil (x ∷ xs) = ap (λ r. x ∷ r) (append_nil xs)

module _ ⦃p : Primitives⦄ where
  -- One piece for each chunk, with the digest that the chunk names.
  abbrev pub Pieces : List ChunkRef → List Bytes → Type 0
  Pieces [] [] = Unit
  Pieces [] (b ∷ bytes) = ⊥
  Pieces (c ∷ chunks) [] = ⊥
  Pieces (c ∷ chunks) (b ∷ bytes) = (digest_hex b ≡ chunk_cid c) × Pieces chunks bytes

module _ ⦃p : Primitives⦄ ⦃formats : Formats⦄ where
  abbrev pub Assembled : List ChunkRef → Bytes → Bytes → Type 0
  Assembled chunks before content =
      (pieces : List Bytes) × Pieces chunks pieces × (content ≡ before ++ flatten pieces)

  Assembled-cons :
      (c : ChunkRef) (chunks : List ChunkRef) (before bytes content : Bytes)
      → digest_hex bytes ≡ chunk_cid c
      → Assembled chunks (before ++ bytes) content
      → Assembled (c ∷ chunks) before content
  Assembled-cons c chunks before bytes content named (pieces, named_all, same) =
      (bytes ∷ pieces, (named, named_all), same ∙ append_assoc before bytes (flatten pieces))

  pub assemble_sound :
      (fetch : String → Result SyncError Bytes) (chunks : List ChunkRef) (cache : ChunkCache)
      (report r : HydrateReport) (before content : Bytes)
      → (assemble fetch chunks cache report before).1 ≡ ok (r, content)
      → Assembled chunks before content
  unfolding assemble
  assemble_sound fetch [] cache report r before content h = (
    [],
    tt,
    ap (λ (x : HydrateReport × Bytes). x.1) (sym (ok-injective h)) ∙ sym (append_nil before),
  )
  assemble_sound fetch (c ∷ chunks) cache report r before content h =
      elim (get_sound cache (chunk_cid c)) [
        | inl (bytes, found, named) ↦ Assembled-cons c chunks before bytes content named (
            assemble_sound fetch chunks (Cache.get cache (chunk_cid c)).0
              (record report { chunks_from_cache = report.chunks_from_cache + 1 }) r
              (before ++ bytes) content (ground (arith, found, h)))
        | inr (missed, _) ↦ elim (Result-cases (fetch (chunk_cid c))) [
          | inr (e, failed) ↦ ground (arith, missed, h)
          | inl (bytes, fetched) ↦ elim (Result-cases (verify_content (chunk_cid c) bytes)) [
            | inr (e, refused) ↦ ground (arith, missed, fetched, h)
            | inl (_, passed) ↦
                Assembled-cons c chunks before bytes content
                  (verify_content_sound (chunk_cid c) bytes passed)
                  (assemble_sound fetch chunks
                    (insert_best_effort (Cache.get cache (chunk_cid c)).0 (chunk_cid c) bytes).0
                    (record report { chunks_from_server = report.chunks_from_server + 1 }) r
                    (before ++ bytes) content (ground (arith, missed, fetched, passed, h)))
          ]
        ]
      ]
