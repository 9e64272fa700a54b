-- ===== src/Blobs.antt =====
-- src/blobstore.rs: the bytes under a DID and a content address. The interface is what the server
-- calls; the backend in memory fills it.
use ciss.Prelude.{
  ℕ, ◌*◌, ◌≤◌, ◌≡◌, String, Bool, true, false, ◌&&◌, Option, none, some, List, [], ◌∷◌, str_eq,
  str_eq_refl, ltb, if◌then◌else◌, length, Result, ok, err, arith,
}
use ciss.Crypto.{Bytes}

abbrev pub max_object_bytes : ℕ
max_object_bytes = 2 * 1024 * 1024

pub data BlobError : Type 0 where
  missing : String → String → BlobError
  too_large : String → String → ℕ → ℕ → BlobError
  io : String → String → BlobError

pub record BlobStore : Type 1 where
  pub Blobs : Type 0
  pub put : Blobs → String → String → Bytes → Blobs × Result BlobError ℕ
  pub get : Blobs → String → String → Result BlobError Bytes
  pub has : Blobs → String → String → Bool

abbrev pub Memory : Type 0
Memory = List ((String × String) × Bytes)

find : String → String → Memory → Option Bytes
find did cid [] = none
find did cid ((k, bytes) ∷ rest) =
    if str_eq k.0 did && str_eq k.1 cid then some bytes else find did cid rest

unfoldable pub memory_put : Memory → String → String → Bytes → Memory × Result BlobError ℕ
memory_put m did cid bytes = (((did, cid), bytes) ∷ m, ok (length bytes))

unfoldable pub memory_get : Memory → String → String → Result BlobError Bytes
unfolding find
memory_get m did cid = elim (find did cid m) [
  | none ↦ err (missing did cid)
  | some bytes ↦
      if ltb max_object_bytes (length bytes)
      then err (too_large did cid (length bytes) max_object_bytes)
      else ok bytes
]

unfoldable pub memory_has : Memory → String → String → Bool
unfolding find
memory_has m did cid = elim (find did cid m) [ none ↦ false | some _ ↦ true ]

abbrev pub MemoryBlobStore : BlobStore
MemoryBlobStore = record { Blobs = Memory; put = memory_put; get = memory_get; has = memory_has }

-- What was put is what is read, up to the read limit.
pub memory_get-memory_put :
    (m : Memory) (did cid : String) (bytes : Bytes)
    → length bytes ≤ max_object_bytes
    → memory_get (memory_put m did cid bytes).0 did cid ≡ ok bytes
unfolding memory_get memory_put find
memory_get-memory_put m did cid bytes small = ground (arith, str_eq_refl did, str_eq_refl cid)
