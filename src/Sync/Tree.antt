-- ===== src/Sync/Tree.antt =====
-- crates/ciss-sync/src/chunk.rs and manifest.rs: chunk references, file entries, and the manifest of a
-- tree. The cutter (fastcdc), blake3 and the CBOR crate are the parameter `Formats`.
use ciss.Prelude.{
  ℕ, ◌%◌, ◌/◌, ◌-◌, String, ◌≡◌, Bool, true, false, ◌&&◌, ◌||◌, Option, none, some, List, [], ◌∷◌,
  ◌==◌, leb, length, map, str_eq, if◌then◌else◌, Result, ok, err, ◌>>=◌,
}
use ciss.Prelude.Int.{ℤ, eqb_ℤ}
use ciss.Prelude.Map
use ciss.Prelude.Map.{Map}
use ciss.Prelude.Text.{concat}
use ciss.Crypto.{Primitives, Bytes}
use ciss.Sync.{SyncError, invalid_chunk_len, encode, decode, wrong_kind}

abbrev pub max_object_bytes : ℕ
max_object_bytes = 2097152

abbrev hex_digits : List String
hex_digits =
    "0" ∷ "1" ∷ "2" ∷ "3" ∷ "4" ∷ "5" ∷ "6" ∷ "7" ∷ "8" ∷ "9" ∷ "a" ∷ "b" ∷ "c" ∷ "d" ∷ "e" ∷ "f"
    ∷ []

abbrev nth : ℕ → List String → String
nth i [] = ""
nth i (s ∷ rest) = let later = nth (i - 1) rest in if i == 0 then s else later

-- `{b:02x}` for each byte.
unfoldable pub to_hex : Bytes → String
to_hex [] = ""
to_hex (b ∷ bytes) = concat (nth (b / 16) hex_digits ∷ nth (b % 16) hex_digits ∷ to_hex bytes ∷ [])

-- A `Hash32` is its bytes.
pub record ChunkRef : Type 0 where
  pub sha256 : Bytes
  pub blake3 : Bytes
  pub len : ℕ

unfoldable pub new_chunk_ref : Bytes → Bytes → ℕ → Result SyncError ChunkRef
new_chunk_ref sha256 blake3 len =
    if len == 0 || leb max_object_bytes len
    then err (invalid_chunk_len len max_object_bytes)
    else ok (record { sha256 = sha256; blake3 = blake3; len = len })

abbrev pub chunk_cid : ChunkRef → String
chunk_cid c = to_hex c.sha256

pub record FileEntry : Type 0 where
  pub mode : ℕ
  pub mtime_secs : ℤ
  pub mtime_nanos : ℕ
  pub size : ℕ
  pub chunks : List ChunkRef

abbrev pub fs_manifest_kind : String
fs_manifest_kind = "croft.fs-manifest/v1"

pub record FsManifest : Type 0 where
  pub kind : String
  pub entries : Map FileEntry

unfoldable pub new_manifest : FsManifest
new_manifest = record { kind = fs_manifest_kind; entries = [] }

unfoldable pub insert_entry : String → FileEntry → FsManifest → FsManifest
insert_entry path entry m = record m { entries = Map.insert path entry m.entries }

-- The derived `PartialEq`.
abbrev pub list_eq {ℓ} : {A : Type ℓ} → (A → A → Bool) → List A → List A → Bool
list_eq eq [] [] = true
list_eq eq [] (y ∷ ys) = false
list_eq eq (x ∷ xs) [] = false
list_eq eq (x ∷ xs) (y ∷ ys) = eq x y && list_eq eq xs ys

abbrev pub chunk_ref_eq : ChunkRef → ChunkRef → Bool
chunk_ref_eq a b =
    list_eq ◌==◌ a.sha256 b.sha256 && list_eq ◌==◌ a.blake3 b.blake3 && a.len == b.len

unfoldable pub chunks_eq : List ChunkRef → List ChunkRef → Bool
chunks_eq a b = list_eq chunk_ref_eq a b

unfoldable pub file_entry_eq : FileEntry → FileEntry → Bool
unfolding chunks_eq
file_entry_eq a b =
    a.mode == b.mode
    && eqb_ℤ a.mtime_secs b.mtime_secs
    && a.mtime_nanos == b.mtime_nanos
    && a.size == b.size
    && chunks_eq a.chunks b.chunks

-- `serde_ipld_dagcbor` at the types of the crate, `fastcdc` and `blake3`. What is written reads back.
pub record Formats : Type 0 where
  pub entry_to_vec : FileEntry → Option Bytes
  pub entry_from_slice : Bytes → Option FileEntry
  pub manifest_to_vec : FsManifest → Option Bytes
  pub manifest_from_slice : Bytes → Option FsManifest
  pub cut : Bytes → List Bytes
  pub blake3 : Bytes → Bytes
  pub entry_from_slice-to_vec :
      (e : FileEntry) (bytes : Bytes)
      → entry_to_vec e ≡ some bytes
      → entry_from_slice bytes ≡ some e
  pub manifest_from_slice-to_vec :
      (m : FsManifest) (bytes : Bytes)
      → manifest_to_vec m ≡ some bytes
      → manifest_from_slice bytes ≡ some m

unfoldable pub check_kind : FsManifest → Result SyncError FsManifest
check_kind m = if str_eq m.kind fs_manifest_kind then ok m else err (wrong_kind m.kind)

module _ ⦃formats : Formats⦄ where
  open formats use {manifest_to_vec, manifest_from_slice}

  -- The canonical codec, `DagCbor`.
  unfoldable pub encode_manifest : FsManifest → Result SyncError Bytes
  encode_manifest m = elim (manifest_to_vec m) [
    | none ↦ err (encode "manifest")
    | some bytes ↦ ok bytes
  ]

  unfoldable pub decode_manifest : Bytes → Result SyncError FsManifest
  decode_manifest bytes = elim (manifest_from_slice bytes) [
    | none ↦ err (decode "manifest")
    | some m ↦ check_kind m
  ]

module _ ⦃p : Primitives⦄ where
  unfoldable pub digest_hex : Bytes → String
  digest_hex bytes = to_hex (p.sha256 bytes)

module _ ⦃p : Primitives⦄ ⦃formats : Formats⦄ where
  unfoldable pub content_id : FsManifest → Result SyncError String
  unfolding encode_manifest digest_hex
  content_id m = encode_manifest m >>= λ bytes. ok (digest_hex bytes)

  -- One chunk beside its bytes, where the code keeps the range of the bytes in the file.
  unfoldable pub chunk_file : Bytes → List (ChunkRef × Bytes)
  chunk_file [] = []
  chunk_file (b ∷ bytes) =
      map
        (λ piece. (
          record { sha256 = p.sha256 piece; blake3 = formats.blake3 piece; len = length piece },
          piece,
        ))
        (formats.cut (b ∷ bytes))
