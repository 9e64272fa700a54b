-- ===== src/Examples/Trees.antt =====
-- Stand-ins for the CBOR crate, the cutter and blake3: numbers behind their counts, for two paths.
use ciss.Prelude.{
  ℕ, zero, suc, ◌≡◌, refl, ap, ◌∙◌, sym, String, Option, none, some, List, [], ◌∷◌, ◌++◌, length,
  str_eq, str_eq→eq, if◌then◌else◌, arith, Bool-cases, Option-cases, inl, inr, subst,
}
use ciss.Prelude.Int.{ℤ, pos, negsuc}
use ciss.Prelude.Map.{Map}
use ciss.Crypto.{Bytes}
use ciss.Sync.Tree.{ChunkRef, FileEntry, FsManifest, Formats, fs_manifest_kind}
use ciss.Examples.Toy.{checksum}

abbrev pub Read : Type 0 → Type 0
Read A = Option (A × Bytes)

abbrev then_read : {A B : Type 0} → Read A → (A → Bytes → Read B) → Read B
then_read none next = none
then_read (some (a, rest)) next = next a rest

abbrev take : ℕ → Bytes → Read Bytes
take zero bytes = some ([], bytes)
take (suc n) [] = none
take (suc n) (b ∷ bytes) = then_read (take n bytes) (λ xs rest. some (b ∷ xs, rest))

take-append : (xs rest : Bytes) → take (length xs) (xs ++ rest) ≡ some (xs, rest)
take-append [] rest = refl
take-append (x ∷ xs) rest = rw (take-append xs rest) refl

abbrev put_bytes : Bytes → Bytes → Bytes
put_bytes xs rest = length xs ∷ (xs ++ rest)

abbrev read_bytes : Bytes → Read Bytes
read_bytes [] = none
read_bytes (n ∷ bytes) = take n bytes

abbrev read_number : Bytes → Read ℕ
read_number [] = none
read_number (n ∷ bytes) = some (n, bytes)

abbrev put_chunk : ChunkRef → Bytes → Bytes
put_chunk c rest = put_bytes c.sha256 (put_bytes c.blake3 (c.len ∷ rest))

abbrev read_chunk : Bytes → Read ChunkRef
read_chunk bytes = then_read (read_bytes bytes) (λ s rest. then_read (read_bytes rest) (λ b rest'.
    then_read (read_number rest')
      (λ n rest2. some (record { sha256 = s; blake3 = b; len = n }, rest2))))

read_chunk-put : (c : ChunkRef) (rest : Bytes) → read_chunk (put_chunk c rest) ≡ some (c, rest)
read_chunk-put c rest =
    rw
      (
        take-append c.sha256 (put_bytes c.blake3 (c.len ∷ rest)),
        take-append c.blake3 (c.len ∷ rest),
      )
      refl

abbrev put_chunks : List ChunkRef → Bytes → Bytes
put_chunks [] rest = rest
put_chunks (c ∷ cs) rest = put_chunk c (put_chunks cs rest)

abbrev read_chunks : ℕ → Bytes → Read (List ChunkRef)
read_chunks zero bytes = some ([], bytes)
read_chunks (suc n) bytes =
    then_read (read_chunk bytes)
      (λ c rest. then_read (read_chunks n rest) (λ cs rest'. some (c ∷ cs, rest')))

read_chunks-put :
    (cs : List ChunkRef) (rest : Bytes)
    → read_chunks (length cs) (put_chunks cs rest) ≡ some (cs, rest)
read_chunks-put [] rest = refl
read_chunks-put (c ∷ cs) rest =
    rw (read_chunk-put c (put_chunks cs rest), read_chunks-put cs rest) refl

abbrev put_time : ℤ → Bytes → Bytes
put_time (pos n) rest = 0 ∷ n ∷ rest
put_time (negsuc n) rest = 1 ∷ n ∷ rest

abbrev read_time : Bytes → Read ℤ
read_time (zero ∷ n ∷ rest) = some (pos n, rest)
read_time (suc _ ∷ n ∷ rest) = some (negsuc n, rest)
read_time _ = none

read_time-put : (t : ℤ) (rest : Bytes) → read_time (put_time t rest) ≡ some (t, rest)
read_time-put (pos n) rest = refl
read_time-put (negsuc n) rest = refl

abbrev put_entry : FileEntry → Bytes → Bytes
put_entry e rest =
    e.mode
    ∷ put_time e.mtime_secs (e.mtime_nanos ∷ e.size ∷ length e.chunks ∷ put_chunks e.chunks rest)

abbrev read_entry : Bytes → Read FileEntry
read_entry bytes = then_read (read_number bytes) (λ mode r1. then_read (read_time r1) (λ secs r2.
    then_read (read_number r2) (λ nanos r3. then_read (read_number r3) (λ size r4.
      then_read (read_number r4) (λ count r5. then_read (read_chunks count r5) (λ chunks r6. some (
        record {
          mode = mode;
          mtime_secs = secs;
          mtime_nanos = nanos;
          size = size;
          chunks = chunks;
        },
        r6,
      )))))))

read_entry-put : (e : FileEntry) (rest : Bytes) → read_entry (put_entry e rest) ≡ some (e, rest)
read_entry-put e rest =
    rw
      (
        read_time-put e.mtime_secs
            (e.mtime_nanos ∷ e.size ∷ length e.chunks ∷ put_chunks e.chunks rest),
        read_chunks-put e.chunks rest,
      )
      refl

-- The two paths.
abbrev path_code : String → Option ℕ
path_code s = if str_eq s "a.txt" then some 0 else if str_eq s "b.txt" then some 1 else none

abbrev path_of : ℕ → String
path_of zero = "a.txt"
path_of (suc _) = "b.txt"

path_of-code : (s : String) (n : ℕ) → path_code s ≡ some n → path_of n ≡ s
path_of-code s zero h = elim (Bool-cases (str_eq s "a.txt")) [
  | inl a ↦ sym (str_eq→eq s "a.txt" a)
  | inr other ↦ absurd (ground (arith, other, h))
]
path_of-code s (suc n) h = elim (Bool-cases (str_eq s "b.txt")) [
  | inl b ↦ sym (str_eq→eq s "b.txt" b)
  | inr other ↦ absurd (ground (arith, other, h))
]

abbrev put_entries : Map FileEntry → Option Bytes
put_entries [] = some []
put_entries ((path, e) ∷ entries) = elim (path_code path) [
  | none ↦ none
  | some n ↦ elim (put_entries entries) [ none ↦ none | some rest ↦ some (n ∷ put_entry e rest) ]
]

abbrev prepend : String × FileEntry → Option (Map FileEntry) → Option (Map FileEntry)
prepend e none = none
prepend e (some entries) = some (e ∷ entries)

abbrev next_entry : ℕ → Read FileEntry → (Bytes → Option (Map FileEntry)) → Option (Map FileEntry)
next_entry code none more = none
next_entry code (some (e, rest)) more = prepend (path_of code, e) (more rest)

abbrev read_entries : ℕ → Bytes → Option (Map FileEntry)
read_entries zero bytes = some []
read_entries (suc n) [] = none
read_entries (suc n) (code ∷ bytes) = next_entry code (read_entry bytes) (read_entries n)

read_entries-put :
    (entries : Map FileEntry) (bytes : Bytes)
    → put_entries entries ≡ some bytes
    → read_entries (length entries) bytes ≡ some entries
read_entries-put [] bytes h = refl
read_entries-put ((path, e) ∷ entries) bytes h = elim (Option-cases (path_code path)) [
  | inl unknown ↦ absurd (ground (arith, unknown, h))
  | inr (n, known) ↦ elim (Option-cases (put_entries entries)) [
    | inl failed ↦ absurd (ground (arith, known, failed, h))
    | inr (rest, written) ↦
        let same : n ∷ put_entry e rest ≡ bytes = ground (arith, known, written, h) in
        subst (λ b. read_entries (suc (length entries)) b ≡ some ((path, e) ∷ entries)) same
          (ap (λ r. next_entry n r (read_entries (length entries))) (read_entry-put e rest)
            ∙ ap (prepend (path_of n, e)) (read_entries-put entries rest written)
            ∙ ap (λ s. some ((s, e) ∷ entries)) (path_of-code path n known))
  ]
]

abbrev put_manifest : FsManifest → Option Bytes
put_manifest m =
    if str_eq m.kind fs_manifest_kind
    then elim (put_entries m.entries) [ none ↦ none | some bytes ↦ some (length m.entries ∷ bytes) ]
    else none

abbrev kinded : Option (Map FileEntry) → Option FsManifest
kinded none = none
kinded (some entries) = some (record { kind = fs_manifest_kind; entries = entries })

abbrev read_manifest : Bytes → Option FsManifest
read_manifest [] = none
read_manifest (n ∷ bytes) = kinded (read_entries n bytes)

pub read_manifest-put :
    (m : FsManifest) (bytes : Bytes) → put_manifest m ≡ some bytes → read_manifest bytes ≡ some m
read_manifest-put m bytes h = elim (Bool-cases (str_eq m.kind fs_manifest_kind)) [
  | inr other ↦ absurd (ground (arith, other, h))
  | inl kind ↦ elim (Option-cases (put_entries m.entries)) [
    | inl failed ↦ absurd (ground (arith, kind, failed, h))
    | inr (rest, written) ↦
        let same : length m.entries ∷ rest ≡ bytes = ground (arith, kind, written, h) in
        subst (λ b. read_manifest b ≡ some m) same
          (ap kinded (read_entries-put m.entries rest written)
            ∙ ap (λ k. some (record { kind = k; entries = m.entries }))
                (sym (str_eq→eq m.kind fs_manifest_kind kind)))
  ]
]

abbrev read_whole : Read FileEntry → Option FileEntry
read_whole none = none
read_whole (some (e, rest)) = some e

pub read_whole-put :
    (e : FileEntry) (bytes : Bytes)
    → some (put_entry e []) ≡ some bytes
    → read_whole (read_entry bytes) ≡ some e
read_whole-put e bytes h =
    let same : put_entry e [] ≡ bytes = ground (arith, h) in
    subst (λ b. read_whole (read_entry b) ≡ some e) same (ap read_whole (read_entry-put e []))

-- Pieces of two bytes.
abbrev pairs : Bytes → List Bytes
pairs [] = []
pairs (a ∷ []) = (a ∷ []) ∷ []
pairs (a ∷ b ∷ rest) = (a ∷ b ∷ []) ∷ pairs rest

abbrev pub toy_formats : Formats
toy_formats = record {
  entry_to_vec = λ e. some (put_entry e []);
  entry_from_slice = λ b. read_whole (read_entry b);
  manifest_to_vec = put_manifest;
  manifest_from_slice = read_manifest;
  cut = pairs;
  blake3 = λ b. checksum 3 b ∷ [];
  entry_from_slice-to_vec = read_whole-put;
  manifest_from_slice-to_vec = read_manifest-put;
}
