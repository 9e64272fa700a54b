-- ===== src/Sync/Frontier/Closure.antt =====
-- crates/ciss-sync/src/frontier.rs: leaves only grow, and get every blob that they are told.
use ciss.Prelude.{
  ℕ, String, ◌≡◌, refl, subst, Bool, true, Option, none, some, List, [], ◌∷◌, all, length, Result,
  ok, ◌>>=◌, >>=-eq-ok, ok-injective, inl, inr, arith, Bool-cases, str_eq_refl,
}
use ciss.Prelude.Map
use ciss.Prelude.Map.{Map, contains_key-insert, get-insert}
use ciss.Sync.{SyncError}
use ciss.Sync.Tree.{ChunkRef, FileEntry, chunk_cid}
use ciss.Sync.Frontier.{Fetch, add_chunks, add_entries, add_base}

-- Every leaf of the first map is one of the second.
abbrev pub Keeps : Map ℕ → Map ℕ → Type 0
Keeps m n = (k : String) → Map.contains_key k m ≡ true → Map.contains_key k n ≡ true

pub insert-Keeps : (k : String) (v : ℕ) (m : Map ℕ) → Keeps m (Map.insert k v m)
insert-Keeps k v m j has = ground (arith, contains_key-insert k j v m)

pub insert-has : (k : String) (v : ℕ) (m : Map ℕ) → Map.contains_key k (Map.insert k v m) ≡ true
insert-has k v m = ground (arith, contains_key-insert k k v m, str_eq_refl k)

add_chunks-Keeps : (chunks : List ChunkRef) (m : Map ℕ) → Keeps m (add_chunks chunks m)
unfolding add_chunks
add_chunks-Keeps [] m j has = has
add_chunks-Keeps (c ∷ chunks) m j has =
    add_chunks-Keeps chunks (Map.insert (chunk_cid c) c.len m) j
      (insert-Keeps (chunk_cid c) c.len m j has)

pub add_entries-Keeps : (entries : Map FileEntry) (m : Map ℕ) → Keeps m (add_entries entries m)
unfolding add_entries
add_entries-Keeps [] m j has = has
add_entries-Keeps ((_, e) ∷ entries) m j has =
    add_entries-Keeps entries (add_chunks e.chunks m) j (add_chunks-Keeps e.chunks m j has)

-- Whether the leaves have every chunk of a file, and of a tree.
abbrev pub chunks_in : Map ℕ → List ChunkRef → Bool
chunks_in m chunks = all (λ (c : ChunkRef). Map.contains_key (chunk_cid c) m) chunks

abbrev pub entries_in : Map ℕ → Map FileEntry → Bool
entries_in m entries = all (λ (e : String × FileEntry). chunks_in m e.1.chunks) entries

abbrev pub base_in : Map ℕ → Option String → Bool
base_in m none = true
base_in m (some base) = Map.contains_key base m

module _ {A : Type 0} (test test' : A → Bool)
    (weaker : (x : A) → test x ≡ true → test' x ≡ true) where
  all-weaker : (xs : List A) → all test xs ≡ true → all test' xs ≡ true
  all-weaker [] h = h
  all-weaker (x ∷ xs) h = ground (arith, weaker x, all-weaker xs)

chunks_in-Keeps :
    (m n : Map ℕ) (chunks : List ChunkRef)
    → Keeps m n
    → chunks_in m chunks ≡ true
    → chunks_in n chunks ≡ true
chunks_in-Keeps m n chunks keeps h =
    all-weaker (λ c. Map.contains_key (chunk_cid c) m) (λ c. Map.contains_key (chunk_cid c) n)
      (λ c. keeps (chunk_cid c)) chunks h

pub entries_in-Keeps :
    (m n : Map ℕ) (entries : Map FileEntry)
    → Keeps m n
    → entries_in m entries ≡ true
    → entries_in n entries ≡ true
entries_in-Keeps m n entries keeps h =
    all-weaker (λ e. chunks_in m e.1.chunks) (λ e. chunks_in n e.1.chunks)
      (λ e. chunks_in-Keeps m n e.1.chunks keeps) entries h

pub base_in-Keeps :
    (m n : Map ℕ) (base : Option String) → Keeps m n → base_in m base ≡ true → base_in n base ≡ true
base_in-Keeps m n none keeps h = h
base_in-Keeps m n (some base) keeps h = keeps base h

add_chunks-in : (chunks : List ChunkRef) (m : Map ℕ) → chunks_in (add_chunks chunks m) chunks ≡ true
unfolding add_chunks
add_chunks-in [] m = refl
add_chunks-in (c ∷ chunks) m =
    let m' = Map.insert (chunk_cid c) c.len m in
    ground (
      arith,
      add_chunks-Keeps chunks m' (chunk_cid c) (insert-has (chunk_cid c) c.len m),
      add_chunks-in chunks m',
    )

pub add_entries-in :
    (entries : Map FileEntry) (m : Map ℕ) → entries_in (add_entries entries m) entries ≡ true
unfolding add_entries
add_entries-in [] m = refl
add_entries-in ((k, e) ∷ entries) m =
    let m' = add_chunks e.chunks m in
    ground (
      arith,
      chunks_in-Keeps m' (add_entries entries m') e.chunks (add_entries-Keeps entries m')
          (add_chunks-in e.chunks m),
      add_entries-in entries m',
    )

pub add_base-in :
    (fetch : Fetch) (base : Option String) (m n : Map ℕ)
    → add_base fetch base m ≡ ok n
    → Keeps m n × (base_in n base ≡ true)
unfolding add_base
add_base-in fetch none m n h =
    (λ k has. subst (λ x. Map.contains_key k x ≡ true) (ok-injective h) has, refl)
add_base-in fetch (some base) m n h = elim (Bool-cases (Map.contains_key base m)) [
  | inl there ↦
      let done : ◌≡◌ {A = Result SyncError (Map ℕ)} (ok m) (ok n) = ground arith in
      let same : m ≡ n = ok-injective done in
      (
        λ k has. subst (λ x. Map.contains_key k x ≡ true) same has,
        subst (λ x. Map.contains_key base x ≡ true) same there,
      )
  | inr new ↦
      let grown : (fetch base >>= λ bytes. ok (Map.insert base (length bytes) m)) ≡ ok n =
        ground arith in
      let (bytes, _, h1) =
        >>=-eq-ok (fetch base) (λ bytes. ok (Map.insert base (length bytes) m)) grown in
      let same : Map.insert base (length bytes) m ≡ n = ok-injective h1 in
      (
        λ k has.
            subst (λ x. Map.contains_key k x ≡ true) same
              (insert-Keeps base (length bytes) m k has),
        subst (λ x. Map.contains_key base x ≡ true) same (insert-has base (length bytes) m),
      )
]
