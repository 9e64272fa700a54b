-- ===== src/Store/Chains/Rows.antt =====
-- The queries of the table `chain_entry` after a row with a sequence number above the others.
use ciss.Prelude.{
  ℕ, ◌≤◌, ◌<◌, ◌≡◌, refl, ◌∙◌, ap, inl, inr, Bool, true, false, none, some, List, [], ◌∷◌, ◌++◌,
  arith, retain, All, Bool-cases, Option-cases,
}
use ciss.Store.{ChainRow}
use ciss.Store.Chains.{of_chain, latest_row, insert_row, sort_rows, key_taken}

-- Every row that passes the test has a sequence number of at most `n`.
abbrev pub Below : (ChainRow → Bool) → ℕ → List ChainRow → Type 0
Below test n rows = All (λ (row : ChainRow). test row ≡ true → row.seq ≤ n) rows

pub Below-mono :
    (test : ChainRow → Bool) (m n : ℕ) (rows : List ChainRow)
    → m ≤ n
    → Below test m rows
    → Below test n rows
Below-mono test m n [] le b = tt
Below-mono test m n (row ∷ rows) le (b, bs) =
    ((λ t. omega (arith, b t)), Below-mono test m n rows le bs)

pub Below-weaken :
    (test other : ChainRow → Bool) (n : ℕ) (rows : List ChainRow)
    → ((row : ChainRow) → other row ≡ true → test row ≡ true)
    → Below test n rows
    → Below other n rows
Below-weaken test other n [] imp b = tt
Below-weaken test other n (row ∷ rows) imp (b, bs) =
    ((λ t. b (imp row t)), Below-weaken test other n rows imp bs)

pub latest_row-none :
    (test : ChainRow → Bool) (n : ℕ) (rows : List ChainRow)
    → latest_row test rows ≡ none
    → Below test n rows
unfolding latest_row
latest_row-none test n [] h = tt
latest_row-none test n (row ∷ rows) h = elim (Option-cases (latest_row test rows)) [
  | inl absent ↦ ((λ t. ground arith), latest_row-none test n rows absent)
  | inr (c, later) ↦ elim (Bool-cases (test row)) [ inl t ↦ ground arith | inr f ↦ ground arith ]
]

pub latest_row-some :
    (test : ChainRow → Bool) (b : ChainRow) (rows : List ChainRow)
    → latest_row test rows ≡ some b
    → Below test b.seq rows
unfolding latest_row
latest_row-some test b [] h = tt
latest_row-some test b (row ∷ rows) h = elim (Option-cases (latest_row test rows)) [
  | inl absent ↦ ((λ t. ground arith), latest_row-none test b.seq rows absent)
  | inr (c, later) ↦ (
    (λ t. ground arith),
    Below-mono test c.seq b.seq rows (ground arith) (latest_row-some test c rows later),
  )
]

pub latest_row-append :
    (test : ChainRow → Bool) (new : ChainRow) (rows : List ChainRow)
    → test new ≡ true
    → Below test new.seq rows
    → latest_row test (rows ++ new ∷ []) ≡ some new
unfolding latest_row
latest_row-append test new [] t b = ground arith
latest_row-append test new (row ∷ rows) t (b, bs) =
    ground (arith, latest_row-append test new rows t bs)

pub latest_row-append_other :
    (test : ChainRow → Bool) (new : ChainRow) (rows : List ChainRow)
    → test new ≡ false
    → latest_row test (rows ++ new ∷ []) ≡ latest_row test rows
unfolding latest_row
latest_row-append_other test new [] t = ground arith
latest_row-append_other test new (row ∷ rows) t =
    ground (arith, latest_row-append_other test new rows t)

insert_row-append :
    (row new : ChainRow) (rows : List ChainRow)
    → row.seq ≤ new.seq
    → insert_row row (rows ++ new ∷ []) ≡ insert_row row rows ++ new ∷ []
unfolding insert_row
insert_row-append row new [] le = ground arith
insert_row-append row new (r ∷ rows) le = ground (arith, insert_row-append row new rows le)

-- A row above the others that pass the test comes last in the order of sequence numbers.
pub sort_rows-append :
    (test : ChainRow → Bool) (new : ChainRow) (rows : List ChainRow)
    → test new ≡ true
    → Below test new.seq rows
    → sort_rows (retain test (rows ++ new ∷ [])) ≡ sort_rows (retain test rows) ++ new ∷ []
unfolding sort_rows insert_row
sort_rows-append test new [] t b = ground arith
sort_rows-append test new (row ∷ rows) t (b, bs) = elim (Bool-cases (test row)) [
  | inl is ↦ rw is (
      ap (insert_row row) (sort_rows-append test new rows t bs)
      ∙ insert_row-append row new (sort_rows (retain test rows)) (b is))
  | inr isnt ↦ rw isnt (sort_rows-append test new rows t bs)
]

pub key_taken-above :
    (new : ChainRow) (rows : List ChainRow) (n : ℕ)
    → n < new.seq
    → Below (of_chain new.did new.kind new.subkey) n rows
    → key_taken new rows ≡ false
key_taken-above new [] n lt b = refl
key_taken-above new (row ∷ rows) n lt (b, bs) = ground (arith, key_taken-above new rows n lt bs)
