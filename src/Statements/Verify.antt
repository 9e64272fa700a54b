-- ===== src/Statements/Verify.antt =====
-- What the verification of a chain of statements accepts, and where it stops.
use ciss.Prelude.{
  ℕ, ◌+◌, ◌≤◌, String, ◌≡◌, ◌≢◌, ◌↔◌, some, List, [], ◌∷◌, ◌++◌, arith, eq_iff, str_eq_refl, length,
  refl, ap, leb, retain, sum_by, length-retain, ◌&&◌, if◌then◌else◌, ltb,
}
use ciss.Crypto.{Primitives}
use ciss.Receipts.{Receipt, Canonical}
use ciss.Statements.{
  StatementBody, Statement, verified, failed_at, genesis_statement, body_hash, build_statement,
  verify_from, verify_chain, purge_receipts_settled_through,
}

module _ ⦃p : Primitives⦄ ⦃c : Canonical StatementBody⦄ where
  -- Each statement names the hash before it, hashes to its own, and is numbered by its position.
  abbrev pub Links : ℕ → String → List Statement → Type 0
  Links i prev [] = Unit
  Links i prev (s ∷ rest) =
      (s.body.prev_statement_hash ≡ prev)
      × (body_hash s.body ≡ s.hash)
      × (s.body.period ≡ i)
      × Links (i + 1) s.hash rest

  verify_from_sound :
      (i : ℕ) (prev : String) (ss : List Statement)
      → verify_from i prev ss ≡ verified
      → Links i prev ss
  unfolding verify_from
  verify_from_sound i prev [] h = tt
  verify_from_sound i prev (s ∷ ss) h = ground (
    arith,
    eq_iff s.body.prev_statement_hash prev,
    eq_iff (body_hash s.body) s.hash,
    verify_from_sound (i + 1) s.hash ss,
  )

  verify_from_complete :
      (i : ℕ) (prev : String) (ss : List Statement)
      → Links i prev ss
      → verify_from i prev ss ≡ verified
  unfolding verify_from
  verify_from_complete i prev [] h = refl
  verify_from_complete i prev (s ∷ ss) h = ground (
    arith,
    eq_iff s.body.prev_statement_hash prev,
    eq_iff (body_hash s.body) s.hash,
    verify_from_complete (i + 1) s.hash ss h.3,
  )

  -- The chain verifies exactly when every statement links to the one before it, hashes to its own
  -- hash, and is numbered by its position.
  pub verify_chain_iff :
      (ss : List Statement) → (verify_chain ss ≡ verified) ↔ Links 0 genesis_statement ss
  unfolding verify_chain
  verify_chain_iff ss =
      (verify_from_sound 0 genesis_statement ss, verify_from_complete 0 genesis_statement ss)

  -- The hash that the next statement has to name.
  abbrev pub chain_head : String → List Statement → String
  chain_head prev [] = prev
  chain_head prev (s ∷ rest) = chain_head s.hash rest

  Links-snoc :
      (i : ℕ) (prev : String) (ss : List Statement) (body : StatementBody)
      → Links i prev ss
      → body.prev_statement_hash ≡ chain_head prev ss
      → body.period ≡ i + length ss
      → Links i prev (ss ++ build_statement body ∷ [])
  unfolding build_statement
  Links-snoc i prev [] body h e n = (e, refl, omega arith, tt)
  Links-snoc i prev (s ∷ ss) body h e n =
      (h.0, h.1, h.2, Links-snoc (i + 1) s.hash ss body h.3 e (omega arith))

  -- Closing one more period on a chain that verifies, with the next number and the hash of the last
  -- statement, leaves a chain that verifies.
  pub verify_chain-build :
      (ss : List Statement) (body : StatementBody)
      → verify_chain ss ≡ verified
      → body.prev_statement_hash ≡ chain_head genesis_statement ss
      → body.period ≡ length ss
      → verify_chain (ss ++ build_statement body ∷ []) ≡ verified
  verify_chain-build ss body h e n =
      (verify_chain_iff _).1
        (Links-snoc 0 genesis_statement ss body ((verify_chain_iff ss).0 h) e (omega arith))

  edited_from :
      (i : ℕ) (prev : String) (before after : List Statement) (s : Statement) (body : StatementBody)
      → verify_from i prev (before ++ s ∷ after) ≡ verified
      → body_hash body ≢ s.hash
      → failed_at (verify_from i prev (before ++ record { body = body; hash = s.hash } ∷ after))
        ≡ some (i + length before)
  unfolding verify_from
  edited_from i prev [] after s body h ne = ground (arith, eq_iff (body_hash body) s.hash)
  edited_from i prev (b ∷ before) after s body h ne =
      ground (arith, edited_from (i + 1) b.hash before after s body)

  -- An edit of a historical statement that keeps its stored hash breaks the chain at exactly that
  -- statement, unless the edited body hashes to the same value.
  pub edit_breaks_chain :
      (before after : List Statement) (s : Statement) (body : StatementBody)
      → verify_chain (before ++ s ∷ after) ≡ verified
      → body_hash body ≢ s.hash
      → failed_at (verify_chain (before ++ record { body = body; hash = s.hash } ∷ after))
        ≡ some (length before)
  unfolding verify_chain
  edit_breaks_chain before after s body h ne =
      rw (edited_from 0 genesis_statement before after s body h ne) (ap some (omega arith))

  resealed_from :
      (i : ℕ) (prev : String) (before after : List Statement) (s t : Statement)
      (body : StatementBody)
      → verify_from i prev (before ++ s ∷ t ∷ after) ≡ verified
      → body.prev_statement_hash ≡ s.body.prev_statement_hash
      → body.period ≡ s.body.period
      → body_hash body ≢ s.hash
      → failed_at (verify_from i prev (before ++ build_statement body ∷ t ∷ after))
        ≡ some (i + length before + 1)
  unfolding verify_from build_statement
  resealed_from i prev [] after s t body h e n ne = ground (
    arith,
    eq_iff s.body.prev_statement_hash prev,
    eq_iff body.prev_statement_hash prev,
    eq_iff t.body.prev_statement_hash s.hash,
    eq_iff t.body.prev_statement_hash (body_hash body),
    str_eq_refl (body_hash body),
  )
  resealed_from i prev (b ∷ before) after s t body h e n ne =
      ground (arith, resealed_from (i + 1) b.hash before after s t body)

  -- An edited statement that is hashed anew, keeping its number and its link, breaks the chain at
  -- the statement behind it, unless the edited body hashes to the same value.
  pub reseal_breaks_next :
      (before after : List Statement) (s t : Statement) (body : StatementBody)
      → verify_chain (before ++ s ∷ t ∷ after) ≡ verified
      → body.prev_statement_hash ≡ s.body.prev_statement_hash
      → body.period ≡ s.body.period
      → body_hash body ≢ s.hash
      → failed_at (verify_chain (before ++ build_statement body ∷ t ∷ after))
        ≡ some (length before + 1)
  unfolding verify_chain
  reseal_breaks_next before after s t body h e n ne =
      rw (resealed_from 0 genesis_statement before after s t body h e n ne) (ap some (omega arith))

-- The bytes of the receipts whose day lies in a period.
abbrev pub bytes_in : ℕ → ℕ → List Receipt → ℕ
bytes_in start end =
    sum_by (λ r. if leb start r.core.day && ltb r.core.day end then r.core.bytes else 0)

retain-bytes_in :
    (rs : List Receipt) (settled start end : ℕ)
    → settled ≤ start
    → bytes_in start end (retain (λ r. leb settled r.core.day) rs) ≡ bytes_in start end rs
retain-bytes_in [] settled start end h = refl
retain-bytes_in (r ∷ rs) settled start end h = ground (arith, retain-bytes_in rs settled start end)

-- Purging the receipts of the settled days changes the postage base of no period that begins on or
-- after the settled day, and reports how many receipts it dropped.
pub purge_keeps_open_periods :
    (rs : List Receipt) (settled start end : ℕ)
    → settled ≤ start
    → let (kept, purged) = purge_receipts_settled_through rs settled in
      (bytes_in start end kept ≡ bytes_in start end rs) × (length kept + purged ≡ length rs)
unfolding purge_receipts_settled_through
purge_keeps_open_periods rs settled start end h = (
  retain-bytes_in rs settled start end h,
  omega (arith, length-retain (λ (r : Receipt). leb settled r.core.day) rs),
)
