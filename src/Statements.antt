-- ===== src/Statements.antt =====
-- src/statements.rs: bytes at rest over time, and the hash-linked statements that close periods.
pub mod Rent
pub mod Verify
use ciss.Prelude.{
  ℕ, zero, suc, ◌+◌, ◌-◌, ◌≤◌, String, ◌≡◌, Bool, true, false, not, Option, none, some, List, [],
  ◌∷◌, leb, ◌==◌, str_eq, if◌then◌else◌, length, retain,
}
use ciss.Prelude.Int.{ℤ}
use ciss.Crypto.{Primitives, sha256_hex}
use ciss.Receipts.{Receipt, Canonical}

abbrev pub genesis_statement : String
genesis_statement = "0000000000000000000000000000000000000000000000000000000000000000"

-- The points in day order, each a day and the total from that day on.
abbrev pub RentTimeline : Type 0
RentTimeline = List (ℕ × ℕ)

unfoldable pub set_bytes_at_rest : RentTimeline → ℕ → ℕ → RentTimeline
set_bytes_at_rest [] day total = (day, total) ∷ []
set_bytes_at_rest ((d, t) ∷ []) day total =
    if d == day then (d, total) ∷ [] else (d, t) ∷ (day, total) ∷ []
set_bytes_at_rest ((d, t) ∷ q ∷ rest) day total = (d, t) ∷ set_bytes_at_rest (q ∷ rest) day total

-- The loop of `bytes_at_rest_on`, with its `break` at the first later point.
at_rest_from : ℕ → RentTimeline → ℕ → ℕ
at_rest_from current [] day = current
at_rest_from current ((d, total) ∷ rest) day =
    let next = at_rest_from total rest day in if leb d day then next else current

unfoldable pub bytes_at_rest_on : RentTimeline → ℕ → ℕ
unfolding at_rest_from
bytes_at_rest_on points day = at_rest_from 0 points day

-- The sum over `count` days from `start`.
sum_days : RentTimeline → ℕ → ℕ → ℕ
sum_days points start zero = 0
sum_days points start (suc count) =
    bytes_at_rest_on points start + sum_days points (start + 1) count

unfoldable pub byte_days : RentTimeline → ℕ → ℕ → ℕ
unfolding sum_days
byte_days points start end = sum_days points start (end - start)

pub record StatementBody : Type 0 where
  pub period : ℕ
  pub period_start_day : ℕ
  pub period_end_day : ℕ
  pub opening_root : String
  pub closing_root : String
  pub byte_days : ℕ
  pub rent_cents : ℕ
  pub postage_bytes : ℕ
  pub postage_cents : ℕ
  pub audit_count : ℕ
  pub audit_bytes : ℕ
  pub audit_cents : ℕ
  pub audit_tier : String
  pub grace_cents : ℤ
  pub fees_cents : ℕ
  pub total_cents : ℕ
  pub prev_statement_hash : String

pub record Statement : Type 0 where
  pub body : StatementBody
  pub hash : String

pub data ChainResult : Type 0 where
  verified : ChainResult
  failed : ℕ → String → ChainResult

abbrev pub is_ok : ChainResult → Bool
is_ok verified = true
is_ok (failed _ _) = false

abbrev pub failed_at : ChainResult → Option ℕ
failed_at verified = none
failed_at (failed at _) = some at

module _ ⦃p : Primitives⦄ ⦃c : Canonical StatementBody⦄ where
  unfoldable pub body_hash : StatementBody → String
  body_hash body = sha256_hex (c.to_canonical_bytes body)

  unfoldable pub build_statement : StatementBody → Statement
  build_statement body = record { body = body; hash = body_hash body }

  -- The loop of `verify_chain` at position `i`, with the hash that the next statement must name.
  unfoldable pub verify_from : ℕ → String → List Statement → ChainResult
  verify_from i expected_prev [] = verified
  verify_from i expected_prev (s ∷ rest) =
      let tail = verify_from (i + 1) s.hash rest in
      if not (str_eq s.body.prev_statement_hash expected_prev)
      then failed i "prev_statement_hash breaks the chain"
      else if not (str_eq (body_hash s.body) s.hash)
      then failed i "statement body edited (hash mismatch)"
      else if not (s.body.period == i)
      then failed i "period number out of sequence"
      else tail

  unfoldable pub verify_chain : List Statement → ChainResult
  verify_chain statements = verify_from 0 genesis_statement statements

-- The receipts kept, and how many were dropped.
unfoldable pub purge_receipts_settled_through : List Receipt → ℕ → List Receipt × ℕ
purge_receipts_settled_through receipts settled_through_day =
    let kept = retain (λ r. leb settled_through_day r.core.day) receipts in
    (kept, length receipts - length kept)
