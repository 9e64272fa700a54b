-- ===== src/Sync/Spend/Periods.antt =====
-- crates/ciss-sync/src/ledger.rs: the bytes of a period, and its ceiling.
use ciss.Prelude.{
  ℕ, ◌+◌, ◌≤◌, ◌≡◌, refl, sym, ap, ◌∙◌, subst, some, List, [], refuse_if, ◌&&◌, ◌∷◌, ◌++◌, ltb,
  ◌==◌, ==_refl, if◌then◌else◌, sum_by, retain, ok, >>=-eq-ok, ok-injective, arith,
}
use ciss.Sync.{ceiling_deferred}
use ciss.Pricing.{postage_cents}
use ciss.Sync.Spend.{
  check, spent_cents, ceiling_cents, SpendLedger, SpendRow, config_get_u64, current_period,
  record_bytes, spent_bytes_in, spent_bytes,
}

-- The ledger behind a recorded transfer.
abbrev pub recorded : SpendLedger → ℕ → ℕ → ℕ → SpendLedger
recorded l ts bytes period = record l {
  spend = l.spend ++ record { ts = ts; bytes = bytes; period_seq = period } ∷ [];
}

pub record_bytes_eq :
    (l : SpendLedger) (ts bytes period : ℕ)
    → current_period l ≡ ok period
    → record_bytes l ts bytes ≡ ok (recorded l ts bytes period)
unfolding record_bytes
record_bytes_eq l ts bytes period p = rw p refl

spend-recorded :
    (rows : List SpendRow) (row : SpendRow) (q : ℕ)
    → sum_by
        (λ (r : SpendRow). r.bytes)
        (retain (λ (r : SpendRow). r.period_seq == q) (rows ++ row ∷ []))
      ≡ sum_by (λ (r : SpendRow). r.bytes) (retain (λ (r : SpendRow). r.period_seq == q) rows)
        + (if row.period_seq == q then row.bytes else 0)
spend-recorded [] row q = ground arith
spend-recorded (r ∷ rows) row q = ground (arith, spend-recorded rows row q)

-- A transfer counts in its period, and in no other.
pub spent_bytes_in-recorded_at :
    (l : SpendLedger) (ts bytes period q : ℕ)
    → spent_bytes_in (recorded l ts bytes period) q
      ≡ spent_bytes_in l q + (if period == q then bytes else 0)
unfolding spent_bytes_in
spent_bytes_in-recorded_at l ts bytes period q =
    spend-recorded l.spend (record { ts = ts; bytes = bytes; period_seq = period }) q

pub spent_bytes_in-recorded :
    (l : SpendLedger) (ts bytes period : ℕ)
    → spent_bytes_in (recorded l ts bytes period) period ≡ spent_bytes_in l period + bytes
spent_bytes_in-recorded l ts bytes period =
    ground (arith, spent_bytes_in-recorded_at l ts bytes period period, ==_refl period)

check_eq :
    (l : SpendLedger) (want ceiling bytes : ℕ)
    → ceiling_cents l ≡ ok (some ceiling)
    → spent_bytes l ≡ ok bytes
    → check l want
      ≡ refuse_if
          (ltb ceiling (postage_cents (bytes + want))
            && ltb (postage_cents bytes) (postage_cents (bytes + want)))
          (ceiling_deferred l.scope (postage_cents (bytes + want)) (postage_cents bytes) ceiling)
unfolding check
check_eq l want ceiling bytes c b = rw (c, b) refl

-- A transfer that the ceiling let pass keeps the period within it: when the cents spent were at most
-- the ceiling, the check passed and the bytes were then recorded, the cents spent are at most the
-- ceiling still, which has not moved.
pub check-record_bytes :
    (l l' : SpendLedger) (ts want spent ceiling : ℕ)
    → ceiling_cents l ≡ ok (some ceiling)
    → spent_cents l ≡ ok spent
    → spent ≤ ceiling
    → check l want ≡ ok tt
    → record_bytes l ts want ≡ ok l'
    → (n : ℕ) × (spent_cents l' ≡ ok n) × (n ≤ ceiling) × (ceiling_cents l' ≡ ok (some ceiling))
unfolding spent_cents spent_bytes ceiling_cents current_period config_get_u64 check
check-record_bytes l l' ts want spent ceiling c s le passed done =
    let (bytes, counted, is_spent) =
      >>=-eq-ok (spent_bytes l) (λ bytes. ok (postage_cents bytes)) s in
    let (period, p, is_bytes) =
      >>=-eq-ok (current_period l) (λ period. ok (spent_bytes_in l period)) counted in
    let here : recorded l ts want period ≡ l' =
      ok-injective (sym (record_bytes_eq l ts want period p) ∙ done) in
    let total : spent_bytes_in (recorded l ts want period) period ≡ bytes + want =
      spent_bytes_in-recorded l ts want period ∙ ap (λ n. n + want) (ok-injective is_bytes) in
    let gate : refuse_if
          (ltb ceiling (postage_cents (bytes + want))
            && ltb (postage_cents bytes) (postage_cents (bytes + want)))
          (ceiling_deferred l.scope (postage_cents (bytes + want)) (postage_cents bytes) ceiling)
        ≡ ok tt =
      sym (check_eq l want ceiling bytes c counted) ∙ passed in
    let cost : postage_cents bytes ≡ spent = ok-injective is_spent in
    subst
      (λ x.
        (n : ℕ) × (spent_cents x ≡ ok n) × (n ≤ ceiling) × (ceiling_cents x ≡ ok (some ceiling)))
      here (postage_cents (bytes + want), rw (p, total) refl, ground (arith, cost), c)
