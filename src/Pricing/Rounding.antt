-- ===== src/Pricing/Rounding.antt =====
-- What rounding down costs or saves the customer.
use native.Mathlib.Nat.{lt_of_mul-lt-mul_left}
use ciss.Prelude.{ℕ, ◌+◌, ◌*◌, ◌/◌, ◌≤◌, ◌<◌, ◌≡◌, arith}
use ciss.Pricing.{postage_cents, audit_cents, Tier, per_audit_cents, tier_cost, audits_for}

-- Cutting a transfer in two never raises its postage, and lowers it by at most a cent.
pub postage_cents-split :
    (a b : ℕ)
    → (postage_cents a + postage_cents b ≤ postage_cents (a + b))
      × (postage_cents (a + b) ≤ postage_cents a + postage_cents b + 1)
unfolding postage_cents
postage_cents-split a b = omega arith

-- A quotient is the whole number just below.
div_between : (n p : ℕ) → 0 < p → (p * (n / p) ≤ n) × (n < p * (n / p) + p)
div_between n p h = grind arith

-- A dial changed within a period: the audits of the two legs add up to those of the whole, give or
-- take one.
pub audits_for-split :
    (rate d₁ d₂ period : ℕ)
    → 0 < period
    → (audits_for rate (d₁ + d₂) period ≤ audits_for rate d₁ period + audits_for rate d₂ period + 1)
      × (audits_for rate d₁ period + audits_for rate d₂ period
          ≤ audits_for rate (d₁ + d₂) period + 1)
unfolding audits_for
audits_for-split rate d₁ d₂ period h =
    let u = rate * d₁ in
    let v = rate * d₂ in
    let a = div_between (u + period / 2) period h in
    let b = div_between (v + period / 2) period h in
    let c = div_between (rate * (d₁ + d₂) + period / 2) period h in
    (
      omega (
        arith,
        lt_of_mul-lt-mul_left period {m = audits_for rate (d₁ + d₂) period}
            {n = audits_for rate d₁ period + audits_for rate d₂ period + 2} (omega arith),
      ),
      omega (
        arith,
        lt_of_mul-lt-mul_left period {m = audits_for rate d₁ period + audits_for rate d₂ period}
            {n = audits_for rate (d₁ + d₂) period + 2} (omega arith),
      ),
    )

-- An assurance tier is priced linearly: twice the audits cost twice as much, and each audit costs
-- at least its overhead.
pub tier_cost-linear :
    (t : Tier) (n avg : ℕ)
    → (tier_cost (record t { audits_per_period = t.audits_per_period + n }) avg
        ≡ tier_cost t avg + n * per_audit_cents t.k avg)
      × (2 * n ≤ n * per_audit_cents t.k avg)
unfolding tier_cost
tier_cost-linear t n avg = (grind arith, grind arith)

-- A total of audits costs at least what its parts cost, and at most a cent more.
pub audit_cents-split :
    (b₁ n₁ b₂ n₂ : ℕ)
    → (audit_cents b₁ n₁ + audit_cents b₂ n₂ ≤ audit_cents (b₁ + b₂) (n₁ + n₂))
      × (audit_cents (b₁ + b₂) (n₁ + n₂) ≤ audit_cents b₁ n₁ + audit_cents b₂ n₂ + 1)
unfolding audit_cents
audit_cents-split b₁ n₁ b₂ n₂ = omega arith
