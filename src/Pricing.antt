-- ===== src/Pricing.antt =====
-- src/pricing.rs and the tariff of src/dial.rs: integer cents, rounded down. Products and sums are
-- of `u64`; an overflow stops the program (the release profile checks for it), so these are exact.
pub mod Rounding
use ciss.Prelude.{ℕ, ◌+◌, ◌*◌, ◌/◌, String}

abbrev pub rent_numerator : ℕ
rent_numerator = 1

abbrev pub rent_denominator : ℕ
rent_denominator = 10_000

abbrev pub postage_bytes_per_cent : ℕ
postage_bytes_per_cent = 1_000

abbrev pub audit_bytes_per_cent : ℕ
audit_bytes_per_cent = 1_000

abbrev pub audit_overhead_cents : ℕ
audit_overhead_cents = 2

unfoldable pub rent_cents : ℕ → ℕ
rent_cents byte_days = byte_days * rent_numerator / rent_denominator

unfoldable pub postage_cents : ℕ → ℕ
postage_cents bytes = bytes / postage_bytes_per_cent

unfoldable pub audit_cents : ℕ → ℕ → ℕ
audit_cents bytes_read audit_count =
    bytes_read / audit_bytes_per_cent + audit_count * audit_overhead_cents

pub record Tier : Type 0 where
  pub name : String
  pub k : ℕ
  pub audits_per_period : ℕ

unfoldable pub per_audit_cents : ℕ → ℕ → ℕ
unfolding audit_cents
per_audit_cents k avg_item_bytes = audit_cents (k * avg_item_bytes) 1

unfoldable pub tier_cost : Tier → ℕ → ℕ
unfolding per_audit_cents
tier_cost tier avg_item_bytes = tier.audits_per_period * per_audit_cents tier.k avg_item_bytes

-- The code stops on a period of 0 days, so this stands for its result on the others.
unfoldable pub audits_for : ℕ → ℕ → ℕ → ℕ
audits_for audits_per_period days period_days =
    (audits_per_period * days + period_days / 2) / period_days
