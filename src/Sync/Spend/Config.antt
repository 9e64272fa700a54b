-- ===== src/Sync/Spend/Config.antt =====
-- crates/ciss-sync/src/ledger.rs: the numbers kept in the table `config`.
use ciss.Prelude.{
  ℕ, ◌^◌, ◌<◌, ◌≡◌, subst, String, false, Option, none, some, ok, >>=-eq-ok, ok-injective, inl, inr,
  arith, eq_iff, Option-cases, str_eq,
}
use ciss.Prelude.Map
use ciss.Prelude.Map.{Map, get-upsert}
use ciss.Prelude.Text.{decimal, parse_u64}
use ciss.Prelude.Text.Numbers.{parse_u64-decimal, parse_u64-lt}
use ciss.Sync.Spend.{
  SpendLedger, key_period, config_get_u64, config_set_u64, current_period, or_zero,
}

pub config_get_u64-set :
    (l : SpendLedger) (key : String) (n : ℕ)
    → n < 2 ^ 64
    → config_get_u64 (config_set_u64 l key n) key ≡ ok (some n)
unfolding config_get_u64 config_set_u64
config_get_u64-set l key n fits =
    ground
      (arith, get-upsert key key (decimal n) l.config, eq_iff key key, parse_u64-decimal n fits)

pub config_get_u64-other :
    (l : SpendLedger) (key other : String) (n : ℕ)
    → str_eq key other ≡ false
    → config_get_u64 (config_set_u64 l key n) other ≡ config_get_u64 l other
unfolding config_get_u64 config_set_u64
config_get_u64-other l key other n differ =
    ground (arith, get-upsert key other (decimal n) l.config)

-- A number that is read fits 64 bits.
pub config_get_u64-lt :
    (l : SpendLedger) (key : String) (o : Option ℕ)
    → config_get_u64 l key ≡ ok o
    → or_zero o < 2 ^ 64
unfolding config_get_u64
config_get_u64-lt l key none h = omega arith
config_get_u64-lt l key (some n) h = elim (Option-cases (Map.get key l.config)) [
  | inl absent ↦ ground arith
  | inr (v, present) ↦ elim (Option-cases (parse_u64 v)) [
    | inl bad ↦ ground arith
    | inr (m, good) ↦ ground (arith, parse_u64-lt v m good)
  ]
]

pub current_period-lt :
    (l : SpendLedger) (period : ℕ) → current_period l ≡ ok period → period < 2 ^ 64
unfolding current_period
current_period-lt l period p =
    let (o, read, same) = >>=-eq-ok (config_get_u64 l key_period) _ p in
    subst (λ n. n < 2 ^ 64) (ok-injective same) (config_get_u64-lt l key_period o read)
