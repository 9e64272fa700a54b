-- ===== src/Sync/Spend.antt =====
-- crates/ciss-sync/src/ledger.rs: the ledger of the bytes that a tree or a profile has transferred, in
-- periods that only a counter opens. The clock is an argument. A count beyond the 63 bits of a column,
-- and SQLite's own failures, are outside the model.
pub mod Config
pub mod Periods
pub mod Reconcile
use ciss.Prelude.{
  ℕ, ◌+◌, ◌-◌, String, Bool, true, false, not, ◌&&◌, ◌||◌, Option, none, some, List, [], ◌∷◌, ◌++◌,
  ltb, ◌==◌, if◌then◌else◌, sum_by, retain, Result, ok, err, ◌>>=◌, refuse_if,
}
use ciss.Prelude.Map
use ciss.Prelude.Map.{Map}
use ciss.Prelude.Text.{concat, decimal, parse_u64}
use ciss.Pricing.{postage_cents}
use ciss.Sync.{SyncError, decode, ceiling_deferred}

abbrev pub key_ceiling : String
key_ceiling = "ceiling_cents"

abbrev pub key_period : String
key_period = "spend_period"

abbrev pub key_baseline : String
key_baseline = "reconcile_baseline_bytes"

abbrev pub key_baseline_period : String
key_baseline_period = "reconcile_baseline_period"

pub data ReconcileOutcome : Type 0 where
  adopted caught_up local_ahead : ℕ → ReconcileOutcome
  in_sync : ReconcileOutcome

-- A row of `spend`; the list is in the order of the ids.
pub record SpendRow : Type 0 where
  pub ts : ℕ
  pub bytes : ℕ
  pub period_seq : ℕ

pub record SpendLedger : Type 0 where
  pub scope : String
  pub config : Map String
  pub spend : List SpendRow

unfoldable pub config_get_u64 : SpendLedger → String → Result SyncError (Option ℕ)
config_get_u64 l key = elim (Map.get key l.config) [
  | none ↦ ok none
  | some v ↦ elim (parse_u64 v) [
    | none ↦ err (decode (concat ("ledger config " ∷ key ∷ [])))
    | some n ↦ ok (some n)
  ]
]

unfoldable pub config_set_u64 : SpendLedger → String → ℕ → SpendLedger
config_set_u64 l key value = record l { config = Map.upsert key (decimal value) l.config }

unfoldable pub ceiling_cents : SpendLedger → Result SyncError (Option ℕ)
ceiling_cents l = config_get_u64 l key_ceiling

unfoldable pub set_ceiling_cents : SpendLedger → Option ℕ → SpendLedger
set_ceiling_cents l (some c) = config_set_u64 l key_ceiling c
set_ceiling_cents l none = record l { config = Map.remove key_ceiling l.config }

-- `unwrap_or(0)`.
abbrev pub or_zero : Option ℕ → ℕ
or_zero none = 0
or_zero (some n) = n

unfoldable pub current_period : SpendLedger → Result SyncError ℕ
current_period l = config_get_u64 l key_period >>= λ found. ok (or_zero found)

unfoldable pub reset_spend : SpendLedger → Result SyncError (SpendLedger × ℕ)
reset_spend l =
    current_period l >>= λ period. ok (config_set_u64 l key_period (period + 1), period + 1)

unfoldable pub record_bytes : SpendLedger → ℕ → ℕ → Result SyncError SpendLedger
record_bytes l ts bytes = current_period l >>= λ period.
    ok (record l { spend = l.spend ++ record { ts = ts; bytes = bytes; period_seq = period } ∷ [] })

unfoldable pub spent_bytes_in : SpendLedger → ℕ → ℕ
spent_bytes_in l period =
    sum_by (λ (row : SpendRow). row.bytes)
      (retain (λ (row : SpendRow). row.period_seq == period) l.spend)

unfoldable pub spent_bytes : SpendLedger → Result SyncError ℕ
spent_bytes l = current_period l >>= λ period. ok (spent_bytes_in l period)

unfoldable pub spent_cents : SpendLedger → Result SyncError ℕ
spent_cents l = spent_bytes l >>= λ bytes. ok (postage_cents bytes)

-- Whether a baseline is set for this period.
abbrev pub has_baseline : Option ℕ → Option ℕ → ℕ → Bool
has_baseline none _ period = false
has_baseline (some _) none period = false
has_baseline (some _) (some p) period = p == period

-- The part of `reconcile_to_meter` behind the baseline: the meter's movement against the rows.
unfoldable pub settle : SpendLedger → ℕ → ℕ → ℕ → Result SyncError (SpendLedger × ReconcileOutcome)
settle l ts account_spent spent =
    let late = record_bytes l ts (account_spent - spent) in
    if ltb spent account_spent
    then (late >>= λ l'. ok (l', caught_up (account_spent - spent)))
    else if ltb account_spent spent
    then ok (l, local_ahead (spent - account_spent))
    else ok (l, in_sync)

unfoldable pub reconcile_to_meter :
    SpendLedger → ℕ → ℕ → Result SyncError (SpendLedger × ReconcileOutcome)
unfolding settle
reconcile_to_meter l ts meter_total_bytes = current_period l >>= λ period.
    spent_bytes l >>= λ spent. config_get_u64 l key_baseline >>= λ baseline.
    config_get_u64 l key_baseline_period >>= λ baseline_period.
    if not (has_baseline baseline baseline_period period)
    then ok (
      config_set_u64 (config_set_u64 l key_baseline (meter_total_bytes - spent)) key_baseline_period
          period,
      adopted (meter_total_bytes - spent),
    )
    else settle l ts (meter_total_bytes - or_zero baseline) spent

unfoldable pub check : SpendLedger → ℕ → Result SyncError (Unit {0})
check l want_bytes = ceiling_cents l >>= λ ceiling. elim ceiling [
  | none ↦ ok tt
  | some ceiling_cents' ↦ spent_bytes l >>= λ bytes.
      let spent = postage_cents bytes in
      let needed = postage_cents (bytes + want_bytes) in
      refuse_if (ltb ceiling_cents' needed && ltb spent needed)
        (ceiling_deferred l.scope needed spent ceiling_cents')
]
