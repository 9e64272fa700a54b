-- ===== src/Compute.antt =====
-- src/compute.rs: what each caller's requests cost, for a bounded number of callers. A HashMap is an
-- association list; the order of its iteration decides nothing, since no two callers share a tick.
pub mod Bounded
use ciss.Prelude.{
  ℕ, ◌+◌, String, not, ◌&&◌, Option, none, some, [], ◌∷◌, leb, length, if◌then◌else◌,
}
use ciss.Prelude.Map
use ciss.Prelude.Map.{Map}
use ciss.Server.{saturating_add}

abbrev pub max_tracked_callers : ℕ
max_tracked_callers = 1024

pub record ComputeCell : Type 0 where
  pub requests : ℕ
  pub micros : ℕ

pub record ComputeLedger : Type 0 where
  pub cells : Map (Map ComputeCell)
  pub tick : ℕ
  pub seen : Map ℕ

abbrev pub new_ledger : ComputeLedger
new_ledger = record { cells = []; tick = 0; seen = [] }

-- The earlier one of two entries, the first where they tie.
abbrev pub earlier : String × ℕ → String × ℕ → String × ℕ
earlier a b = if leb a.1 b.1 then a else b

-- `seen.iter().min_by_key(tick)`.
unfoldable pub oldest : Map ℕ → Option (String × ℕ)
oldest [] = none
oldest (e ∷ rest) = elim (oldest rest) [ none ↦ some e | some other ↦ some (earlier e other) ]

-- A caller that is not tracked takes the place of the one that was seen longest ago, once the table is
-- full.
unfoldable pub make_room : ComputeLedger → String → ComputeLedger
make_room l caller =
    if not (Map.contains_key caller l.cells) && leb max_tracked_callers (length l.cells)
    then elim (oldest l.seen) [
      | none ↦ l
      | some evict ↦ record l {
        cells = Map.remove evict.0 l.cells;
        seen = Map.remove evict.0 l.seen;
      }
    ]
    else l

-- `HashMap::entry(k).or_default()`.
abbrev pub or_default {ℓ} : {A : Type ℓ} → A → Option A → A
or_default d none = d
or_default d (some a) = a

abbrev pub count_request : ℕ → ComputeCell → ComputeCell
count_request micros cell = record {
  requests = saturating_add cell.requests 1;
  micros = saturating_add cell.micros micros;
}

abbrev pub no_cost : ComputeCell
no_cost = record { requests = 0; micros = 0 }

-- The part of `record` behind the eviction.
unfoldable pub charge : ComputeLedger → String → String → ℕ → ComputeLedger
charge l caller class micros =
    let classes = or_default [] (Map.get caller l.cells) in
    let cell = or_default no_cost (Map.get class classes) in
    record {
      cells = Map.upsert caller (Map.upsert class (count_request micros cell) classes) l.cells;
      tick = l.tick + 1;
      seen = Map.upsert caller (l.tick + 1) l.seen;
    }

unfoldable pub record_request : ComputeLedger → String → String → ℕ → ComputeLedger
unfolding make_room charge
record_request l caller class micros = charge (make_room l caller) caller class micros
