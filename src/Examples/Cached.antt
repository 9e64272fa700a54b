-- ===== src/Examples/Cached.antt =====
-- The claims on the cache of chunks, the spend ledger and the replay guard, applied to concrete inputs.
use ciss.Prelude.{ℕ, ◌≤◌, ◌≡◌, refl, String, true, false, some, [], ◌∷◌, ok, err, ◌⊎◌, arith}
use ciss.Prelude.Map
use ciss.Prelude.Map.{Map}
use ciss.Prelude.Text.{concat, parse_u64, as_bytes}
use ciss.Crypto.{Bytes}
use ciss.Sync.Tree.{to_hex, digest_hex}
use ciss.Sync.Cache.{
  ChunkCache, open_cache, open_empty, set_cache_budget, total_bytes, insert, insert_best_effort,
  evict_to_budget, evict_loop, victim, stored, refuses, next_seq, max_seq, pinned_bytes, get,
  remove,
}
use ciss.Sync.Cache.Eviction.{Fits, insert_ends}
use ciss.Sync.Cache.Hits.{
  Reached, opened, reopened, after, inserting, total_bytes-Reached, get-insert,
}
use ciss.Sync.Spend.{
  SpendLedger, ReconcileOutcome, caught_up, reconcile_to_meter, settle, current_period, spent_bytes,
  spent_bytes_in, config_get_u64, record_bytes, key_ceiling, spent_cents, ceiling_cents, check,
  key_baseline, key_baseline_period,
}
use ciss.Pricing.{postage_cents}
use ciss.Sync.Spend.Periods.{check-record_bytes}
use ciss.Sync.Spend.Reconcile.{reconcile_to_meter-again, settles}
use ciss.Auth.{ReplayGuard, check_and_record, replayed}
use ciss.Auth.Replay.{Presented, present_all, check_and_record-replayed}
use ciss.Examples.Toy.{toy}

abbrev piece : Bytes
piece = 1 ∷ 2 ∷ []

abbrev other : Bytes
other = 3 ∷ 4 ∷ []

abbrev piece_cid : String
piece_cid = digest_hex ⦃p = toy⦄ piece

abbrev other_cid : String
other_cid = digest_hex ⦃p = toy⦄ other

-- A budget of three bytes has room for one of the two pieces.
abbrev one_piece : ChunkCache
one_piece = (insert_best_effort (open_empty 3) piece_cid piece).0

abbrev other_piece : ChunkCache
other_piece = (insert_best_effort one_piece other_cid other).0

piece_cached : insert (open_empty 3) piece_cid piece ≡ some (one_piece, true)
unfolding insert_best_effort insert evict_to_budget evict_loop victim stored refuses next_seq
    max_seq pinned_bytes total_bytes remove open_cache open_empty Map.upsert Map.get Map.remove
    digest_hex to_hex concat
piece_cached = refl

other_cached : insert one_piece other_cid other ≡ some (other_piece, true)
unfolding insert_best_effort insert evict_to_budget evict_loop victim stored refuses next_seq
    max_seq pinned_bytes total_bytes remove open_cache open_empty Map.upsert Map.get Map.remove
    digest_hex to_hex concat
other_cached = refl

-- The first piece had to go.
piece_evicted : Map.contains_key piece_cid other_piece.chunks ≡ false
unfolding insert_best_effort insert evict_to_budget evict_loop victim stored refuses next_seq
    max_seq pinned_bytes total_bytes remove open_cache open_empty Map.upsert Map.get Map.remove
    Map.contains_key digest_hex to_hex concat
piece_evicted = refl

one_piece-Reached : Reached ⦃p = toy⦄ 3 one_piece
one_piece-Reached = after (opened 3 (omega arith)) (inserting piece_cid piece true piece_cached)

insert_ends_example :
    (insert one_piece other_cid other ≡ some (one_piece, false))
    ⊎ ((c' : ChunkCache) × (insert one_piece other_cid other ≡ some (c', true))
        × Fits c'
        × (c'.budget ≡ one_piece.budget))
insert_ends_example = insert_ends one_piece other_cid other

-- The cache reopened with a budget of one byte still has the two bytes of the piece.
total_bytes-Reached_example : total_bytes (set_cache_budget 1 other_piece) ≤ 3
total_bytes-Reached_example = total_bytes-Reached ⦃p = toy⦄ 3 (set_cache_budget 1 other_piece) (
    reopened 1 (omega arith)
      (after one_piece-Reached (inserting other_cid other true other_cached)))

get-insert_example : (get ⦃p = toy⦄ other_piece other_cid).1 ≡ some other
get-insert_example =
    get-insert ⦃p = toy⦄ 3 one_piece other_piece other_cid other one_piece-Reached refl other_cached

-- A ledger that took its baseline at 100 bytes of the meter.
abbrev baselined : SpendLedger
baselined = record {
  scope = "tree";
  config = (key_baseline, "100") ∷ (key_baseline_period, "0") ∷ [];
  spend = [];
}

abbrev behind : SpendLedger
behind = record baselined { spend = record { ts = 5; bytes = 50; period_seq = 0 } ∷ [] }

meter_moved : reconcile_to_meter baselined 5 150 ≡ ok (behind, caught_up 50)
unfolding reconcile_to_meter settle current_period spent_bytes spent_bytes_in config_get_u64
    record_bytes parse_u64 Map.get as_bytes
meter_moved = refl

reconcile_to_meter-again_example :
    (o : ReconcileOutcome) × (reconcile_to_meter behind 9 150 ≡ ok (behind, o)) × (settles o ≡ true)
reconcile_to_meter-again_example =
    reconcile_to_meter-again baselined behind 5 9 150 (caught_up 50) (omega arith) meter_moved

-- Five cents to spend, and a transfer that costs less.
abbrev ceilinged : SpendLedger
ceilinged = record { scope = "tree"; config = (key_ceiling, "5") ∷ []; spend = [] }

abbrev spent_some : SpendLedger
spent_some = record ceilinged { spend = record { ts = 3; bytes = 1000; period_seq = 0 } ∷ [] }

check-record_bytes_example :
    (n : ℕ) × (spent_cents spent_some ≡ ok n) × (n ≤ 5) × (ceiling_cents spent_some ≡ ok (some 5))
unfolding spent_cents spent_bytes spent_bytes_in ceiling_cents current_period config_get_u64 check
    record_bytes parse_u64 postage_cents as_bytes Map.get
check-record_bytes_example =
    check-record_bytes ceilinged spent_some 3 1000 0 5 refl refl (omega arith) refl refl

abbrev seen_once : ReplayGuard
seen_once = ("t", 100) ∷ []

accepted_once : check_and_record [] "t" 100 10 ≡ (seen_once, ok tt)
unfolding check_and_record Map.contains_key Map.get Map.upsert
accepted_once = refl

abbrev another : Presented
another = record { jti = "u"; exp_unix_s = 60; now_unix_s = 50 }

check_and_record-replayed_example :
    (check_and_record (present_all (another ∷ []) seen_once) "t" 100 90).1 ≡ err replayed
check_and_record-replayed_example =
    check_and_record-replayed [] seen_once "t" 100 100 10 90 (another ∷ []) accepted_once
      (omega arith, tt) (omega arith)
