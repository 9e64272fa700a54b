-- ===== src/Sync/Spend/Reconcile.antt =====
-- crates/ciss-sync/src/ledger.rs: reconciling with the meter, and doing it again.
use ciss.Prelude.{
  ℕ, ◌-◌, ◌^◌, ◌<◌, ◌≤◌, ◌≡◌, refl, sym, ap, ◌∙◌, subst, Bool, true, false, not, Option, none, some,
  ltb, ltb→lt, ==_refl, if◌then◌else◌, ok, ◌>>=◌, >>=-eq-ok, ok-injective, inl, inr, arith,
  Bool-cases,
}
use ciss.Sync.Spend.Config.{config_get_u64-set, config_get_u64-other, current_period-lt}
use ciss.Sync.Spend.Periods.{recorded, record_bytes_eq, spent_bytes_in-recorded}
use ciss.Sync.Spend.{
  SpendLedger, ReconcileOutcome, adopted, caught_up, local_ahead, in_sync, key_baseline,
  key_baseline_period, key_period, config_get_u64, config_set_u64, current_period, record_bytes,
  spent_bytes_in, spent_bytes, has_baseline, settle, reconcile_to_meter, or_zero,
}

reconcile_eq :
    (l : SpendLedger) (ts m period : ℕ) (baseline baseline_period : Option ℕ)
    → current_period l ≡ ok period
    → config_get_u64 l key_baseline ≡ ok baseline
    → config_get_u64 l key_baseline_period ≡ ok baseline_period
    → reconcile_to_meter l ts m ≡ (
        if not (has_baseline baseline baseline_period period)
        then ok (
          config_set_u64
              (config_set_u64 l key_baseline (m - spent_bytes_in l period))
              key_baseline_period
              period,
          adopted (m - spent_bytes_in l period),
        )
        else settle l ts (m - or_zero baseline) (spent_bytes_in l period))
unfolding reconcile_to_meter spent_bytes
reconcile_eq l ts m period baseline baseline_period p b q = rw (p, b, q) refl

-- What the outcome of a reconciliation is when nothing is written.
abbrev pub settles : ReconcileOutcome → Bool
settles (adopted _) = false
settles (caught_up _) = false
settles (local_ahead _) = true
settles in_sync = true

settle-done :
    (l : SpendLedger) (ts account spent : ℕ)
    → account ≤ spent
    → (o : ReconcileOutcome) × (settle l ts account spent ≡ ok (l, o)) × (settles o ≡ true)
unfolding settle
settle-done l ts account spent le = elim (Bool-cases (ltb account spent)) [
  | inl ahead ↦
      let behind : ltb spent account ≡ false = ground arith in
      (local_ahead (spent - account), rw (behind, ahead) refl, refl)
  | inr level ↦
      let behind : ltb spent account ≡ false = ground arith in
      (in_sync, rw (behind, level) refl, refl)
]

-- With a baseline of this period and no bytes missing, a reconciliation changes nothing.
again :
    (l : SpendLedger) (ts m period baseline : ℕ)
    → current_period l ≡ ok period
    → config_get_u64 l key_baseline ≡ ok (some baseline)
    → config_get_u64 l key_baseline_period ≡ ok (some period)
    → m - baseline ≤ spent_bytes_in l period
    → (o : ReconcileOutcome) × (reconcile_to_meter l ts m ≡ ok (l, o)) × (settles o ≡ true)
again l ts m period baseline p b q le =
    let (o, done, flat) = settle-done l ts (m - baseline) (spent_bytes_in l period) le in
    (
      o,
      reconcile_eq l ts m period (some baseline) (some period) p b q ∙ rw (==_refl period) done,
      flat,
    )

-- What a second reconciliation at the same meter does to a ledger.
abbrev Settled : ℕ → ℕ → SpendLedger → Type 0
Settled ts m l =
    (o : ReconcileOutcome) × (reconcile_to_meter l ts m ≡ ok (l, o)) × (settles o ≡ true)

adopt-again :
    (l : SpendLedger) (ts m period x : ℕ)
    → x < 2 ^ 64
    → m - x ≤ spent_bytes_in l period
    → current_period l ≡ ok period
    → period < 2 ^ 64
    → Settled ts m (config_set_u64 (config_set_u64 l key_baseline x) key_baseline_period period)
unfolding current_period spent_bytes_in config_set_u64
adopt-again l ts m period x fits le p small =
    let l0 = config_set_u64 l key_baseline x in
    let l1 = config_set_u64 l0 key_baseline_period period in
    let same : config_get_u64 l1 key_period ≡ config_get_u64 l key_period =
      config_get_u64-other l0 key_baseline_period key_period period refl
      ∙ config_get_u64-other l key_baseline key_period x refl in
    again l1 ts m period x (rw same p)
      (config_get_u64-other l0 key_baseline_period key_baseline period refl
        ∙ config_get_u64-set l key_baseline x fits)
      (config_get_u64-set l0 key_baseline_period period small) le

has_baseline-true :
    (b q : Option ℕ) (period : ℕ)
    → has_baseline b q period ≡ true
    → (b ≡ some (or_zero b)) × (q ≡ some period)
has_baseline-true none q period h = cc
has_baseline-true (some b) none period h = cc
has_baseline-true (some b) (some p) period h = (refl, ground arith)

-- The reads of a reconciliation that succeeded.
reads :
    (l l' : SpendLedger) (ts m : ℕ) (outcome : ReconcileOutcome)
    → reconcile_to_meter l ts m ≡ ok (l', outcome)
    → (period : ℕ) × (b : Option ℕ) × (q : Option ℕ) × ((current_period l ≡ ok period)
        × (period < 2 ^ 64))
      × (config_get_u64 l key_baseline ≡ ok b)
      × (config_get_u64 l key_baseline_period ≡ ok q)
unfolding reconcile_to_meter
reads l l' ts m outcome h =
    let (period, p, h1) = >>=-eq-ok (current_period l) _ h in
    let (spent, _, h2) = >>=-eq-ok (spent_bytes l) _ h1 in
    let (b, is_b, h3) = >>=-eq-ok (config_get_u64 l key_baseline) _ h2 in
    let (q, is_q, _) = >>=-eq-ok (config_get_u64 l key_baseline_period) _ h3 in
    (period, b, q, (p, current_period-lt l period p), is_b, is_q)

settle-again :
    (l l' : SpendLedger) (ts ts' m period baseline : ℕ) (outcome : ReconcileOutcome)
    → current_period l ≡ ok period
    → config_get_u64 l key_baseline ≡ ok (some baseline)
    → config_get_u64 l key_baseline_period ≡ ok (some period)
    → settle l ts (m - baseline) (spent_bytes_in l period) ≡ ok (l', outcome)
    → Settled ts' m l'
unfolding settle current_period config_get_u64
settle-again l l' ts ts' m period baseline outcome p b q h =
    let spent = spent_bytes_in l period in
    let account = m - baseline in
    elim (Bool-cases (ltb spent account)) [
      | inl behind ↦
          let caught : (record_bytes l ts (account - spent) >>= λ x.
          ok (x, caught_up (account - spent)))
              ≡ ok (l', outcome) =
            ground arith in
          let (r, is_r, same) =
            >>=-eq-ok (record_bytes l ts (account - spent))
              (λ x. ok (x, caught_up (account - spent))) caught in
          let here : recorded l ts (account - spent) period ≡ l' =
            ok-injective (sym (record_bytes_eq l ts (account - spent) period p) ∙ is_r)
            ∙ ap (λ (x : SpendLedger × ReconcileOutcome). x.0) (ok-injective same) in
          subst (Settled ts' m) here (
            again (recorded l ts (account - spent) period) ts' m period baseline p b q (
              omega (
                arith,
                spent_bytes_in-recorded l ts (account - spent) period,
                ltb→lt spent account behind,
              )))
      | inr enough ↦
          let (o, done, _) = settle-done l ts account spent (ground arith) in
          let here : l ≡ l' =
            ap (λ (x : SpendLedger × ReconcileOutcome). x.0) (ok-injective (sym done ∙ h)) in
          subst (Settled ts' m) here (again l ts' m period baseline p b q (ground arith))
    ]

-- A reconciliation that succeeded at a meter total of 64 bits can be made again at that total: it
-- succeeds, changes nothing, and says that the ledger is in sync with the meter or ahead of it.
pub reconcile_to_meter-again :
    (l l' : SpendLedger) (ts ts' m : ℕ) (outcome : ReconcileOutcome)
    → m < 2 ^ 64
    → reconcile_to_meter l ts m ≡ ok (l', outcome)
    → (o : ReconcileOutcome) × (reconcile_to_meter l' ts' m ≡ ok (l', o)) × (settles o ≡ true)
reconcile_to_meter-again l l' ts ts' m outcome fits h =
    let (period, b, q, (p, small), is_b, is_q) = reads l l' ts m outcome h in
    let spent = spent_bytes_in l period in
    let h' = sym (reconcile_eq l ts m period b q p is_b is_q) ∙ h in
    elim (Bool-cases (has_baseline b q period)) [
      | inr unset ↦
          let x = m - spent in
          let adopts : config_set_u64 (config_set_u64 l key_baseline x) key_baseline_period period
              ≡ l' =
            ground arith in
          subst (Settled ts' m) adopts
            (adopt-again l ts' m period x (omega arith) (omega arith) p small)
      | inl set ↦
          let (some_b, some_q) = has_baseline-true b q period set in
          settle-again l l' ts ts' m period (or_zero b) outcome p (is_b ∙ ap ok some_b)
            (is_q ∙ ap ok some_q) (ground arith)
    ]
