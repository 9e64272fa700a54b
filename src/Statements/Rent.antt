-- ===== src/Statements/Rent.antt =====
-- The rent base as an integral of the recorded steps.
use ciss.Prelude.{ℕ, zero, suc, ◌+◌, ◌-◌, ◌≤◌, ◌≡◌, [], ◌∷◌, leb, if◌then◌else◌, arith, ap, ◌∙◌}
use native.Mathlib.Nat.{zero-add, add-zero}
use ciss.Statements.{
  RentTimeline, set_bytes_at_rest, at_rest_from, bytes_at_rest_on, sum_days, byte_days,
}

sum_days-split :
    (points : RentTimeline) (start a b : ℕ)
    → sum_days points start (a + b) ≡ sum_days points start a + sum_days points (start + a) b
unfolding sum_days
sum_days-split points start zero b = rw (zero-add b) (rw (add-zero start) (omega arith))
sum_days-split points start (suc a) b =
    let e : suc a + b ≡ suc (a + b) = omega arith in
    let s : start + suc a ≡ start + 1 + a = omega arith in
    rw e (rw s (omega (arith, sum_days-split points (start + 1) a b)))

-- The byte-days of a period are those of its two parts, cut at any day within it.
pub byte_days-split :
    (points : RentTimeline) (start mid end : ℕ)
    → start ≤ mid
    → mid ≤ end
    → byte_days points start end ≡ byte_days points start mid + byte_days points mid end
unfolding byte_days
byte_days-split points start mid end h k =
    let e : end - start ≡ (mid - start) + (end - mid) = omega arith in
    let s : start + (mid - start) ≡ mid = omega arith in
    rw e (
      sum_days-split points start (mid - start) (end - mid)
      ∙ ap (λ d. sum_days points start (mid - start) + sum_days points d (end - mid)) s)

-- The days of the points rise strictly, from `low` on and up to `high`.
abbrev pub IsOrdered : ℕ → ℕ → RentTimeline → Type 0
IsOrdered low high [] = low ≤ high + 1
IsOrdered low high ((d, _) ∷ rest) = (low ≤ d) × IsOrdered (d + 1) high rest

IsOrdered-le : (low high : ℕ) (points : RentTimeline) → IsOrdered low high points → low ≤ high + 1
IsOrdered-le low high [] h = h
IsOrdered-le low high ((d, t) ∷ rest) h = omega (arith, IsOrdered-le (d + 1) high rest h.1)

at_rest_from-set :
    (current low : ℕ) (points : RentTimeline) (day total d : ℕ)
    → IsOrdered low day points
    → at_rest_from current (set_bytes_at_rest points day total) d
      ≡ (if leb day d then total else at_rest_from current points d)
unfolding at_rest_from set_bytes_at_rest
at_rest_from-set current low [] day total d h = ground arith
at_rest_from-set current low ((e, t) ∷ []) day total d h = ground arith
at_rest_from-set current low ((e, t) ∷ (e', t') ∷ rest) day total d h =
    let le = IsOrdered-le (e' + 1) day rest h.1.1 in
    ground (arith, le, at_rest_from-set t (e + 1) ((e', t') ∷ rest) day total d h.1)

-- Recording a total as of a day sets it from that day on and leaves every earlier day alone, where
-- the day is not before the days recorded.
pub bytes_at_rest_on-set :
    (points : RentTimeline) (day total d : ℕ)
    → IsOrdered 0 day points
    → bytes_at_rest_on (set_bytes_at_rest points day total) d
      ≡ (if leb day d then total else bytes_at_rest_on points d)
unfolding bytes_at_rest_on
bytes_at_rest_on-set points day total d h = at_rest_from-set 0 0 points day total d h

-- Recording keeps the days in order.
pub set-IsOrdered :
    (low : ℕ) (points : RentTimeline) (day total : ℕ)
    → low ≤ day
    → IsOrdered low day points
    → IsOrdered low day (set_bytes_at_rest points day total)
unfolding set_bytes_at_rest
set-IsOrdered low [] day total l h = ground arith
set-IsOrdered low ((e, t) ∷ []) day total l h = ground arith
set-IsOrdered low ((e, t) ∷ (e', t') ∷ rest) day total l h =
    let le = IsOrdered-le (e' + 1) day rest h.1.1 in
    (h.0, set-IsOrdered (e + 1) ((e', t') ∷ rest) day total (omega arith) h.1)
