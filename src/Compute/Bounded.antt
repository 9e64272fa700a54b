-- ===== src/Compute/Bounded.antt =====
-- The table of callers stays bounded, whatever the requests are.
use ciss.Prelude.{
  ℕ, ◌+◌, ◌≤◌, ◌≡◌, refl, ap, sym, ◌∙◌, inl, inr, String, true, Option, none, some, [], ◌∷◌, leb,
  length, str_eq_refl, subst, ◌⊎◌, if◌then◌else◌, eq_iff, arith, Bool-cases, Option-cases,
}
use ciss.Prelude.Map
use ciss.Prelude.Map.{
  Map, get-upsert, get-remove, length-upsert, length-remove, length-remove_le, contains_key-upsert,
  contains_key-remove,
}
use ciss.Compute.{
  or_default, ComputeLedger, max_tracked_callers, oldest, earlier, make_room, charge,
  record_request,
}

-- At most 1024 callers, each with the tick at which it was seen.
unfoldable pub IsBounded : ComputeLedger → Type 0
IsBounded l =
    (length l.cells ≤ max_tracked_callers)
    × ((k : String) → Map.contains_key k l.cells ≡ Map.contains_key k l.seen)

oldest-cons_last : (e : String × ℕ) (m : Map ℕ) → oldest m ≡ none → oldest (e ∷ m) ≡ some e
unfolding oldest
oldest-cons_last e m empty = rw empty refl

oldest-cons_earlier :
    (e f : String × ℕ) (m : Map ℕ) → oldest m ≡ some f → oldest (e ∷ m) ≡ some (earlier e f)
unfolding oldest
oldest-cons_earlier e f m found = rw found refl

oldest-cons : (e : String × ℕ) (m : Map ℕ) → (f : String × ℕ) × (oldest (e ∷ m) ≡ some f)
oldest-cons e m = elim (Option-cases (oldest m)) [
  | inl empty ↦ (e, oldest-cons_last e m empty)
  | inr (f, found) ↦ (earlier e f, oldest-cons_earlier e f m found)
]

some-key : {e f : String × ℕ} → ◌≡◌ {A = Option (String × ℕ)} (some e) (some f) → e.0 ≡ f.0
some-key {e} h = ap (λ (o : Option (String × ℕ)). (or_default e o).0) h

earlier-key : (e f : String × ℕ) → (earlier e f ≡ e) ⊎ (earlier e f ≡ f)
earlier-key e f = elim (Bool-cases (leb e.1 f.1)) [
  | inl first ↦ inl (rw first refl)
  | inr later ↦ inr (rw later refl)
]

contains_key-cons :
    {V : Type 0} (i : String) (e : String × V) (m : Map V)
    → (i ≡ e.0) ⊎ (Map.contains_key i m ≡ true)
    → Map.contains_key i (e ∷ m) ≡ true
unfolding Map.contains_key Map.get
contains_key-cons i e m (inl same) = ground (arith, eq_iff e.0 i)
contains_key-cons i e m (inr there) = ground (arith, there)

oldest-contains_key :
    (m : Map ℕ) {e : String × ℕ} → oldest m ≡ some e → Map.contains_key e.0 m ≡ true
unfolding oldest
oldest-contains_key [] h = cc
oldest-contains_key (c ∷ m) {e} h = elim (Option-cases (oldest m)) [
  | inl empty ↦ contains_key-cons e.0 c m (inl (some-key (sym h ∙ oldest-cons_last c m empty)))
  | inr (f, found) ↦
      let is = some-key (sym h ∙ oldest-cons_earlier c f m found) in
      contains_key-cons e.0 c m (elim (earlier-key c f) [
        | inl first ↦ inl (is ∙ ap (λ (u : String × ℕ). u.0) first)
        | inr later ↦ inr (
            subst (λ x. Map.contains_key x m ≡ true) (sym (is ∙ ap (λ (u : String × ℕ). u.0) later))
              (oldest-contains_key m found))
      ])
]

-- Where a caller is tracked, one of them was seen longest ago.
oldest-some {ℓ} :
    {V : Type ℓ} (cells : Map V) (seen : Map ℕ)
    → ((k : String) → Map.contains_key k cells ≡ Map.contains_key k seen)
    → 1 ≤ length cells
    → (e : String × ℕ) × (oldest seen ≡ some e)
unfolding Map.contains_key Map.get
oldest-some [] seen same some_caller = ground arith
oldest-some ((k, v) ∷ cells) [] same some_caller = ground (arith, same k, str_eq_refl k)
oldest-some (c ∷ cells) (e ∷ seen) same some_caller = oldest-cons e seen

abbrev without : String → ComputeLedger → ComputeLedger
without k l = record l { cells = Map.remove k l.cells; seen = Map.remove k l.seen }

make_room-outcomes :
    (l : ComputeLedger) (caller : String)
    → IsBounded l
    → ((make_room l caller ≡ l)
        × ((Map.contains_key caller l.cells ≡ true) ⊎ (length l.cells + 1 ≤ max_tracked_callers)))
      ⊎ ((k : String) × (Map.contains_key k l.cells ≡ true) × (make_room l caller ≡ without k l))
unfolding IsBounded make_room
make_room-outcomes l caller (bound, same) = elim (Bool-cases (Map.contains_key caller l.cells)) [
  | inl known ↦ inl (rw known refl, inl known)
  | inr new ↦ elim (Bool-cases (leb max_tracked_callers (length l.cells))) [
    | inr room ↦ inl (rw (new, room) refl, inr (ground arith))
    | inl full ↦
        let (e, found) = oldest-some l.cells l.seen same (ground arith) in
        inr (e.0, same e.0 ∙ oldest-contains_key l.seen found, rw (new, full, found) refl)
  ]
]

charge-IsBounded :
    (l : ComputeLedger) (caller class : String) (micros : ℕ)
    → ((k : String) → Map.contains_key k l.cells ≡ Map.contains_key k l.seen)
    → (if Map.contains_key caller l.cells then length l.cells else length l.cells + 1)
      ≤ max_tracked_callers
    → IsBounded (charge l caller class micros)
unfolding IsBounded charge
charge-IsBounded l caller class micros same room = (
  rw (length-upsert caller _ l.cells) room,
  λ k.
      contains_key-upsert caller k _ l.cells
      ∙ rw (same k) (sym (contains_key-upsert caller k (l.tick + 1) l.seen)),
)

without-same :
    (l : ComputeLedger) (e k : String)
    → ((i : String) → Map.contains_key i l.cells ≡ Map.contains_key i l.seen)
    → Map.contains_key k (without e l).cells ≡ Map.contains_key k (without e l).seen
without-same l e k same =
    contains_key-remove e k l.cells ∙ rw (same k) (sym (contains_key-remove e k l.seen))

-- Recording a request keeps the table within 1024 callers, each of them with the tick at which it was
-- last seen and no other caller with one, where that held before.
pub record_request-IsBounded :
    (l : ComputeLedger) (caller class : String) (micros : ℕ)
    → IsBounded l
    → IsBounded (record_request l caller class micros)
unfolding IsBounded record_request
record_request-IsBounded l caller class micros bounded =
    let (bound, same) = bounded in
    elim (make_room-outcomes l caller bounded) [
      | inl (is, room) ↦ rw is (charge-IsBounded l caller class micros same (ground (arith, room)))
      | inr (k, there, is) ↦ rw is (
          charge-IsBounded (without k l) caller class micros (λ i. without-same l k i same)
            (ground (arith, length-remove k l.cells there)))
    ]
