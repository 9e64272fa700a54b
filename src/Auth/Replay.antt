-- ===== src/Auth/Replay.antt =====
-- crates/ciss-auth/src/replay.rs: a token that was accepted is refused until it expires.
use ciss.Prelude.{
  ℕ, ◌<◌, String, ◌≡◌, refl, sym, ap, ◌∙◌, some, List, [], ◌∷◌, ltb, retain, str_eq, str_eq_refl,
  ok, err, inl, inr, arith, eq_iff, Bool-cases, All,
}
use ciss.Prelude.Map
use ciss.Prelude.Map.{Map, get-upsert, contains_key-some}
use ciss.Auth.{replayed, ReplayGuard, check_and_record}

-- A call of the guard.
pub record Presented : Type 0 where
  pub jti : String
  pub exp_unix_s : ℕ
  pub now_unix_s : ℕ

unfoldable pub present_all : List Presented → ReplayGuard → ReplayGuard
present_all [] seen = seen
present_all (c ∷ calls) seen =
    present_all calls (check_and_record seen c.jti c.exp_unix_s c.now_unix_s).0

get-live :
    (jti : String) (exp now : ℕ) (seen : ReplayGuard)
    → now < exp
    → Map.get jti seen ≡ some exp
    → Map.get jti (retain (λ (e : String × ℕ). ltb now e.1) seen) ≡ some exp
unfolding Map.get
get-live jti exp now [] fresh there = cc
get-live jti exp now ((j, e) ∷ seen) fresh there = elim (Bool-cases (str_eq j jti)) [
  | inl same ↦ ground (arith, same, there)
  | inr other ↦ ground (arith, other, there, get-live jti exp now seen fresh)
]

-- A token that is recorded stays recorded in every call before its expiry.
check_and_record-keeps :
    (jti : String) (exp : ℕ) (c : Presented) (seen : ReplayGuard)
    → c.now_unix_s < exp
    → Map.get jti seen ≡ some exp
    → Map.get jti (check_and_record seen c.jti c.exp_unix_s c.now_unix_s).0 ≡ some exp
unfolding check_and_record
check_and_record-keeps jti exp c seen fresh there =
    let live = retain (λ (e : String × ℕ). ltb c.now_unix_s e.1) seen in
    let still = get-live jti exp c.now_unix_s seen fresh there in
    elim (Bool-cases (Map.contains_key c.jti live)) [
      | inl known ↦ rw (check_and_record, known) still
      | inr new ↦
          rw (check_and_record, new)
            (ground (
              arith,
              still,
              new,
              get-upsert c.jti jti c.exp_unix_s live,
              contains_key-some jti exp live still,
              eq_iff c.jti jti,
            ))
    ]

present_all-keeps :
    (jti : String) (exp : ℕ) (calls : List Presented) (seen : ReplayGuard)
    → All (λ (c : Presented). c.now_unix_s < exp) calls
    → Map.get jti seen ≡ some exp
    → Map.get jti (present_all calls seen) ≡ some exp
unfolding present_all
present_all-keeps jti exp [] seen early there = there
present_all-keeps jti exp (c ∷ calls) seen (first, early) there =
    present_all-keeps jti exp calls (check_and_record seen c.jti c.exp_unix_s c.now_unix_s).0 early
      (check_and_record-keeps jti exp c seen first there)

check_and_record-recorded :
    (seen seen' : ReplayGuard) (jti : String) (exp now : ℕ)
    → check_and_record seen jti exp now ≡ (seen', ok tt)
    → Map.get jti seen' ≡ some exp
unfolding check_and_record
check_and_record-recorded seen seen' jti exp now h =
    let live = retain (λ (e : String × ℕ). ltb now e.1) seen in
    elim (Bool-cases (Map.contains_key jti live)) [
      | inl known ↦ absurd (ground (arith, known, h))
      | inr new ↦
          let same : Map.upsert jti exp live ≡ seen' = ground (arith, new, h) in
          ap (Map.get jti) (sym same) ∙ get-upsert jti jti exp live ∙ rw (str_eq_refl jti) refl
    ]

-- A token id that was accepted with some expiry is refused as a replay whenever it is presented again
-- before that expiry, whatever other tokens were presented in between, each before that expiry too.
pub check_and_record-replayed :
    (seen seen' : ReplayGuard) (jti : String) (exp exp' now now' : ℕ) (calls : List Presented)
    → check_and_record seen jti exp now ≡ (seen', ok tt)
    → All (λ (c : Presented). c.now_unix_s < exp) calls
    → now' < exp
    → (check_and_record (present_all calls seen') jti exp' now').1 ≡ err replayed
unfolding check_and_record
check_and_record-replayed seen seen' jti exp exp' now now' calls accepted early late =
    let there =
      present_all-keeps jti exp calls seen' early
        (check_and_record-recorded seen seen' jti exp now accepted) in
    let live = retain (λ (e : String × ℕ). ltb now' e.1) (present_all calls seen') in
    let known =
      contains_key-some jti exp live (get-live jti exp now' (present_all calls seen') late there) in
    rw (check_and_record, known) refl
