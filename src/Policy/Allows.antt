-- ===== src/Policy/Allows.antt =====
-- What the read classes of src/policy.rs mean.
use ciss.Prelude.{
  ◌≡◌, ◌↔◌, refl, inl, inr, ◌⊎◌, String, true, Option, none, some, List, str_eq, str_eq_refl,
  eq_iff, arith, Bool-cases,
}
use ciss.Policy.{ReadClass, world, grantees, owner, ResolvedPolicy, allows, contains, is_caller}

-- Who may read under a policy.
abbrev pub MayRead : ReadClass → List String → Option String → String → Type 0
MayRead k readers caller did =
    (k ≡ world)
    ⊎ ((caller ≡ some did)
        ⊎ ((k ≡ grantees) × (c : String) × (caller ≡ some c) × (contains readers c ≡ true)))

is_caller→some :
    (caller : Option String) (did : String) → is_caller caller did ≡ true → caller ≡ some did
is_caller→some none did h = cc
is_caller→some (some c) did h = ground (arith, eq_iff c did)

allows-MayRead :
    (k : ReadClass) (readers : List String) (caller : Option String) (did : String)
    → allows (record { read_class = k; readers = readers }) caller did ≡ true
    → MayRead k readers caller did
unfolding allows
allows-MayRead world readers caller did h = inl refl
allows-MayRead owner readers caller did h = inr (inl (is_caller→some caller did (ground arith)))
allows-MayRead grantees readers none did h = cc
allows-MayRead grantees readers (some c) did h = elim (Bool-cases (str_eq c did)) [
  | inl same ↦ inr (inl (is_caller→some (some c) did same))
  | inr differs ↦ inr (inr (refl, c, refl, ground arith))
]

MayRead-allows :
    (k : ReadClass) (readers : List String) (caller : Option String) (did : String)
    → MayRead k readers caller did
    → allows (record { read_class = k; readers = readers }) caller did ≡ true
unfolding allows
MayRead-allows k readers caller did (inl w) = ground arith
MayRead-allows k readers caller did (inr (inl own)) = ground (arith, str_eq_refl did)
MayRead-allows k readers caller did (inr (inr (g, c, is, listed))) = ground arith

-- A caller may read under a policy exactly when the policy is open to the world, the caller is the
-- owner, or the policy lists readers and the caller is one of them.
pub allows_iff :
    (p : ResolvedPolicy) (caller : Option String) (did : String)
    → (allows p caller did ≡ true) ↔ MayRead p.read_class p.readers caller did
allows_iff p caller did = (
  allows-MayRead p.read_class p.readers caller did,
  MayRead-allows p.read_class p.readers caller did,
)
