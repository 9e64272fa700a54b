-- ===== src/KindSpec.antt =====
-- src/kind_spec.rs, with the specs that src/policy.rs, src/dials.rs, src/kv.rs and src/chain_kind.rs
-- register: a kind's point on the six axes, and the registry that the boundary reads.
use ciss.Prelude.{
  ℕ, ◌*◌, String, ◌≡◌, refl, Bool, true, false, not, ◌&&◌, Option, none, some, List, [], ◌∷◌,
  str_eq, if◌then◌else◌, all, arith,
}

pub data Retention : Type 0 where
  setting immutable log chain : Retention

pub data Authorship : Type 0 where
  derived owner_signed provider_signed co_signed : Authorship

pub data Erasure : Type 0 where
  erasable permanent : Erasure

pub data Enumeration : Type 0 where
  listable point_only : Enumeration

pub data HashPosture : Type 0 where
  fold_bound chain_linked merkle_rooted content_addressed : HashPosture

pub data HashAlgorithm : Type 0 where
  sha256 blake3 : HashAlgorithm

pub data Growth : Type 0 where
  bounded rolling unbounded : Growth

pub record Hashing : Type 0 where
  pub posture : HashPosture
  pub algorithm : HashAlgorithm

pub record Sizing : Type 0 where
  pub body_ceiling : ℕ
  pub growth : Growth

pub record KindSpec : Type 0 where
  pub kind : String
  pub retention : Retention
  pub authorship : Authorship
  pub erasure : Erasure
  pub enumeration : Enumeration
  pub hashing : Hashing
  pub sizing : Sizing

abbrev is_chain : Retention → Bool
is_chain chain = true
is_chain _ = false

abbrev is_erasable : Erasure → Bool
is_erasable erasable = true
is_erasable permanent = false

unfoldable pub is_consistent : KindSpec → Bool
is_consistent s = not (is_chain s.retention && is_erasable s.erasure)

abbrev pub small_body_ceiling_bytes : ℕ
small_body_ceiling_bytes = 1024

abbrev pub policy_body_ceiling_bytes : ℕ
policy_body_ceiling_bytes = 64 * 1024

abbrev pub policy_kind : String
policy_kind = "policy"

abbrev pub ceiling_dial_kind : String
ceiling_dial_kind = "dial.ceiling"

abbrev pub period_dial_kind : String
period_dial_kind = "dial.period"

abbrev pub account_mode_dial_kind : String
account_mode_dial_kind = "dial.account-mode"

abbrev pub receipt_mode_dial_kind : String
receipt_mode_dial_kind = "dial.receipt-mode"

abbrev pub flag_kind : String
flag_kind = "kv.flag"

abbrev pub chain_counter_kind : String
chain_counter_kind = "chain.counter"

abbrev pub policy_spec : KindSpec
policy_spec = record {
  kind = policy_kind;
  retention = setting;
  authorship = owner_signed;
  erasure = permanent;
  enumeration = listable;
  hashing = record { posture = fold_bound; algorithm = sha256 };
  sizing = record { body_ceiling = policy_body_ceiling_bytes; growth = bounded };
}

abbrev pub dial_spec : String → KindSpec
dial_spec kind = record {
  kind = kind;
  retention = setting;
  authorship = owner_signed;
  erasure = permanent;
  enumeration = point_only;
  hashing = record { posture = fold_bound; algorithm = sha256 };
  sizing = record { body_ceiling = small_body_ceiling_bytes; growth = bounded };
}

abbrev pub flag_spec : KindSpec
flag_spec = record {
  kind = flag_kind;
  retention = setting;
  authorship = owner_signed;
  erasure = erasable;
  enumeration = listable;
  hashing = record { posture = fold_bound; algorithm = sha256 };
  sizing = record { body_ceiling = small_body_ceiling_bytes; growth = bounded };
}

abbrev pub chain_counter_spec : KindSpec
chain_counter_spec = record {
  kind = chain_counter_kind;
  retention = chain;
  authorship = owner_signed;
  erasure = permanent;
  enumeration = listable;
  hashing = record { posture = chain_linked; algorithm = sha256 };
  sizing = record { body_ceiling = small_body_ceiling_bytes; growth = rolling };
}

abbrev pub registry : List KindSpec
registry =
    policy_spec
    ∷ dial_spec ceiling_dial_kind
    ∷ dial_spec period_dial_kind
    ∷ dial_spec account_mode_dial_kind
    ∷ dial_spec receipt_mode_dial_kind
    ∷ flag_spec
    ∷ chain_counter_spec
    ∷ []

find_spec : String → List KindSpec → Option KindSpec
find_spec kind [] = none
find_spec kind (s ∷ rest) = if str_eq s.kind kind then some s else find_spec kind rest

unfoldable pub kind_spec : String → Option KindSpec
unfolding find_spec
kind_spec kind = find_spec kind registry

unfoldable pub registry_is_consistent : Bool
unfolding is_consistent
registry_is_consistent = all is_consistent registry

-- The compile-time assertion of the code.
registry_check : registry_is_consistent ≡ true
unfolding registry_is_consistent
registry_check = refl

find_spec-consistent :
    (kind : String) (specs : List KindSpec) {s : KindSpec}
    → all is_consistent specs ≡ true
    → find_spec kind specs ≡ some s
    → is_consistent s ≡ true
unfolding find_spec
find_spec-consistent kind [] h e = cc
find_spec-consistent kind (t ∷ rest) {s} h e =
    ground (arith, find_spec-consistent kind rest {s = s})

-- Every kind that the registry knows satisfies "a chain is permanent".
pub kind_spec-consistent :
    (kind : String) {s : KindSpec} → kind_spec kind ≡ some s → is_consistent s ≡ true
unfolding kind_spec is_consistent registry_is_consistent
kind_spec-consistent kind e = find_spec-consistent kind registry registry_check e
