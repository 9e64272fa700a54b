-- ===== src/Policy.antt =====
-- src/policy.rs: who may read a namespace or an object.
pub mod Allows
use ciss.Prelude.{
  ℕ, String, ◌≡◌, Bool, true, false, not, ◌&&◌, Option, none, some, List, [], ◌∷◌, str_eq, leb, ltb,
  if◌then◌else◌, length, any, Result, is_ok,
}
use ciss.Prelude.Text.{concat, decimal, join, sort}
use ciss.Identifiers.{parse_did}

abbrev pub max_readers : ℕ
max_readers = 1024

pub data ReadClass : Type 0 where
  world grantees owner : ReadClass

abbrev pub tag : ReadClass → String
tag world = "world"
tag grantees = "grantees"
tag owner = "owner"

pub record PolicyBody : Type 0 where
  pub read_class : ReadClass
  pub readers : List String

unfoldable pub policy_body_fold : PolicyBody → String
policy_body_fold b =
    let readers = sort b.readers in
    concat (
      "class="
      ∷ tag b.read_class
      ∷ ";readers="
      ∷ decimal (length readers)
      ∷ ":"
      ∷ join "," readers
      ∷ [])

abbrev pub contains : List String → String → Bool
contains xs s = any (λ x. str_eq x s) xs

-- `all(|r| Did::parse(r).is_ok() && seen.insert(r))`, with the set of those seen.
distinct_dids : List String → List String → Bool
distinct_dids seen [] = true
distinct_dids seen (r ∷ rest) =
    is_ok (parse_did r) && (not (contains seen r) && distinct_dids (r ∷ seen) rest)

abbrev is_nil : List String → Bool
is_nil [] = true
is_nil (_ ∷ _) = false

valid_for : ReadClass → List String → Bool
valid_for grantees readers =
    if ltb max_readers (length readers) then false else distinct_dids [] readers
valid_for _ readers = is_nil readers

unfoldable pub policy_body_valid : PolicyBody → Bool
unfolding valid_for distinct_dids
policy_body_valid b = valid_for b.read_class b.readers

pub record ResolvedPolicy : Type 0 where
  pub read_class : ReadClass
  pub readers : List String

abbrev pub world_policy : ResolvedPolicy
world_policy = record { read_class = world; readers = [] }

abbrev pub deny : ResolvedPolicy
deny = record { read_class = owner; readers = [] }

abbrev pub from_body : PolicyBody → ResolvedPolicy
from_body b = record { read_class = b.read_class; readers = b.readers }

-- `caller == Some(owner_did)`.
abbrev pub is_caller : Option String → String → Bool
is_caller none did = false
is_caller (some c) did = str_eq c did

admits : ReadClass → List String → Option String → Bool
admits world readers caller = true
admits owner readers caller = false
admits grantees readers none = false
admits grantees readers (some c) = contains readers c

unfoldable pub allows : ResolvedPolicy → Option String → String → Bool
unfolding admits
allows p caller owner_did =
    if is_caller caller owner_did then true else admits p.read_class p.readers caller
