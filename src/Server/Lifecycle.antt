-- ===== src/Server/Lifecycle.antt =====
-- src/server.rs: the erasure and the listing of assertions, and the reading and compaction of chains.
use ciss.Prelude.{
  ℕ, String, not, Option, none, some, List, map, if◌then◌else◌, Result, ok, err, ◌>>=◌, ◌>>◌,
  refuse_if,
}
use ciss.Crypto.{Primitives}
use ciss.KindSpec.{kind_spec, permanent, erasable, point_only, listable}
use ciss.Chain.{ChainEntry, recompute_total}
use ciss.Store.{Store}
use ciss.Store.Assertions.{delete_assertion, list_assertion_subkeys}
use ciss.Store.Chains.{chain_entries, compact_behind_latest_checkpoint}
use ciss.Server.{
  ServerError, bad_assertion, chain_broken, erasure_not_allowed, enumeration_not_allowed, not_found,
}
use ciss.Server.Assertions.{is_chain_kind, lift_break}

unfoldable pub op_delete_assertion :
    Store → String → String → Option String → Store × Result ServerError (Unit {0})
op_delete_assertion s did kind subkey = elim (kind_spec kind) [
  | none ↦ (s, err (bad_assertion "unknown assertion kind"))
  | some spec ↦ elim spec.erasure [
    | permanent ↦ (s, err (erasure_not_allowed kind))
    | erasable ↦
        let (found, erased) = delete_assertion s did kind subkey in
        (erased, if found then ok tt else err not_found)
  ]
]

unfoldable pub op_list_assertions : Store → String → String → Result ServerError (List String)
op_list_assertions s did kind = elim (kind_spec kind) [
  | none ↦ err (bad_assertion "unknown assertion kind")
  | some spec ↦ elim spec.enumeration [
    | point_only ↦ err (enumeration_not_allowed kind)
    | listable ↦ ok (list_assertion_subkeys s did kind)
  ]
]

module _ ⦃p : Primitives⦄ where
  -- The texts of the records and the total, before they are written as JSON.
  unfoldable pub op_get_chain :
      Store → String → String → Option String → Result ServerError (List String × ℕ)
  op_get_chain s did kind subkey =
      refuse_if (not (is_chain_kind kind)) (bad_assertion "kind does not support a chain read")
      >> lift_break (
          recompute_total
            (map (λ (e : ChainEntry × String). e.0) (chain_entries s did kind subkey)))
      >>= λ total.
          ok (map (λ (e : ChainEntry × String). e.1) (chain_entries s did kind subkey), total)

unfoldable pub op_compact_chain :
    Store → String → String → Option String → Store × Result ServerError ℕ
op_compact_chain s did kind subkey =
    if not (is_chain_kind kind)
    then (s, err (bad_assertion "kind does not support compaction"))
    else let (compacted, after) = compact_behind_latest_checkpoint s did kind subkey in
      elim compacted [
        | some behind ↦ (after, ok behind)
        | none ↦ (after, err (chain_broken "no acknowledged checkpoint to compact behind"))
      ]
