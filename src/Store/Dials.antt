-- ===== src/Store/Dials.antt =====
-- src/persist.rs: the settings that the server reads back. A stored record that cannot be read counts
-- as the strictest setting.
pub mod Closed
use ciss.Prelude.{
  ℕ, zero, suc, ◌+◌, ◌-◌, ◌*◌, ◌^◌, String, Bool, true, false, not, ◌&&◌, Option, none, some, List,
  [], ◌∷◌, ltb, leb, str_eq, ◌==◌, if◌then◌else◌, any, Result, ok, err, ok_or, ◌>>=◌,
}
use ciss.Prelude.Map
use ciss.Prelude.Text.{concat, parse_u64}
use ciss.Policy.{PolicyBody, ResolvedPolicy, world_policy, deny, from_body}
use ciss.KindSpec.{policy_kind, ceiling_dial_kind, account_mode_dial_kind, receipt_mode_dial_kind}
use ciss.Dials.{
  CeilingDialBody, AccountMode, active, drawdown, AccountModeBody, ReceiptModeChoice, unilateral,
  bilateral, ReceiptModeBody,
}
use ciss.Serde.{Serde}
use ciss.Store.{PersistError, json, AssertionRow, Store}
use ciss.Store.Assertions.{Record, assertion_json}

unfoldable pub get_meta : Store → String → Option String
get_meta s key = Map.get key s.meta

unfoldable pub put_meta : Store → String → String → Store
put_meta s key value = record s { meta = Map.upsert key value s.meta }

unfoldable pub period_baseline : Store → String → Result PersistError ℕ
period_baseline s did = elim (get_meta s (concat ("period_baseline:" ∷ did ∷ []))) [
  | none ↦ ok 0
  | some v ↦ ok_or (parse_u64 v) json
]

unfoldable pub has_object_policies : Store → String → Bool
has_object_policies s did =
    any
      (λ (row : AssertionRow).
        str_eq row.did did && (str_eq row.kind policy_kind && not (str_eq row.subkey "")))
      s.assertion

module _ ⦃j : Serde⦄ where
  -- `serde_json::from_str::<SignedAssertion>(json).ok().and_then(|a| from_value(a.body).ok())`.
  unfoldable pub stored_body {ℓ} : {B : Type ℓ} → (j.Value → Option B) → String → Option B
  stored_body decode text = elim (j.record_text.from_str text) [
    | none ↦ none
    | some a ↦ decode a.body
  ]

  -- The value of a setting: a default with no record, a strict value with an unreadable one.
  unfoldable pub dial_value {ℓ κ} :
      {B : Type ℓ} {A : Type κ}
      → Store
      → String
      → String
      → (j.Value → Option B)
      → A
      → A
      → (B → A)
      → A
  dial_value s did kind decode default closed pick = elim (assertion_json s did kind none) [
    | none ↦ default
    | some texts ↦ elim (stored_body decode texts.0) [ none ↦ closed | some b ↦ pick b ]
  ]

  unfoldable pub resolved_from_json : String → ResolvedPolicy
  resolved_from_json text = elim (stored_body j.policy_body text) [
    | none ↦ deny
    | some b ↦ from_body b
  ]

  unfoldable pub resolve_object_policy : Store → String → String → Option ResolvedPolicy
  resolve_object_policy s did cid = elim (assertion_json s did policy_kind (some cid)) [
    | none ↦ none
    | some texts ↦ some (resolved_from_json texts.0)
  ]

  namespace_policy : Store → String → ResolvedPolicy
  namespace_policy s did = elim (assertion_json s did policy_kind none) [
    | none ↦ world_policy
    | some texts ↦ resolved_from_json texts.0
  ]

  unfoldable pub resolve_policy : Store → String → Option String → ResolvedPolicy
  unfolding namespace_policy
  resolve_policy s did none = namespace_policy s did
  resolve_policy s did (some cid) = elim (resolve_object_policy s did cid) [
    | some p ↦ p
    | none ↦ namespace_policy s did
  ]

  unfoldable pub at_rest_dial : Store → String → Option ℕ
  at_rest_dial s did =
      dial_value s did ceiling_dial_kind j.ceiling_dial_body none (some 0) (λ b. b.at_rest_bytes)

  unfoldable pub spend_dial : Store → String → Option ℕ
  spend_dial s did =
      dial_value s did ceiling_dial_kind j.ceiling_dial_body none (some 0) (λ b. b.spend_cents)

  unfoldable pub account_mode : Store → String → AccountMode
  account_mode s did =
      dial_value s did account_mode_dial_kind j.account_mode_body active drawdown (λ b. b.mode)

  unfoldable pub receipt_mode_dial : Store → String → ReceiptModeChoice
  receipt_mode_dial s did =
      dial_value s did receipt_mode_dial_kind j.receipt_mode_body unilateral bilateral (λ b. b.mode)
