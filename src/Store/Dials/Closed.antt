-- ===== src/Store/Dials/Closed.antt =====
-- What the settings come to: the last write decides, and an unreadable record closes.
use ciss.Prelude.{◌≡◌, sym, ◌∙◌, ap, String, Option, none, some, arith, ok}
use ciss.Policy.{deny, from_body}
use ciss.Assertion.{Ack}
use ciss.Serde.{Serde}
use ciss.Store.{Store}
use ciss.Store.Assertions.{Record, assertion_json, save_assertion}
use ciss.Store.Assertions.Supersede.{save_assertion-assertion_json}
use ciss.KindSpec.{policy_kind}
use ciss.Store.Dials.{
  stored_body, dial_value, resolved_from_json, resolve_policy, resolve_object_policy,
}

module _ ⦃j : Serde⦄ where
  -- A write that is taken gives the setting that its body decodes to, and the strict one when its
  -- body does not decode.
  pub dial_value-save_assertion {ℓ κ} :
      {B : Type ℓ} {A : Type κ} (s s' : Store) (a : Record) (ack : Ack)
      (decode : j.Value → Option B) (default closed : A) (pick : B → A)
      → a.subkey ≡ none
      → save_assertion s a ack ≡ ok s'
      → dial_value s' a.did a.kind decode default closed pick
        ≡ (elim (decode a.body) [ none ↦ closed | some b ↦ pick b ])
  unfolding dial_value stored_body
  dial_value-save_assertion s s' a ack decode default closed pick whole h =
      ground (arith, save_assertion-assertion_json s s' a ack h, j.record_text.from_str-to_string a)

  -- An object's policy that is taken is the policy in force for the object: the one in its body, and
  -- the owner-only policy when its body cannot be read.
  pub resolve_policy-save_assertion :
      (s s' : Store) (a : Record) (ack : Ack) (cid : String)
      → a.kind ≡ policy_kind
      → a.subkey ≡ some cid
      → save_assertion s a ack ≡ ok s'
      → resolve_policy s' a.did (some cid)
        ≡ (elim (j.policy_body a.body) [ none ↦ deny | some b ↦ from_body b ])
  unfolding resolve_policy resolve_object_policy resolved_from_json stored_body
  resolve_policy-save_assertion s s' a ack cid kind subkey h =
      let stored = save_assertion-assertion_json s s' a ack h in
      let here = ap (λ k. assertion_json s' a.did k a.subkey) kind in
      let there = ap (λ sk. assertion_json s' a.did policy_kind sk) subkey in
      ground (arith, sym there ∙ sym here ∙ stored, j.record_text.from_str-to_string a)
