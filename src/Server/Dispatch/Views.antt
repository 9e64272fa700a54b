-- ===== src/Server/Dispatch/Views.antt =====
-- src/server.rs: what a stranger learns of a setting.
use ciss.Prelude.{
  String, ◌≡◌, ap, ◌∙◌, true, false, Option, some, str_eq, str_eq→eq, ok, >>=-eq-ok, ok_or, inl,
  inr, arith, Bool-cases, Option-cases,
}
use ciss.KindSpec.{policy_kind}
use ciss.Policy.{is_caller, PolicyBody, allows, from_body}
use ciss.Assertion.{Ack}
use ciss.Serde.{Serde}
use ciss.Store.{Store}
use ciss.Store.Assertions.{Record, load_assertion}
use ciss.Server.{Principal, did_of, lift, lift-eq-ok}
use ciss.Server.Dispatch.{AssertionView, access, guest_view, op_get_assertion}

module _ ⦃j : Serde⦄ where
  -- A caller that is not the owner and is shown something of an assertion is shown only the read class
  -- of a stored policy that lets that very caller read: never the record, its readers or its
  -- acknowledgment, and nothing of any other kind.
  pub op_get_assertion-guest :
      (s : Store) (principal : Principal) (did kind : String) (subkey : Option String)
      (view : AssertionView)
      → is_caller (did_of principal) did ≡ false
      → op_get_assertion s principal did kind subkey ≡ ok view
      → (a : Record) × (ack : Ack) × (body : PolicyBody) × (load_assertion s did kind subkey
          ≡ ok (some (a, ack)))
        × (kind ≡ policy_kind)
        × (j.policy_body a.body ≡ some body)
        × (allows (from_body body) (did_of principal) did ≡ true)
        × (view ≡ access body.read_class)
  unfolding op_get_assertion guest_view
  op_get_assertion-guest s principal did kind subkey view guest h =
      let (loaded, read, h1) = >>=-eq-ok (lift (load_assertion s did kind subkey)) _ h in
      let (found, there, h2) = >>=-eq-ok (ok_or loaded _) _ h1 in
      let shown : guest_view (did_of principal) did kind found.0 ≡ ok view =
        ground (arith, guest, h2) in
      let stored : loaded ≡ some found = ground (arith, there) in
      elim (Bool-cases (str_eq kind policy_kind)) [
        | inr other ↦ absurd (ground (arith, other, shown))
        | inl right ↦ elim (Option-cases (j.policy_body found.0.body)) [
          | inl bad ↦ absurd (ground (arith, right, bad, shown))
          | inr (body, is_body) ↦
              elim (Bool-cases (allows (from_body body) (did_of principal) did)) [
                | inr closed ↦ absurd (ground (arith, right, is_body, closed, shown))
                | inl opened ↦ (
                  found.0,
                  found.1,
                  body,
                  lift-eq-ok (load_assertion s did kind subkey) read ∙ ap ok stored,
                  str_eq→eq kind policy_kind right,
                  is_body,
                  opened,
                  ground (arith, right, is_body, opened, shown),
                )
              ]
        ]
      ]
