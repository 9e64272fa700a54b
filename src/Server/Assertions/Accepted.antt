-- ===== src/Server/Assertions/Accepted.antt =====
-- What `op_put_assertion` accepts and keeps.
use ciss.Prelude.{
  ◌≡◌, refl, sym, ◌∙◌, ap, inl, inr, String, false, Option, some, str_eq, Result, ok, Result-cases,
  Bool-cases, arith,
}
use ciss.Crypto.{Bytes, Primitives}
use ciss.KindSpec.{period_dial_kind}
use ciss.Assertion.{Ack, make_ack}
use ciss.Serde.{Serde}
use ciss.Store.{Store}
use ciss.Store.Assertions.{Record, save_assertion, load_assertion, assertion_json}
use ciss.Store.Meter.{running_totals}
use ciss.Store.Dials.{put_meta}
use ciss.Store.Assertions.Supersede.{load_assertion-save_assertion}
use ciss.Blobs.{BlobStore}
use ciss.Server.{ServerError, AppState}
use ciss.Server.Access.{AuthedWrite}
use ciss.Server.Assertions.{
  is_chain_kind, admit_record, commit_setting, start_period, saved_as, op_put_assertion,
  AssertionSaved,
}
use ciss.Server.Assertions.Admitted.{Admitted, admit_record-Admitted}

module _ ⦃p : Primitives⦄ ⦃b : BlobStore⦄ ⦃j : Serde⦄ where
  start_period-loads :
      (s : Store) (did : String) (saved : AssertionSaved) (d k : String) (sk : Option String)
      → load_assertion (start_period s did saved).0 d k sk ≡ load_assertion s d k sk
  unfolding start_period put_meta load_assertion assertion_json
  start_period-loads s did saved d k sk = elim (Result-cases (running_totals s did)) [
    | inr (e, bad) ↦ rw (start_period, bad) refl
    | inl (totals, good) ↦ rw (start_period, good) refl
  ]

  load_assertion-target :
      (s : Store) {d d' k k' : String} {sk sk' : Option String}
      → d ≡ d'
      → k ≡ k'
      → sk ≡ sk'
      → load_assertion s d' k' sk' ≡ load_assertion s d k sk
  load_assertion-target s {d} {d'} {k} {k'} {sk} e₁ e₂ e₃ = sym (
      ap (λ x. load_assertion s x k sk) e₁
      ∙ ap (λ x. load_assertion s d' x sk) e₂
      ∙ ap (λ x. load_assertion s d' k' x) e₃)

  commit_setting-loads :
      (s : Store) (did kind : String) (a : Record) (ack : Ack) {saved : AssertionSaved}
      → (commit_setting s did kind a ack).1 ≡ ok saved
      → load_assertion (commit_setting s did kind a ack).0 a.did a.kind a.subkey
        ≡ ok (some (a, ack))
  unfolding commit_setting
  commit_setting-loads s did kind a ack h = elim (Result-cases (save_assertion s a ack)) [
    | inr (e, bad) ↦ ground arith
    | inl (stored, good) ↦
        let loads = load_assertion-save_assertion s stored a ack good in
        elim (Bool-cases (str_eq kind period_dial_kind)) [
          | inl period ↦
              rw (commit_setting, good, period)
                (start_period-loads stored did (saved_as a ack) a.did a.kind a.subkey ∙ loads)
          | inr plain ↦ rw (commit_setting, good, plain) loads
        ]
  ]

  start_period-reports :
      (s : Store) (did : String) (report : AssertionSaved) {saved : AssertionSaved}
      → (start_period s did report).1 ≡ ok saved
      → saved ≡ report
  unfolding start_period
  start_period-reports s did report h = elim (Result-cases (running_totals s did)) [
    | inr (e, bad) ↦ absurd (ground (arith, bad, h))
    | inl (totals, good) ↦ ground (arith, good, h)
  ]

  commit_setting-reports :
      (s : Store) (did kind : String) (a : Record) (ack : Ack) {saved : AssertionSaved}
      → (commit_setting s did kind a ack).1 ≡ ok saved
      → saved ≡ saved_as a ack
  unfolding commit_setting
  commit_setting-reports s did kind a ack {saved} h = elim (Result-cases (save_assertion s a ack)) [
    | inr (e, bad) ↦ absurd (ground (arith, bad, h))
    | inl (stored, good) ↦ elim (Bool-cases (str_eq kind period_dial_kind)) [
      | inl period ↦
          start_period-reports stored did (saved_as a ack) (ground (arith, good, period, h))
      | inr plain ↦ ground (arith, good, plain, h)
    ]
  ]

  op_put_assertion-committed :
      (state : AppState) (did kind : String) (subkey : Option String) (body : Bytes)
      (authed : Option AuthedWrite) (a : Record)
      → is_chain_kind kind ≡ false
      → admit_record state did kind subkey body authed ≡ ok a
      → op_put_assertion state did kind subkey body authed
        ≡ commit_setting state.store did kind a
            (make_ack ⦃t = j.record_text⦄ a state.provider.attest_keypair)
  unfolding op_put_assertion
  op_put_assertion-committed state did kind subkey body authed a setting good =
      rw (op_put_assertion, good, setting) refl

  -- A setting, of a kind that is not kept as a chain, that the server reports as saved is a record
  -- for the target of the request whose body is one of its kind and within the bounds, whose number is
  -- above the stored one, and which verifies over the text of its body. The record that the server
  -- loads for that target afterwards is that one, with the provider's acknowledgment of it; and the
  -- report gives its number and that acknowledgment.
  pub op_put_assertion-saved :
      (state : AppState) (did kind : String) (subkey : Option String) (body : Bytes)
      (authed : Option AuthedWrite) {saved : AssertionSaved}
      → is_chain_kind kind ≡ false
      → (op_put_assertion state did kind subkey body authed).1 ≡ ok saved
      → (a : Record) × (ack : Ack) × Admitted state did kind subkey a
        × (ack ≡ make_ack ⦃t = j.record_text⦄ a state.provider.attest_keypair)
        × (load_assertion (op_put_assertion state did kind subkey body authed).0 did kind subkey
            ≡ ok (some (a, ack)))
        × (saved ≡ record { seq = a.seq; ack_json = j.record_text.ack_to_string ack })
  unfolding op_put_assertion Admitted
  op_put_assertion-saved state did kind subkey body authed setting h =
      elim (Result-cases (admit_record state did kind subkey body authed)) [
        | inr (e, refused) ↦ ground arith
        | inl (a, good) ↦
            let passed = admit_record-Admitted state did kind subkey body authed good in
            let ack = make_ack ⦃t = j.record_text⦄ a state.provider.attest_keypair in
            let is = op_put_assertion-committed state did kind subkey body authed a setting good in
            let reported =
              ap (λ (u : Store × Result ServerError AssertionSaved). u.1) (sym is) ∙ h in
            (
              a,
              ack,
              passed,
              refl,
              ap
                    (λ (u : Store × Result ServerError AssertionSaved).
                      load_assertion u.0 did kind subkey)
                    is
                  ∙ load_assertion-target (commit_setting state.store did kind a ack).0 passed.0
                      passed.1 passed.2
                  ∙ commit_setting-loads state.store did kind a ack reported,
              commit_setting-reports state.store did kind a ack reported,
            )
      ]
