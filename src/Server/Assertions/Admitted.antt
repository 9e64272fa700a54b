-- ===== src/Server/Assertions/Admitted.antt =====
-- What a record passes before `op_put_assertion` keeps it.
use ciss.Prelude.{
  ℕ, ltb, ◌≤◌, ◌<◌, ◌⊎◌, Option-cases, ◌≡◌, refl, sym, ◌∙◌, ap, subst, inl, inr, String, true,
  false, not, ◌&&◌, Option, none, some, str_eq, str_eq→eq, eq_iff, ok, ok_or, ◌>>◌, refuse_if,
  >>=-eq-ok, ok-injective, Bool-cases, arith,
}
use ciss.Crypto.{Bytes, Primitives, verifying_key}
use ciss.KindSpec.{KindSpec, kind_spec, ceiling_dial_kind}
use ciss.Dials.{CeilingDialBody}
use ciss.Assertion.{attest_provider, verify_assertion}
use ciss.Serde.{Serde}
use ciss.Store.{Store}
use ciss.Store.Assertions.{assertion_seq, Record}
use ciss.Blobs.{BlobStore}
use ciss.Server.{ServerError, Limits, AppState}
use ciss.Server.Access.{AuthedWrite}
use ciss.Server.KindFold.{kind_fold}
use ciss.Server.Assertions.{
  provider_at_rest_bound, opt_eq, intended, submitted, within_bounds, supersedes_stored,
  record_gates, admit_record,
}

opt_eq→eq : (a b : Option String) → opt_eq a b ≡ true → a ≡ b
opt_eq→eq none none h = refl
opt_eq→eq (some a) (some b) h = ap some (str_eq→eq a b h)
opt_eq→eq none (some b) h = cc
opt_eq→eq (some a) none h = cc

module _ ⦃p : Primitives⦄ ⦃b : BlobStore⦄ ⦃j : Serde⦄ where
  same_route :
      (r : Record) (did kind : String) (subkey : Option String) (e : ServerError)
      → refuse_if (not (str_eq r.did did && (str_eq r.kind kind && opt_eq r.subkey subkey))) e
        ≡ ok tt
      → (r.did ≡ did) × (r.kind ≡ kind) × (r.subkey ≡ subkey)
  same_route r did kind subkey e h = (
    ground (arith, eq_iff r.did did),
    ground (arith, eq_iff r.kind kind),
    opt_eq→eq r.subkey subkey (ground arith),
  )

  -- The record of an accepted request is for the target of the route.
  submitted-target :
      (state : AppState) (did kind : String) (subkey : Option String) (body : Bytes)
      (authed : Option AuthedWrite) {a : Record}
      → submitted state did kind subkey body authed ≡ ok a
      → (a.did ≡ did) × (a.kind ≡ kind) × (a.subkey ≡ subkey)
  unfolding submitted attest_provider
  submitted-target state did kind subkey body (some auth) h =
      let (intent, _, built) = >>=-eq-ok (intended did body auth) _ h in
      let (fold, _, done) = >>=-eq-ok (kind_fold kind subkey intent.1) _ built in
      (
        ap (λ (r : Record). r.did) (sym (ok-injective done)),
        ap (λ (r : Record). r.kind) (sym (ok-injective done)),
        ap (λ (r : Record). r.subkey) (sym (ok-injective done)),
      )
  submitted-target state did kind subkey body none h =
      let (r, _, checked) = >>=-eq-ok (ok_or (j.record_from_slice body) _) _ h in
      let (_, same, done) =
        >>=-eq-ok
          (refuse_if (not (str_eq r.did did && (str_eq r.kind kind && opt_eq r.subkey subkey))) _) _
          checked in
      let is = ok-injective done in
      let (d, k, sk) = same_route r did kind subkey _ same in
      (
        ap (λ (u : Record). u.did) (sym is) ∙ d,
        ap (λ (u : Record). u.kind) (sym is) ∙ k,
        ap (λ (u : Record). u.subkey) (sym is) ∙ sk,
      )

  record_gates-pass :
      (state : AppState) (did kind : String) (subkey : Option String) (fold : String) (a : Record)
      → record_gates state did kind subkey fold a ≡ ok tt
      → (within_bounds state.limits kind a.body ≡ ok tt)
        × (supersedes_stored state.store did kind subkey a.seq ≡ true)
        × (verify_assertion a fold none (verifying_key state.provider.attest_keypair) ≡ true)
  unfolding record_gates
  record_gates-pass state did kind subkey fold a h =
      let (_, first, last) =
        >>=-eq-ok
          (within_bounds state.limits kind a.body
            >> refuse_if (not (supersedes_stored state.store did kind subkey a.seq)) _)
          _ h in
      let (_, bounds, newer) = >>=-eq-ok (within_bounds state.limits kind a.body) _ first in
      (bounds, ground arith, ground arith)

  -- The body is no longer than its kind allows.
  abbrev pub FitsKind : Option KindSpec → ℕ → Type 0
  FitsKind none len = Unit
  FitsKind (some spec) len = len ≤ spec.sizing.body_ceiling

  -- A ceiling on the bytes at rest is no higher than the provider's.
  abbrev pub FitsBound : Limits → Option CeilingDialBody → Type 0
  FitsBound limits none = Unit
  FitsBound limits (some d) = elim d.at_rest_bytes [
    | none ↦ Unit
    | some asserted ↦ asserted ≤ provider_at_rest_bound limits
  ]

  abbrev pub Newer : Option ℕ → ℕ → Type 0
  Newer none seq = Unit
  Newer (some prior) seq = prior < seq

  within_bounds-FitsKind :
      (limits : Limits) (kind : String) (body : j.Value)
      → within_bounds limits kind body ≡ ok tt
      → FitsKind (kind_spec kind) (j.byte_len body)
  unfolding within_bounds
  within_bounds-FitsKind limits kind body h = elim (Option-cases (kind_spec kind)) [
    | inl unknown ↦ rw unknown tt
    | inr (spec, known) ↦
        rw known (elim (Bool-cases (ltb spec.sizing.body_ceiling (j.byte_len body))) [
          | inl long ↦ absurd (ground (arith, known, long, h))
          | inr short ↦ ground (arith, short)
        ])
  ]

  within_bounds-FitsBound :
      (limits : Limits) (kind : String) (body : j.Value) (d : CeilingDialBody) (asserted : ℕ)
      → within_bounds limits kind body ≡ ok tt
      → str_eq kind ceiling_dial_kind ≡ true
      → j.ceiling_dial_body body ≡ some d
      → d.at_rest_bytes ≡ some asserted
      → asserted ≤ provider_at_rest_bound limits
  unfolding within_bounds
  within_bounds-FitsBound limits kind body d asserted h ceiling read bound =
      elim (Option-cases (kind_spec kind)) [
        | inl unknown ↦ ground (arith, unknown, h, ceiling, read, bound)
        | inr (spec, known) ↦ elim (Bool-cases (ltb spec.sizing.body_ceiling (j.byte_len body))) [
          | inl long ↦ absurd (ground (arith, known, long, h))
          | inr short ↦ ground (arith, known, short, h, ceiling, read, bound)
        ]
      ]

  within_bounds-fits :
      (limits : Limits) (kind : String) (body : j.Value)
      → within_bounds limits kind body ≡ ok tt
      → FitsKind (kind_spec kind) (j.byte_len body)
        × ((str_eq kind ceiling_dial_kind ≡ false) ⊎ FitsBound limits (j.ceiling_dial_body body))
  within_bounds-fits limits kind body h = (
    within_bounds-FitsKind limits kind body h,
    elim (Bool-cases (str_eq kind ceiling_dial_kind)) [
      | inr plain ↦ inl plain
      | inl ceiling ↦ inr (elim (Option-cases (j.ceiling_dial_body body)) [
        | inl unread ↦ rw unread tt
        | inr (d, read) ↦ rw read (elim (Option-cases d.at_rest_bytes) [
          | inl free ↦ rw free tt
          | inr (asserted, bound) ↦
              rw bound (within_bounds-FitsBound limits kind body d asserted h ceiling read bound)
        ])
      ])
    ],
  )

  supersedes_stored-Newer :
      (s : Store) (did kind : String) (subkey : Option String) (seq : ℕ)
      → supersedes_stored s did kind subkey seq ≡ true
      → Newer (assertion_seq s did kind subkey) seq
  unfolding supersedes_stored
  supersedes_stored-Newer s did kind subkey seq h =
      elim (Option-cases (assertion_seq s did kind subkey)) [
        | inl first ↦ rw first tt
        | inr (prior, there) ↦ rw there (ground (arith, there, h))
      ]

  -- A record for this target that the provider may keep: its body is one of its kind and within the
  -- bounds, its number is above the stored one, and it verifies over the text of its body.
  unfoldable pub Admitted : AppState → String → String → Option String → Record → Type 0
  Admitted state did kind subkey a =
      (a.did ≡ did)
      × (a.kind ≡ kind)
      × (a.subkey ≡ subkey)
      × FitsKind (kind_spec kind) (j.byte_len a.body)
      × ((str_eq kind ceiling_dial_kind ≡ false)
          ⊎ FitsBound state.limits (j.ceiling_dial_body a.body))
      × Newer (assertion_seq state.store did kind subkey) a.seq
      × (fold : String) × (kind_fold kind subkey a.body ≡ ok fold)
      × (verify_assertion a fold none (verifying_key state.provider.attest_keypair) ≡ true)

  pub admit_record-Admitted :
      (state : AppState) (did kind : String) (subkey : Option String) (body : Bytes)
      (authed : Option AuthedWrite) {a : Record}
      → admit_record state did kind subkey body authed ≡ ok a
      → Admitted state did kind subkey a
  unfolding admit_record Admitted
  admit_record-Admitted state did kind subkey body authed {a} h =
      let (r, made, after_made) = >>=-eq-ok (submitted state did kind subkey body authed) _ h in
      let (fold, folded, checks) = >>=-eq-ok (kind_fold kind subkey r.body) _ after_made in
      let (_, gates, done) = >>=-eq-ok (record_gates state did kind subkey fold r) _ checks in
      let (d, k, sk) = submitted-target state did kind subkey body authed made in
      let (bounds, newer, verifies) = record_gates-pass state did kind subkey fold r gates in
      let (fits, bound) = within_bounds-fits state.limits kind r.body bounds in
      subst (Admitted state did kind subkey) (ok-injective done) (
        d,
        k,
        sk,
        fits,
        bound,
        supersedes_stored-Newer state.store did kind subkey r.seq newer,
        fold,
        folded,
        verifies,
      )
