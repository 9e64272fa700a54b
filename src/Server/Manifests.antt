-- ===== src/Server/Manifests.antt =====
-- src/server.rs: `op_put_manifest` and `op_get_manifest`.
use ciss.Prelude.{
  false, ℕ, ◌≡◌, sym, ◌∙◌, ap, String, Bool, true, not, ◌&&◌, Option, none, some, ltb, str_eq,
  eq_iff, Result, ok, err, ok_or, ◌>>=◌, ◌>>◌, refuse_if, >>=-eq-ok, ok-injective, arith,
}
use ciss.Crypto.{Bytes, Primitives, public_key_from_hex, derive_id}
use ciss.Dials.{is_drawdown}
use ciss.Manifest.{SignedManifest, verify_manifest}
use ciss.Serde.{Serde}
use ciss.Store.{Store}
use ciss.Store.Manifests.{save_manifest, load_manifest, load_manifest-save_manifest}
use ciss.Store.Dials.{account_mode}
use ciss.Server.{
  ServerError, bad_manifest, bad_pubkey, did_key_mismatch, drawdown_active, assertion_stale,
  not_found, lift, lift-eq-ok,
}

-- What the server answers to an accepted manifest.
pub record ManifestSaved : Type 0 where
  pub root : String
  pub total_bytes : ℕ

abbrev pub existing_total : Option SignedManifest → ℕ
existing_total none = 0
existing_total (some m) = m.total_bytes

abbrev pub supersedes : SignedManifest → Option SignedManifest → Bool
supersedes m none = true
supersedes m (some existing) = ltb existing.seq m.seq

-- `map_err(|_| e)?`.
abbrev or_refuse {ℓ κ} : {E : Type ℓ} {A : Type κ} → Result E A → ServerError → Result ServerError A
or_refuse (ok a) e = ok a
or_refuse (err _) e = err e

or_refuse-ok {ℓ κ} :
    {E : Type ℓ} {A : Type κ} (m : Result E A) (e : ServerError) {a : A}
    → or_refuse m e ≡ ok a
    → m ≡ ok a
or_refuse-ok (ok a) e h = ap ok (ok-injective h)
or_refuse-ok (err _) e h = cc

module _ ⦃p : Primitives⦄ ⦃j : Serde⦄ where
  -- The checks that do not need the store: the key derives the DID, and the manifest is the DID's and
  -- verifies under the key.
  signed_by : String → p.VerifyingKey → SignedManifest → Result ServerError (Unit {0})
  signed_by did key m =
      refuse_if (not (str_eq (derive_id key) did)) did_key_mismatch
      >> refuse_if (not (str_eq m.signer_id did)) (bad_manifest "manifest signer_id is not the DID")
      >> refuse_if (not (verify_manifest key m)) (bad_manifest "manifest signature/root invalid")

  -- The checks against the stored manifest, under one lock with the save.
  replaces : Store → String → SignedManifest → Option SignedManifest → Result ServerError (Unit {0})
  replaces s did m existing =
      refuse_if (is_drawdown (account_mode s did) && ltb (existing_total existing) m.total_bytes)
        drawdown_active
      >> refuse_if (not (supersedes m existing)) (assertion_stale "manifest" m.seq)

  unfoldable pub op_put_manifest :
      Store → String → String → Bytes → Result ServerError (Store × ManifestSaved)
  unfolding signed_by replaces
  op_put_manifest s did pubkey_hex body =
      ok_or (j.manifest_from_slice body) (bad_manifest "body is not a valid manifest") >>= λ m.
      or_refuse (public_key_from_hex pubkey_hex) bad_pubkey >>= λ key. signed_by did key m >>= λ _.
      lift (load_manifest s did) >>= λ existing. replaces s did m existing >>= λ _.
      ok (save_manifest s did m, record { root = m.root; total_bytes = m.total_bytes })

  unfoldable pub op_get_manifest : Store → String → Result ServerError String
  op_get_manifest s did = lift (load_manifest s did) >>= λ found.
      ok_or found not_found >>= λ m. ok (j.manifest_text.to_text m)

  signed_by-ok :
      (did : String) (key : p.VerifyingKey) (m : SignedManifest)
      → signed_by did key m ≡ ok tt
      → (derive_id key ≡ did) × (m.signer_id ≡ did) × (verify_manifest key m ≡ true)
  unfolding signed_by
  signed_by-ok did key m h = (
    ground (arith, eq_iff (derive_id key) did),
    ground (arith, eq_iff m.signer_id did),
    ground arith,
  )

  replaces-ok :
      (s : Store) (did : String) (m : SignedManifest) (existing : Option SignedManifest)
      → replaces s did m existing ≡ ok tt
      → ((is_drawdown (account_mode s did) && ltb (existing_total existing) m.total_bytes) ≡ false)
        × (supersedes m existing ≡ true)
  unfolding replaces
  replaces-ok s did m existing h = (ground arith, ground arith)

  -- Nothing but the manifest is written.
  pub op_put_manifest-saves :
      (s s' : Store) (did pubkey_hex : String) (body : Bytes) {saved : ManifestSaved}
      → op_put_manifest s did pubkey_hex body ≡ ok (s', saved)
      → (m : SignedManifest) × (s' ≡ save_manifest s did m)
  unfolding op_put_manifest
  op_put_manifest-saves s s' did pubkey_hex body {saved} h =
      let (m, _, after_m) = >>=-eq-ok (ok_or (j.manifest_from_slice body) _) _ h in
      let (key, _, after_key) =
        >>=-eq-ok (or_refuse (public_key_from_hex pubkey_hex) bad_pubkey) _ after_m in
      let (_, _, after_signed) = >>=-eq-ok (signed_by did key m) _ after_key in
      let (existing, _, after_load) = >>=-eq-ok (lift (load_manifest s did)) _ after_signed in
      let (_, _, done) = >>=-eq-ok (replaces s did m existing) _ after_load in
      (m, ap (λ (u : Store × ManifestSaved). u.0) (sym (ok-injective done)))

  -- A manifest that is accepted verifies under a key that derives the DID, is stored, supersedes
  -- the one that it replaces, and is not larger than that one in drawdown.
  pub op_put_manifest_sound :
      (s s' : Store) (did pubkey_hex : String) (body : Bytes) {saved : ManifestSaved}
      → op_put_manifest s did pubkey_hex body ≡ ok (s', saved)
      → (m : SignedManifest) × (key : p.VerifyingKey) × (existing : Option SignedManifest)
        × (public_key_from_hex pubkey_hex ≡ ok key)
        × (derive_id key ≡ did)
        × (m.signer_id ≡ did)
        × (verify_manifest key m ≡ true)
        × (load_manifest s did ≡ ok existing)
        × (load_manifest s' did ≡ ok (some m))
        × (supersedes m existing ≡ true)
        × ((is_drawdown (account_mode s did) && ltb (existing_total existing) m.total_bytes)
            ≡ false)
  unfolding op_put_manifest
  op_put_manifest_sound s s' did pubkey_hex body {saved} h =
      let (m, _, after_m) = >>=-eq-ok (ok_or (j.manifest_from_slice body) _) _ h in
      let (key, parsed, after_key) =
        >>=-eq-ok (or_refuse (public_key_from_hex pubkey_hex) bad_pubkey) _ after_m in
      let (_, signed, after_signed) = >>=-eq-ok (signed_by did key m) _ after_key in
      let (existing, loaded, after_load) = >>=-eq-ok (lift (load_manifest s did)) _ after_signed in
      let (_, newer, done) = >>=-eq-ok (replaces s did m existing) _ after_load in
      let (derives, signer, verifies) = signed_by-ok did key m signed in
      let (shrinks, rises) = replaces-ok s did m existing newer in
      (
        m,
        key,
        existing,
        or_refuse-ok (public_key_from_hex pubkey_hex) bad_pubkey parsed,
        derives,
        signer,
        verifies,
        lift-eq-ok (load_manifest s did) loaded,
        ap (λ (u : Store × ManifestSaved). load_manifest u.0 did) (sym (ok-injective done))
            ∙ load_manifest-save_manifest s did m,
        rises,
        shrinks,
      )
