-- ===== src/Assertion/Authority.antt =====
-- Who can author an assertion, and what an acknowledgment proves.
use ciss.Prelude.{
  ℕ, String, ◌≡◌, true, false, Option, arith, eq_iff, str_eq_refl, ok, Result-cases, inl, inr,
}
use ciss.Crypto.{
  Primitives, Keypair, verifying_key, public_key_hex, public_key_from_hex, verify_message,
  derive_id, verify_message-sign_message,
}
use ciss.Prelude.{◌||◌}
use ciss.Prelude.Text.{as_bytes}
use ciss.Identifiers.{Did, id, space, parse_did, is_empty}
use ciss.Assertion.{
  Authorization, owner_signed, provider_attested, SignedAssertion, RecordText, record_preimage,
  attest_preimage, subkey_well_formed, contains_colon, sign_owner, attest_provider, is_stale,
  authorizes, verify_assertion, make_ack, verify_ack,
}

module _ ⦃p : Primitives⦄ {V : Type 0} where
  -- What an authorization proves: the key whose fingerprint is the target signed this record, or
  -- the provider's attestation key signed it for the target.
  abbrev pub IsAuthored : SignedAssertion V → String → p.VerifyingKey → Authorization → Type 0
  IsAuthored a fold provider_key (owner_signed o) =
      (key : p.VerifyingKey) × (public_key_from_hex o.signer ≡ ok key)
      × (derive_id key ≡ a.did)
      × (verify_message key (record_preimage a.kind a.did a.subkey a.seq fold) o.sig ≡ true)
  IsAuthored a fold provider_key (provider_attested t) =
      (t.owner_did ≡ a.did)
      × (verify_message provider_key (attest_preimage a.kind t.owner_did a.did a.subkey a.seq fold)
            t.provider_sig
          ≡ true)

  authorizes-IsAuthored :
      (target : Did) (a : SignedAssertion V) (fold : String) (key : p.VerifyingKey)
      (z : Authorization)
      → authorizes target a fold key z ≡ true
      → IsAuthored a fold key z
  unfolding authorizes
  authorizes-IsAuthored target a fold key (owner_signed o) h =
      elim (Result-cases (public_key_from_hex o.signer)) [
        | inl (k, e) ↦ (k, e, ground (arith, e, eq_iff (derive_id k) a.did), ground (arith, e))
        | inr (x, e) ↦ ground (arith, e)
      ]
  authorizes-IsAuthored target a fold key (provider_attested t) h =
      ground (arith, eq_iff t.owner_did a.did)

  -- A record that verifies has a well-formed subkey, supersedes the prior record, and was authored
  -- by the key whose fingerprint is its DID, or attested for its DID by the provider.
  pub verify_assertion_sound :
      (a : SignedAssertion V) (fold : String) (prior : Option ℕ) (key : p.VerifyingKey)
      → verify_assertion a fold prior key ≡ true
      → (subkey_well_formed a.subkey ≡ true)
        × (is_stale a.seq prior ≡ false)
        × IsAuthored a fold key a.authorization
  unfolding verify_assertion
  verify_assertion_sound a fold prior key h = elim (Result-cases (parse_did a.did)) [
    | inl (d, e) ↦ (
      ground (arith, e),
      ground (arith, e),
      authorizes-IsAuthored d a fold key a.authorization (ground (arith, e)),
    )
    | inr (x, e) ↦ ground (arith, e)
  ]

  -- A record that the owner of an `id:` DID signs verifies, on a well-formed target and above the
  -- prior sequence number.
  pub verify_assertion-sign_owner :
      (kind did : String) (subkey : Option String) (seq : ℕ) (body : V) (fold : String)
      (k : Keypair) (prior : Option ℕ) (provider_key : p.VerifyingKey) (d : Did)
      → parse_did did ≡ ok d
      → space d ≡ id
      → (is_empty (as_bytes kind) || contains_colon kind) ≡ false
      → subkey_well_formed subkey ≡ true
      → is_stale seq prior ≡ false
      → public_key_from_hex (public_key_hex k) ≡ ok (verifying_key k)
      → derive_id (verifying_key k) ≡ did
      → verify_assertion (sign_owner kind did subkey seq body fold k) fold prior provider_key ≡ true
  unfolding verify_assertion sign_owner
  verify_assertion-sign_owner kind did subkey seq body fold k prior provider_key d pd sp hk hs fresh
        pk owns =
      ground (
        arith,
        eq_iff (derive_id (verifying_key k)) did,
        verify_message-sign_message k (record_preimage kind did subkey seq fold),
      )

  -- A record that the provider attests verifies under the provider's attestation key, on a
  -- well-formed target and above the prior sequence number.
  pub verify_assertion-attest_provider :
      (kind did : String) (subkey : Option String) (seq : ℕ) (body : V) (fold jti : String)
      (k : Keypair) (prior : Option ℕ) (d : Did)
      → parse_did did ≡ ok d
      → (is_empty (as_bytes kind) || contains_colon kind) ≡ false
      → subkey_well_formed subkey ≡ true
      → is_stale seq prior ≡ false
      → verify_assertion
          (attest_provider kind did subkey seq body fold jti k)
          fold
          prior
          (verifying_key k)
        ≡ true
  unfolding verify_assertion attest_provider
  verify_assertion-attest_provider kind did subkey seq body fold jti k prior d pd hk hs fresh =
      ground (
        arith,
        str_eq_refl did,
        verify_message-sign_message k (attest_preimage kind did did subkey seq fold),
      )

  -- The provider's acknowledgment of a record verifies under its attestation key.
  pub verify_ack-make_ack :
      ⦃t : RecordText V⦄ (a : SignedAssertion V) (k : Keypair)
      → verify_ack a (make_ack a k) (verifying_key k) ≡ true
  unfolding verify_ack make_ack
  verify_ack-make_ack a k = verify_message-sign_message k _
