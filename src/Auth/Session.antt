-- ===== src/Auth/Session.antt =====
-- crates/ciss-auth/src/lib.rs: a session is authenticated as the DID of a key that signed it.
use ciss.Prelude.{
  String, ◌≡◌, refl, sym, ap, ◌∙◌, subst, true, not, Option, none, some, [], ◌∷◌, str_eq, str_eq→eq,
  ok, >>=-eq-ok, ok-injective, refuse_if, ok_or, inl, inr, arith, Result-cases,
}
use ciss.Prelude.Text.{as_bytes, concat}
use ciss.Crypto.{Primitives, Bytes, derive_id, public_key_from_hex}
use ciss.Server.{Principal, anonymous, authenticated}
use ciss.Auth.{parse_public_key, verify_session, authenticate, session_challenge_prefix}

module _ ⦃p : Primitives⦄ where
  -- A session that verifies is the claimed DID's: the key derives that DID, and its strict signature
  -- stands over the challenge.
  verify_session-ok :
      (did pubkey_hex : String) (challenge : Bytes) (sig_hex : String) (principal : Principal)
      → verify_session did pubkey_hex challenge sig_hex ≡ ok principal
      → (key : p.VerifyingKey) × (signature_bytes : Bytes) × (signature : p.Signature)
        × (parse_public_key pubkey_hex ≡ ok key)
        × (derive_id key ≡ did)
        × (p.hex_decode sig_hex ≡ some signature_bytes)
        × (p.signature_from_slice signature_bytes ≡ some signature)
        × (p.verify_strict key challenge signature ≡ true)
        × (principal ≡ authenticated did)
  unfolding verify_session
  verify_session-ok did pubkey_hex challenge sig_hex principal h =
      let (key, parsed, h1) = >>=-eq-ok (parse_public_key pubkey_hex) _ h in
      let (_, derived, h2) = >>=-eq-ok (refuse_if (not (str_eq (derive_id key) did)) _) _ h1 in
      let (bytes, decoded, h3) = >>=-eq-ok (ok_or (p.hex_decode sig_hex) _) _ h2 in
      let (signature, read, h4) = >>=-eq-ok (ok_or (p.signature_from_slice bytes) _) _ h3 in
      let (_, verified, h5) =
        >>=-eq-ok (refuse_if (not (p.verify_strict key challenge signature)) _) _ h4 in
      (
        key,
        bytes,
        signature,
        parsed,
        str_eq→eq (derive_id key) did (ground (arith, derived)),
        ground (arith, decoded),
        ground (arith, read),
        ground (arith, verified),
        sym (ok-injective h5),
      )

  abbrev principal_did : Principal → String
  principal_did anonymous = ""
  principal_did (authenticated did) = did

  anonymous-not : (did : String) → ◌≡◌ {A = Principal} anonymous (authenticated did) → ⊥
  anonymous-not did h = cc

  -- A request that is authenticated as a DID carried a public key that derives that DID and is neither
  -- weak nor encoded in another than the canonical way, and a signature that verifies strictly under
  -- that key over the challenge of that DID.
  pub authenticate_sound :
      (pubkey sig : Option String) (did : String)
      → authenticate pubkey sig ≡ authenticated did
      → (pubkey_hex : String) × (key : p.VerifyingKey) × (signature : p.Signature) × (pubkey
          ≡ some pubkey_hex)
        × (parse_public_key pubkey_hex ≡ ok key)
        × (derive_id key ≡ did)
        × (p.verify_strict key (as_bytes (concat (session_challenge_prefix ∷ did ∷ []))) signature
            ≡ true)
  unfolding authenticate
  authenticate_sound none sig did h = absurd (anonymous-not did h)
  authenticate_sound (some pubkey_hex) none did h = absurd (anonymous-not did h)
  authenticate_sound (some pubkey_hex) (some sig_hex) did h =
      elim (Result-cases (public_key_from_hex pubkey_hex)) [
        | inr (e, failed) ↦ absurd (ground (arith, failed, h))
        | inl (key, read) ↦
            let own = derive_id key in
            let challenge = as_bytes (concat (session_challenge_prefix ∷ own ∷ [])) in
            elim (Result-cases (verify_session own pubkey_hex challenge sig_hex)) [
              | inr (e, refused) ↦ absurd (ground (arith, read, refused, h))
              | inl (principal, verified) ↦
                  let (k, bytes, signature, parsed, derived, _, _, strict, is_own) =
                    verify_session-ok own pubkey_hex challenge sig_hex principal verified in
                  let same : principal ≡ authenticated did = ground (arith, read, verified, h) in
                  let here : own ≡ did = ap principal_did (sym is_own ∙ same) in
                  (
                    pubkey_hex,
                    k,
                    signature,
                    refl,
                    parsed,
                    derived ∙ here,
                    subst
                        (λ d.
                          p.verify_strict k (as_bytes (concat (session_challenge_prefix ∷ d ∷ [])))
                            signature
                          ≡ true)
                        here strict,
                  )
            ]
      ]
