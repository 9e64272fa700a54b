-- ===== src/Auth/Token.antt =====
-- crates/ciss-auth/src/service_jwt.rs and src/server.rs: what a token that authenticates has proved.
use ciss.Prelude.{
  ℕ, ◌<◌, String, ◌≡◌, sym, ap, ◌∙◌, subst, Bool, true, false, not, ◌&&◌, Option, none, some, ◌∷◌,
  ◌++◌, leb, str_eq, str_eq→eq, ok, ◌>>=◌, >>=-eq-ok, ok-injective, refuse_if, ok_or, inl, inr,
  arith, Option-cases, Result-cases,
}
use ciss.Crypto.{Bytes}
use ciss.Identifiers.{parse_did, require_atproto}
use ciss.Server.{authenticated}
use ciss.Auth.{
  ReplayGuard, check_and_record, Curve, Claims, Curves, from_did_key, verify_with, split_dots,
  three_parts, ServiceAuthParams, Verified, is_method, check_claims, verify_service_auth_jwt,
  peek_iss, verify_refreshed, admit, verify_service_auth_full,
}

module _ ⦃curves : Curves⦄ where
  is_method-some : (lxm : String) (o : Option String) → is_method lxm o ≡ true → o ≡ some lxm
  is_method-some lxm none h = cc
  is_method-some lxm (some m) h = ap some (str_eq→eq m lxm h)

  check_claims-ok :
      (params : ServiceAuthParams) (claims : Claims) (v : Verified)
      → check_claims params claims ≡ ok v
      → (claims.iss ≡ params.expected_iss)
        × (claims.aud ≡ params.expected_aud)
        × (claims.lxm ≡ some params.expected_lxm)
        × (params.now_unix_s < claims.exp)
        × (v ≡ record { did = claims.iss; jti = claims.jti; exp_unix_s = claims.exp })
  unfolding check_claims
  check_claims-ok params claims v h =
      let (_, iss, h1) =
        >>=-eq-ok (refuse_if (not (str_eq claims.iss params.expected_iss)) _) _ h in
      let (_, aud, h2) =
        >>=-eq-ok (refuse_if (not (str_eq claims.aud params.expected_aud)) _) _ h1 in
      let (_, lxm, h3) =
        >>=-eq-ok (refuse_if (not (is_method params.expected_lxm claims.lxm)) _) _ h2 in
      let (_, exp, h4) = >>=-eq-ok (refuse_if (leb claims.exp params.now_unix_s) _) _ h3 in
      (
        str_eq→eq claims.iss params.expected_iss (ground (arith, iss)),
        str_eq→eq claims.aud params.expected_aud (ground (arith, aud)),
        is_method-some params.expected_lxm claims.lxm (ground (arith, lxm)),
        ground (arith, exp),
        sym (ok-injective h4),
      )

  verify_with-ok :
      (key : Curve × curves.Key) (input signature : Bytes)
      → verify_with key input signature ≡ ok tt
      → (sig : curves.Sig) × (curves.sig_from_slice key.0 signature ≡ some sig)
        × (curves.is_high_s key.0 sig ≡ false)
        × (curves.verify_sig key.0 key.1 input sig ≡ true)
  unfolding verify_with
  verify_with-ok (curve, vk) input signature h =
      let (sig, read, h1) = >>=-eq-ok (ok_or (curves.sig_from_slice curve signature) _) _ h in
      let (_, low, h2) = >>=-eq-ok (refuse_if (curves.is_high_s curve sig) _) _ h1 in
      (sig, ground (arith, read), ground (arith, low), ground (arith, h2))

  -- A token that verifies under a key has three parts; the third decodes to bytes that read as a
  -- signature of that key's curve, which is low-S and verifies over the first two parts; and the second
  -- holds claims that name the expected issuer, this service and the
  -- called method and have not expired; what is handed on are the issuer, the id and the expiry.
  pub verify_service_auth_jwt_sound :
      (jwt : Bytes) (signing_key : String) (params : ServiceAuthParams) (v : Verified)
      → verify_service_auth_jwt jwt signing_key params ≡ ok v
      → (h : Bytes) × (payload : Bytes) × (s : Bytes) × (key : Curve × curves.Key)
        × (signature : Bytes) × (sig : curves.Sig) × (claims : Claims) × (three_parts
              (split_dots jwt)
            ≡ ok (h, payload, s))
        × (from_did_key signing_key ≡ ok key)
        × (curves.decode_base64 s ≡ some signature)
        × (curves.sig_from_slice key.0 signature ≡ some sig)
        × (curves.is_high_s key.0 sig ≡ false)
        × (curves.verify_sig key.0 key.1 (h ++ b'.' ∷ payload) sig ≡ true)
        × (curves.claims_from payload ≡ some claims)
        × (claims.iss ≡ params.expected_iss)
        × (claims.aud ≡ params.expected_aud)
        × (claims.lxm ≡ some params.expected_lxm)
        × (params.now_unix_s < claims.exp)
        × (v ≡ record { did = claims.iss; jti = claims.jti; exp_unix_s = claims.exp })
  unfolding verify_service_auth_jwt
  verify_service_auth_jwt_sound jwt signing_key params v h =
      let ((hd, payload, s), parts, h1) = >>=-eq-ok (three_parts (split_dots jwt)) _ h in
      let (alg, _, h2) = >>=-eq-ok (ok_or (curves.header_alg hd) _) _ h1 in
      let (_, _, h3) =
        >>=-eq-ok (refuse_if (not (str_eq alg "ES256K") && not (str_eq alg "ES256")) _) _ h2 in
      let (signature, decoded, h4) = >>=-eq-ok (ok_or (curves.decode_base64 s) _) _ h3 in
      let (key, is_key, h5) = >>=-eq-ok (from_did_key signing_key) _ h4 in
      let (_, signed, h6) = >>=-eq-ok (verify_with key (hd ++ b'.' ∷ payload) signature) _ h5 in
      let (claims, read, h7) = >>=-eq-ok (ok_or (curves.claims_from payload) _) _ h6 in
      let (sig, slice, low, valid) = verify_with-ok key (hd ++ b'.' ∷ payload) signature signed in
      let (iss, aud, lxm, exp, made) = check_claims-ok params claims v h7 in
      (
        hd,
        payload,
        s,
        key,
        signature,
        sig,
        claims,
        parts,
        is_key,
        ground (arith, decoded),
        slice,
        low,
        valid,
        ground (arith, read),
        iss,
        aud,
        lxm,
        exp,
        made,
      )

  verify_refreshed-ok :
      (resolve : String → Bool → Option String) (jwt : Bytes) (iss : String)
      (params : ServiceAuthParams) (v : Verified)
      → verify_refreshed resolve jwt iss params ≡ some v
      → (refreshed : Bool) × (key : String) × (resolve iss refreshed ≡ some key)
        × (verify_service_auth_jwt jwt key params ≡ ok v)
  unfolding verify_refreshed
  verify_refreshed-ok resolve jwt iss params v h = elim (Option-cases (resolve iss false)) [
    | inl unknown ↦ absurd (ground (arith, unknown, h))
    | inr (key, found) ↦ elim (Result-cases (verify_service_auth_jwt jwt key params)) [
      | inl (w, good) ↦
          let same : w ≡ v = ground (arith, found, good, h) in
          (false, key, found, good ∙ ap ok same)
      | inr (e, bad) ↦ elim (Option-cases (resolve iss true)) [
        | inl gone ↦ absurd (ground (arith, found, bad, gone, h))
        | inr (fresh, again) ↦ elim (Result-cases (verify_service_auth_jwt jwt fresh params)) [
          | inr (f, worse) ↦ absurd (ground (arith, found, bad, again, worse, h))
          | inl (w, good) ↦
              let same : w ≡ v = ground (arith, found, bad, again, good, h) in
              (true, fresh, again, good ∙ ap ok same)
        ]
      ]
    ]
  ]

  admit-ok :
      (seen : ReplayGuard) (now : ℕ) (v : Verified) (did : String)
      → (admit seen now v).1 ≡ authenticated did
      → v.did ≡ did
  unfolding admit
  admit-ok seen now v did h = elim (Option-cases v.jti) [
    | inl bare ↦ ground (arith, bare, h)
    | inr (jti, there) ↦ elim (Result-cases (check_and_record seen jti v.exp_unix_s now).1) [
      | inr (e, seen_before) ↦ absurd (ground (arith, there, seen_before, h))
      | inl (_, new) ↦ ground (arith, there, new, h)
    ]
  ]

  -- A bearer token authenticates a DID only if that DID is of the atproto space and the token verifies,
  -- for this service and the called method and at this time, under a key that the resolver gave for
  -- that very DID, from its cache or refreshed.
  pub verify_service_auth_full_sound :
      (resolve : String → Bool → Option String) (service_did : String) (seen : ReplayGuard)
      (jwt : Bytes) (lxm : String) (now : ℕ) (did : String)
      → (verify_service_auth_full resolve service_did seen jwt lxm now).1 ≡ authenticated did
      → (refreshed : Bool) × (key : String) × (v : Verified) × ((parse_did did >>= require_atproto)
          ≡ ok tt)
        × (resolve did refreshed ≡ some key)
        × (verify_service_auth_jwt jwt key (record {
          expected_iss = did;
          expected_aud = service_did;
          expected_lxm = lxm;
          now_unix_s = now;
        })
            ≡ ok v)
  unfolding verify_service_auth_full
  verify_service_auth_full_sound resolve service_did seen jwt lxm now did h =
      elim (Result-cases (peek_iss jwt)) [
        | inr (e, torn) ↦ absurd (ground (arith, torn, h))
        | inl (iss, peeked) ↦ elim (Result-cases (parse_did iss >>= require_atproto)) [
          | inr (e, foreign) ↦ absurd (ground (arith, peeked, foreign, h))
          | inl (_, space) ↦
              let params : ServiceAuthParams = record {
                expected_iss = iss;
                expected_aud = service_did;
                expected_lxm = lxm;
                now_unix_s = now;
              } in
              elim (Option-cases (verify_refreshed resolve jwt iss params)) [
                | inl refused ↦ absurd (ground (arith, peeked, space, refused, h))
                | inr (v, verified) ↦
                    let granted : (admit seen now v).1 ≡ authenticated did =
                      ground (arith, peeked, space, verified, h) in
                    let (refreshed, key, found, good) =
                      verify_refreshed-ok resolve jwt iss params v verified in
                    let (_, _, _, _, _, _, claims, _, _, _, _, _, _, _, is_iss, _, _, _, made) =
                      verify_service_auth_jwt_sound jwt key params v good in
                    let same : iss ≡ did =
                      sym is_iss
                      ∙ ap (λ (x : Verified). x.did) (sym made)
                      ∙ admit-ok seen now v did granted in
                    subst
                      (λ d.
                        (refreshed : Bool) × (key : String) × (v : Verified) × ((parse_did d
                            >>= require_atproto)
                          ≡ ok tt)
                        × (resolve d refreshed ≡ some key)
                        × (verify_service_auth_jwt jwt key (record {
                          expected_iss = d;
                          expected_aud = service_did;
                          expected_lxm = lxm;
                          now_unix_s = now;
                        })
                            ≡ ok v))
                      same (refreshed, key, v, space, found, good)
              ]
        ]
      ]
