-- ===== src/Auth.antt =====
-- crates/ciss-auth and its use in src/server.rs: who makes a request. The crates below (base64, serde,
-- multibase, k256 and p256) are the parameter `Curves`; the resolver of DIDs is a function; the clock is
-- an argument. The guard's mutex makes each call one step.
pub mod Replay
pub mod Session
pub mod Token
use ciss.Prelude.{
  ℕ, ◌+◌, String, Bool, true, false, not, ◌&&◌, ◌||◌, Option, none, some, List, [], ◌∷◌, ◌++◌, ◌==◌,
  ltb, leb, retain, str_eq, length, if◌then◌else◌, Result, ok, err, ◌>>=◌, ◌>>◌, ok_or, refuse_if,
}
use ciss.Prelude.Map
use ciss.Prelude.Map.{Map}
use ciss.Prelude.Text.{as_bytes, concat}
use ciss.Crypto.{Primitives, Bytes, derive_id, public_key_from_hex}
use ciss.Identifiers.{parse_did, require_atproto, strip_prefix}
use ciss.Server.{Principal, anonymous, authenticated}

pub data JwtError : Type 0 where
  bad_did_key unsupported_key_type bad_signature malleable_signature signature_invalid : JwtError
  bad_jwt_structure bad_header bad_claims wrong_issuer wrong_audience wrong_method : JwtError
  expired replayed : JwtError

pub data AuthError : Type 0 where
  bad_key_hex bad_key_len bad_key bad_signature_hex bad_session_signature did_mismatch : AuthError
  unverified : AuthError

-- replay.rs: the seen tokens, each with its expiry.
abbrev pub ReplayGuard : Type 0
ReplayGuard = Map ℕ

unfoldable pub check_and_record :
    ReplayGuard → String → ℕ → ℕ → ReplayGuard × Result JwtError (Unit {0})
check_and_record seen jti exp_unix_s now_unix_s =
    let live : ReplayGuard = retain (λ (e : String × ℕ). ltb now_unix_s e.1) seen in
    if Map.contains_key jti live
    then (live, err replayed)
    else (Map.upsert jti exp_unix_s live, ok tt)

-- lib.rs
module _ ⦃p : Primitives⦄ where
  open p use {
    hex_decode, VerifyingKey, verifying_key_from_bytes, verifying_key_to_bytes, is_weak, bytes_eq,
    signature_from_slice, verify_strict,
  }

  unfoldable pub parse_public_key : String → Result AuthError VerifyingKey
  parse_public_key public_key_hex = elim (hex_decode public_key_hex) [
    | none ↦ err bad_key_hex
    | some bytes ↦
        if not (length bytes == 32)
        then err bad_key_len
        else elim (verifying_key_from_bytes bytes) [
          | none ↦ err bad_key
          | some key ↦
              if not (bytes_eq (verifying_key_to_bytes key) bytes) || is_weak key
              then err bad_key
              else ok key
        ]
  ]

  unfoldable pub verify_session : String → String → Bytes → String → Result AuthError Principal
  unfolding parse_public_key
  verify_session claimed_did public_key_hex challenge signature_hex =
      parse_public_key public_key_hex >>= λ key.
      refuse_if (not (str_eq (derive_id key) claimed_did)) did_mismatch >>= λ _.
      ok_or (hex_decode signature_hex) bad_signature_hex >>= λ signature_bytes.
      ok_or (signature_from_slice signature_bytes) bad_session_signature >>= λ signature.
      refuse_if (not (verify_strict key challenge signature)) unverified >>= λ _.
      ok (authenticated claimed_did)

  abbrev pub session_challenge_prefix : String
  session_challenge_prefix = "ciss-session/v1/"

  -- `authenticate`, on the two headers of a session.
  unfoldable pub authenticate : Option String → Option String → Principal
  unfolding verify_session
  authenticate none sig_hex = anonymous
  authenticate (some pubkey_hex) none = anonymous
  authenticate (some pubkey_hex) (some sig_hex) = elim (public_key_from_hex pubkey_hex) [
    | err _ ↦ anonymous
    | ok key ↦
        let did = derive_id key in
        let challenge = as_bytes (concat (session_challenge_prefix ∷ did ∷ [])) in
        elim (verify_session did pubkey_hex challenge sig_hex) [
          | err _ ↦ anonymous
          | ok principal ↦ principal
        ]
  ]

pub data Curve : Type 0 where
  secp256k1 p256 : Curve

-- `Claims` of service_jwt.rs.
pub record Claims : Type 0 where
  pub iss : String
  pub aud : String
  pub lxm : Option String
  pub exp : ℕ
  pub jti : Option String

pub record Curves : Type 1 where
  pub Key : Type 0
  pub Sig : Type 0
  pub multibase_decode : Bytes → Option Bytes
  pub key_from_sec1 : Curve → Bytes → Option Key
  pub sig_from_slice : Curve → Bytes → Option Sig
  pub is_high_s : Curve → Sig → Bool
  pub verify_sig : Curve → Key → Bytes → Sig → Bool
  -- base64url behind the segments of a token, and the JSON in two of them
  pub decode_base64 : Bytes → Option Bytes
  pub header_alg : Bytes → Option String
  pub claims_from : Bytes → Option Claims
  pub iss_from : Bytes → Option String

module _ ⦃curves : Curves⦄ where
  open curves use {
    Key, Sig, multibase_decode, key_from_sec1, sig_from_slice, is_high_s, verify_sig, decode_base64,
    header_alg, claims_from, iss_from,
  }

  -- did_key.rs: `from_did_key`, then `verify`.
  unfoldable pub from_did_key : String → Result JwtError (Curve × Key)
  from_did_key did_key =
      ok_or (strip_prefix (as_bytes "did:key:") (as_bytes did_key)) bad_did_key >>= λ multikey.
      ok_or (multibase_decode multikey) bad_did_key >>= λ bytes.
      elim (strip_prefix (0xe7 ∷ 0x01 ∷ []) bytes) [
        | some key ↦ ok_or (key_from_sec1 secp256k1 key) bad_did_key >>= λ vk. ok (secp256k1, vk)
        | none ↦ elim (strip_prefix (0x80 ∷ 0x24 ∷ []) bytes) [
          | some key ↦ ok_or (key_from_sec1 p256 key) bad_did_key >>= λ vk. ok (p256, vk)
          | none ↦ err unsupported_key_type
        ]
      ]

  unfoldable pub verify_with : Curve × Key → Bytes → Bytes → Result JwtError (Unit {0})
  verify_with (curve, vk) signing_input signature =
      ok_or (sig_from_slice curve signature) bad_signature >>= λ sig.
      refuse_if (is_high_s curve sig) malleable_signature >>= λ _.
      refuse_if (not (verify_sig curve vk signing_input sig)) signature_invalid

  unfoldable pub split_dots : Bytes → List Bytes
  split_dots [] = [] ∷ []
  split_dots (b ∷ rest) = elim (split_dots rest) [
    | [] ↦ []
    | part ∷ parts ↦ if b == b'.' then [] ∷ part ∷ parts else (b ∷ part) ∷ parts
  ]

  -- header.payload.signature, and nothing more.
  unfoldable pub three_parts : List Bytes → Result JwtError (Bytes × Bytes × Bytes)
  three_parts (h ∷ p ∷ s ∷ []) = ok (h, p, s)
  three_parts _ = err bad_jwt_structure

  pub record ServiceAuthParams : Type 0 where
    pub expected_iss : String
    pub expected_aud : String
    pub expected_lxm : String
    pub now_unix_s : ℕ

  pub record Verified : Type 0 where
    pub did : String
    pub jti : Option String
    pub exp_unix_s : ℕ

  abbrev pub is_method : String → Option String → Bool
  is_method lxm none = false
  is_method lxm (some m) = str_eq m lxm

  -- The checks on the claims, behind the signature.
  unfoldable pub check_claims : ServiceAuthParams → Claims → Result JwtError Verified
  check_claims params claims =
      refuse_if (not (str_eq claims.iss params.expected_iss)) wrong_issuer >>= λ _.
      refuse_if (not (str_eq claims.aud params.expected_aud)) wrong_audience >>= λ _.
      refuse_if (not (is_method params.expected_lxm claims.lxm)) wrong_method >>= λ _.
      refuse_if (leb claims.exp params.now_unix_s) expired >>= λ _.
      ok (record { did = claims.iss; jti = claims.jti; exp_unix_s = claims.exp })

  unfoldable pub verify_service_auth_jwt :
      Bytes → String → ServiceAuthParams → Result JwtError Verified
  unfolding three_parts split_dots from_did_key verify_with check_claims
  verify_service_auth_jwt jwt signing_key params = three_parts (split_dots jwt) >>= λ parts.
      ok_or (header_alg parts.0) bad_header >>= λ alg.
      refuse_if (not (str_eq alg "ES256K") && not (str_eq alg "ES256")) bad_header >>= λ _.
      ok_or (decode_base64 parts.2) bad_signature >>= λ signature.
      from_did_key signing_key >>= λ key.
      verify_with key (parts.0 ++ b'.' ∷ parts.1) signature >>= λ _.
      ok_or (claims_from parts.1) bad_claims >>= λ claims. check_claims params claims

  unfoldable pub peek_iss : Bytes → Result JwtError String
  unfolding three_parts split_dots
  peek_iss jwt = three_parts (split_dots jwt) >>= λ parts. ok_or (iss_from parts.1) bad_claims

  -- The first verification, and one retry with a refreshed key when only the signature failed.
  unfoldable pub verify_refreshed :
      (String → Bool → Option String) → Bytes → String → ServiceAuthParams → Option Verified
  unfolding verify_service_auth_jwt
  verify_refreshed resolve jwt iss params = elim (resolve iss false) [
    | none ↦ none
    | some key ↦ elim (verify_service_auth_jwt jwt key params) [
      | ok verified ↦ some verified
      | err signature_invalid ↦ elim (resolve iss true) [
        | none ↦ none
        | some fresh ↦ elim (verify_service_auth_jwt jwt fresh params) [
          | ok verified ↦ some verified
          | err _ ↦ none
        ]
      ]
      | err _ ↦ none
    ]
  ]

  -- A token with an id is good for one use.
  unfoldable pub admit : ReplayGuard → ℕ → Verified → ReplayGuard × Principal × Option String
  unfolding check_and_record
  admit seen now verified = elim verified.jti [
    | none ↦ (seen, authenticated verified.did, none)
    | some jti ↦
        let (seen', answer) = check_and_record seen jti verified.exp_unix_s now in
        elim answer [
          | err _ ↦ (seen', anonymous, none)
          | ok _ ↦ (seen', authenticated verified.did, some jti)
        ]
  ]

  unfoldable pub verify_service_auth_full :
      (String → Bool → Option String)
      → String
      → ReplayGuard
      → Bytes
      → String
      → ℕ
      → ReplayGuard × Principal × Option String
  unfolding peek_iss verify_refreshed admit
  verify_service_auth_full resolve service_did seen jwt lxm now = elim (peek_iss jwt) [
    | err _ ↦ (seen, anonymous, none)
    | ok iss ↦ elim (parse_did iss >>= require_atproto) [
      | err _ ↦ (seen, anonymous, none)
      | ok _ ↦
          let params : ServiceAuthParams = record {
            expected_iss = iss;
            expected_aud = service_did;
            expected_lxm = lxm;
            now_unix_s = now;
          } in
          elim (verify_refreshed resolve jwt iss params) [
            | none ↦ (seen, anonymous, none)
            | some verified ↦ admit seen now verified
          ]
    ]
  ]
