-- ===== src/Examples/Guarded.antt =====
-- The claims on bearer tokens and on what a caller that is not the owner gets, on concrete inputs.
use ciss.Prelude.{
  ℕ, ◌<◌, ◌≡◌, ◌≢◌, refl, String, Bool, true, false, Option, none, some, [], ◌∷◌, ◌++◌, ◌==◌, ◌%◌,
  Result, ok, err, ◌>>=◌,
}
use ciss.Prelude.Map
use ciss.Prelude.Text.{as_bytes}
use ciss.Crypto.{Bytes, Keypair}
use ciss.Identifiers.{
  parse_did, require_atproto, space, strip_prefix, is_valid_did, is_msid_byte, split_once_colon,
}
use ciss.KindSpec.{policy_kind}
use ciss.Policy.{PolicyBody, grantees, allows, from_body}
use ciss.Compute.{new_ledger}
use ciss.Assertion.{Ack, owner_signed}
use ciss.Auth.{
  Curve, Claims, Curves, ServiceAuthParams, Verified, from_did_key, verify_with, split_dots,
  three_parts, check_claims, verify_service_auth_jwt, peek_iss, verify_refreshed, admit,
  check_and_record, verify_service_auth_full,
}
use ciss.Auth.Token.{verify_service_auth_jwt_sound, verify_service_auth_full_sound}
use ciss.Blobs.{MemoryBlobStore}
use ciss.Store.{Store, empty_store, clamp_i64}
use ciss.Store.Assertions.{
  Record, save_assertion, assertion_seq, load_assertion, assertion_json, row_of,
}
use ciss.Server.{Principal, anonymous, authenticated, on_ack, ServerError}
use ciss.Server.Access.{get_meter, put_object}
use ciss.Store.Meter.{running_totals}
use ciss.Store.Meter.Cache.{IsCached}
use ciss.Compute.Bounded.{IsBounded}
use ciss.Server.Dispatch.Runs.{Request, serve_all, serve_all-IsCached}
use ciss.Prelude.{arith, List}
use ciss.Server.Dispatch.{Serving, dispatch, AssertionView, access, guest_view, op_get_assertion}
use ciss.Server.Dispatch.Refused.{dispatch-stranger}
use ciss.Server.Dispatch.Views.{op_get_assertion-guest}
use ciss.Examples.Toy.{toy, checksum, first}
use ciss.Examples.Codec.{num, str}
use ciss.Examples.Settings.{toy_serde, toy_core}

abbrev plc : String
plc = "did:plc:abc"

abbrev the_claims : Claims
the_claims = record { iss = plc; aud = "did:web:ciss"; lxm = some "put"; exp = 100; jti = some "t" }

-- A signature is one byte: the key beside a checksum of the message.
abbrev checks : Curve → ℕ → Bytes → ℕ → Bool
checks c key message sig = sig == checksum key message % 16

abbrev toy_curves : Curves
toy_curves = record {
  Key = ℕ;
  Sig = ℕ;
  multibase_decode = λ bytes. some (0xe7 ∷ 0x01 ∷ bytes);
  key_from_sec1 = λ c bytes. some (first bytes);
  sig_from_slice = λ c bytes. some (first bytes);
  is_high_s = λ c sig. false;
  verify_sig = checks;
  decode_base64 = λ bytes. some bytes;
  header_alg = λ bytes. some "ES256K";
  claims_from = λ bytes. some the_claims;
  iss_from = λ bytes. some plc;
}

abbrev signing_key : String
signing_key = "did:key:z"

abbrev signed_part : Bytes
signed_part = b'h' ∷ b'.' ∷ b'p' ∷ []

abbrev token : Bytes
token = signed_part ++ b'.' ∷ (checksum b'z' signed_part % 16) ∷ []

abbrev params : ServiceAuthParams ⦃curves = toy_curves⦄
params = record {
  expected_iss = plc;
  expected_aud = "did:web:ciss";
  expected_lxm = "put";
  now_unix_s = 50;
}

abbrev the_verified : Verified ⦃curves = toy_curves⦄
the_verified = record { did = plc; jti = some "t"; exp_unix_s = 100 }

token_verified :
    verify_service_auth_jwt ⦃curves = toy_curves⦄ token signing_key params ≡ ok the_verified
unfolding verify_service_auth_jwt three_parts split_dots from_did_key verify_with check_claims
    strip_prefix as_bytes
token_verified = refl

verify_service_auth_jwt_sound_example :
    (h : Bytes) × (payload : Bytes) × (s : Bytes) × (key : Curve × ℕ) × (signature : Bytes)
    × (sig : ℕ) × (claims : Claims) × (three_parts ⦃curves = toy_curves⦄
          (split_dots ⦃curves = toy_curves⦄ token)
        ≡ ok (h, payload, s))
    × (from_did_key ⦃curves = toy_curves⦄ signing_key ≡ ok key)
    × (toy_curves.decode_base64 s ≡ some signature)
    × (toy_curves.sig_from_slice key.0 signature ≡ some sig)
    × (false ≡ false)
    × (checks key.0 key.1 (h ++ b'.' ∷ payload) sig ≡ true)
    × (◌≡◌ {A = Option Claims} (some the_claims) (some claims))
    × (claims.iss ≡ plc)
    × (claims.aud ≡ "did:web:ciss")
    × (claims.lxm ≡ some "put")
    × (50 < claims.exp)
    × (the_verified ≡ record { did = claims.iss; jti = claims.jti; exp_unix_s = claims.exp })
verify_service_auth_jwt_sound_example =
    verify_service_auth_jwt_sound ⦃curves = toy_curves⦄ token signing_key params the_verified
      token_verified

abbrev resolve : String → Bool → Option String
resolve did refreshed = some signing_key

token_admitted :
    (verify_service_auth_full ⦃curves = toy_curves⦄ resolve "did:web:ciss" [] token "put" 50).1
    ≡ authenticated plc
unfolding verify_service_auth_full verify_refreshed admit peek_iss verify_service_auth_jwt
    three_parts split_dots from_did_key verify_with check_claims strip_prefix as_bytes
    check_and_record Map.contains_key Map.get Map.upsert parse_did require_atproto space
    is_valid_did is_msid_byte split_once_colon
token_admitted = refl

verify_service_auth_full_sound_example :
    (refreshed : Bool) × (key : String) × (v : Verified ⦃curves = toy_curves⦄) × ((parse_did plc
        >>= require_atproto)
      ≡ ok tt)
    × (resolve plc refreshed ≡ some key)
    × (verify_service_auth_jwt ⦃curves = toy_curves⦄ token key params ≡ ok v)
verify_service_auth_full_sound_example =
    verify_service_auth_full_sound ⦃curves = toy_curves⦄ resolve "did:web:ciss" [] token "put" 50
      plc token_admitted

abbrev signer : Keypair ⦃p = toy⦄
signer = record { label = "provider"; signing_key = 4 }

abbrev serving : Serving ⦃p = toy⦄ ⦃b = MemoryBlobStore⦄ ⦃j = toy_serde⦄ ⦃c = toy_core⦄
serving = record {
  app = record {
    provider = record { id = "id:p"; keypair = signer; attest_keypair = signer };
    blobs = [];
    store = empty_store;
    limits = record { store_ceiling = 1000; did_cap = none };
    day = 0;
    admin_dids = [];
    admin_only_du = false;
    compaction = on_ack;
  };
  compute = new_ledger;
}

nothing-IsCached : IsCached ⦃j = toy_serde⦄ empty_store
unfolding IsCached running_totals Map.get
nothing-IsCached did = refl

no_callers-IsBounded : IsBounded new_ledger
unfolding IsBounded Map.contains_key Map.get
no_callers-IsBounded = (omega arith, λ k. refl)

-- The owner stores three bytes, and a stranger asks for the meter.
abbrev requests :
    List (Request ⦃p = toy⦄ ⦃b = MemoryBlobStore⦄ ⦃j = toy_serde⦄ ⦃c = toy_core⦄ (λ a b. true))
requests =
    record {
      principal = authenticated "id:a";
      op = put_object "id:a" "k" (1 ∷ 2 ∷ 3 ∷ []);
      micros = 7;
    }
    ∷ record { principal = anonymous; op = get_meter "id:a"; micros = 2 }
    ∷ []

serve_all-IsCached_example :
    IsCached ⦃j = toy_serde⦄
      (serve_all ⦃p = toy⦄ ⦃b = MemoryBlobStore⦄ ⦃j = toy_serde⦄ ⦃c = toy_core⦄
        (λ a b. true)
        requests
        serving).app.store
    × IsBounded
        (serve_all ⦃p = toy⦄ ⦃b = MemoryBlobStore⦄ ⦃j = toy_serde⦄ ⦃c = toy_core⦄
          (λ a b. true)
          requests
          serving).compute
serve_all-IsCached_example =
    serve_all-IsCached ⦃p = toy⦄ ⦃b = MemoryBlobStore⦄ ⦃j = toy_serde⦄ ⦃c = toy_core⦄ (λ a b. true)
      requests serving nothing-IsCached no_callers-IsBounded

nobody : ◌≢◌ {A = Principal} anonymous (authenticated "id:a")
nobody h = cc

dispatch-stranger_example :
    (e : ServerError) × (dispatch ⦃p = toy⦄ ⦃b = MemoryBlobStore⦄ ⦃j = toy_serde⦄ ⦃c = toy_core⦄
        (λ a b. true)
        serving
        anonymous
        (get_meter "id:a")
        5
      ≡ (serving, err e))
dispatch-stranger_example =
    dispatch-stranger ⦃p = toy⦄ ⦃b = MemoryBlobStore⦄ ⦃j = toy_serde⦄ ⦃c = toy_core⦄ (λ a b. true)
      serving anonymous (get_meter "id:a") 5 "id:a" refl nobody

abbrev open_policy : Record ⦃j = toy_serde⦄
open_policy = record {
  did = "id:a";
  kind = "policy";
  subkey = some "c1";
  seq = 4;
  body = num 1 ∷ str "id:b" ∷ [];
  authorization = owner_signed (record { signer = "k"; sig = "s" });
}

abbrev ack : Ack
ack = record { signer = "p"; sig = "t" }

abbrev store_or : {E : Type 0} → Result E Store → Store
store_or (ok s) = s
store_or (err _) = empty_store

abbrev with_policy : Store
with_policy = store_or (save_assertion ⦃j = toy_serde⦄ empty_store open_policy ack)

abbrev shown : AssertionView ⦃j = toy_serde⦄
shown = access grantees

policy_shown :
    op_get_assertion ⦃j = toy_serde⦄ with_policy (authenticated "id:b") "id:a" "policy" (some "c1")
    ≡ ok shown
unfolding op_get_assertion guest_view save_assertion load_assertion assertion_seq assertion_json
    row_of clamp_i64 allows
policy_shown = refl

op_get_assertion-guest_example :
    (a : Record ⦃j = toy_serde⦄) × (ack : Ack) × (body : PolicyBody) × (load_assertion
        ⦃j = toy_serde⦄ with_policy "id:a" "policy"
        (some "c1")
      ≡ ok (some (a, ack)))
    × ("policy" ≡ policy_kind)
    × (toy_serde.policy_body a.body ≡ some body)
    × (allows (from_body body) (some "id:b") "id:a" ≡ true)
    × (shown ≡ access body.read_class)
op_get_assertion-guest_example =
    op_get_assertion-guest ⦃j = toy_serde⦄ with_policy (authenticated "id:b") "id:a" "policy"
      (some "c1") shown refl policy_shown
