-- ===== src/Assertion.antt =====
-- src/assertion.rs: the envelope of every customer setting. The body is a JSON value of the serde
-- crate, the type `V`; its text is the parameter `RecordText`.
pub mod Authority
use ciss.Prelude.{
  ℕ, ◌≡◌, String, Bool, true, false, not, ◌&&◌, ◌||◌, Option, none, some, List, [], ◌∷◌, leb, ◌==◌,
  str_eq, if◌then◌else◌, length, any, Result, ok, err,
}
use ciss.Prelude.Text.{concat, decimal, as_bytes}
use ciss.Crypto.{
  Primitives, Keypair, sha256_hex, sign_message, verify_message, public_key_hex,
  public_key_from_hex, derive_id,
}
use ciss.Identifiers.{Did, id, atproto, parse_did, space, is_empty}

pub record OwnerSigned : Type 0 where
  pub signer : String
  pub sig : String

pub record ProviderAttested : Type 0 where
  pub owner_did : String
  pub authorizing_jti : String
  pub provider_sig : String

pub data Authorization : Type 0 where
  owner_signed : OwnerSigned → Authorization
  provider_attested : ProviderAttested → Authorization

pub record SignedAssertion (V : Type 0) : Type 0 where
  pub did : String
  pub kind : String
  pub subkey : Option String
  pub seq : ℕ
  pub body : V
  pub authorization : Authorization

pub record Ack : Type 0 where
  pub signer : String
  pub sig : String

abbrev pub subkey_tag : Option String → String
subkey_tag none = "-"
subkey_tag (some s) = s

abbrev pub contains_colon : String → Bool
contains_colon s = any (λ b. b == b':') (as_bytes s)

unfoldable pub subkey_well_formed : Option String → Bool
subkey_well_formed none = true
subkey_well_formed (some s) =
    not (is_empty (as_bytes s)) && not (str_eq s "-") && not (contains_colon s)

unfoldable pub record_preimage : String → String → Option String → ℕ → String → String
record_preimage kind did subkey seq body_fold = concat (
    "ciss/v1/assertion:"
    ∷ kind
    ∷ ":"
    ∷ did
    ∷ ":"
    ∷ subkey_tag subkey
    ∷ ":"
    ∷ decimal seq
    ∷ ":"
    ∷ body_fold
    ∷ [])

unfoldable pub attest_preimage : String → String → String → Option String → ℕ → String → String
attest_preimage kind owner_did did subkey seq body_fold = concat (
    "ciss/v1/assertion-attest:"
    ∷ kind
    ∷ ":"
    ∷ owner_did
    ∷ ":"
    ∷ did
    ∷ ":"
    ∷ subkey_tag subkey
    ∷ ":"
    ∷ decimal seq
    ∷ ":"
    ∷ body_fold
    ∷ [])

unfoldable pub ack_preimage : String → String → Option String → ℕ → String → String
ack_preimage kind did subkey seq record_digest_hex = concat (
    "ciss/v1/assertion-ack:"
    ∷ kind
    ∷ ":"
    ∷ did
    ∷ ":"
    ∷ subkey_tag subkey
    ∷ ":"
    ∷ decimal seq
    ∷ ":"
    ∷ record_digest_hex
    ∷ [])

-- `serde_json::to_string` and `from_str` of records: what is written reads back.
pub record RecordText (V : Type 0) : Type 0 where
  pub to_string : SignedAssertion V → String
  pub from_str : String → Option (SignedAssertion V)
  pub from_str-to_string : (a : SignedAssertion V) → from_str (to_string a) ≡ some a
  pub ack_to_string : Ack → String
  pub ack_from_str : String → Option Ack
  pub ack_from_str-to_string : (a : Ack) → ack_from_str (ack_to_string a) ≡ some a

is_id : Did → Bool
is_id d = elim (space d) [ id ↦ true | atproto ↦ false ]

abbrev pub is_stale : ℕ → Option ℕ → Bool
is_stale seq none = false
is_stale seq (some prior) = leb seq prior

module _ ⦃p : Primitives⦄ {V : Type 0} where
  unfoldable pub sign_owner :
      String → String → Option String → ℕ → V → String → Keypair → SignedAssertion V
  sign_owner kind did subkey seq body body_fold keypair = record {
    did = did;
    kind = kind;
    subkey = subkey;
    seq = seq;
    body = body;
    authorization = owner_signed (record {
      signer = public_key_hex keypair;
      sig = sign_message keypair (record_preimage kind did subkey seq body_fold);
    });
  }

  unfoldable pub attest_provider :
      String → String → Option String → ℕ → V → String → String → Keypair → SignedAssertion V
  attest_provider kind owner_did subkey seq body body_fold jti attest_keypair = record {
    did = owner_did;
    kind = kind;
    subkey = subkey;
    seq = seq;
    body = body;
    authorization = provider_attested (record {
      owner_did = owner_did;
      authorizing_jti = jti;
      provider_sig =
          sign_message attest_keypair
            (attest_preimage kind owner_did owner_did subkey seq body_fold);
    });
  }

  owner_authorizes : Did → SignedAssertion V → String → OwnerSigned → Bool
  unfolding is_id
  owner_authorizes target a body_fold o =
      if not (is_id target) then false else elim (public_key_from_hex o.signer) [
        | err _ ↦ false
        | ok key ↦
            if not (str_eq (derive_id key) a.did)
            then false
            else verify_message key (record_preimage a.kind a.did a.subkey a.seq body_fold) o.sig
      ]

  authorizes : Did → SignedAssertion V → String → p.VerifyingKey → Authorization → Bool
  unfolding owner_authorizes
  authorizes target a body_fold provider_key (owner_signed o) =
      owner_authorizes target a body_fold o
  authorizes target a body_fold provider_key (provider_attested t) =
      if not (str_eq t.owner_did a.did)
      then false
      else verify_message provider_key
          (attest_preimage a.kind t.owner_did a.did a.subkey a.seq body_fold) t.provider_sig

  unfoldable pub verify_assertion : SignedAssertion V → String → Option ℕ → p.VerifyingKey → Bool
  unfolding authorizes
  verify_assertion a body_fold prior_seq provider_key = elim (parse_did a.did) [
    | err _ ↦ false
    | ok target ↦
        if is_empty (as_bytes a.kind) || contains_colon a.kind
        then false
        else if not (subkey_well_formed a.subkey)
        then false
        else if is_stale a.seq prior_seq
        then false
        else authorizes target a body_fold provider_key a.authorization
  ]

  module _ ⦃t : RecordText V⦄ where
    unfoldable pub digest : SignedAssertion V → String
    digest a = sha256_hex (as_bytes (t.to_string a))

    unfoldable pub make_ack : SignedAssertion V → Keypair → Ack
    make_ack a attest_keypair = record {
      signer = public_key_hex attest_keypair;
      sig = sign_message attest_keypair (ack_preimage a.kind a.did a.subkey a.seq (digest a));
    }

    unfoldable pub verify_ack : SignedAssertion V → Ack → p.VerifyingKey → Bool
    verify_ack a ack provider_key =
        verify_message provider_key (ack_preimage a.kind a.did a.subkey a.seq (digest a)) ack.sig
