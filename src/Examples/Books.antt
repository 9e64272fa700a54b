-- ===== src/Examples/Books.antt =====
-- The claims on statements, manifests and signed records, applied to concrete inputs.
use ciss.Identifiers.{is_lower_hex_byte}
use ciss.Prelude.{
  sum_by, ℕ, ◌+◌, ◌*◌, ◌≤◌, ◌≡◌, ◌≢◌, ◌↔◌, refl, String, true, false, none, some, [], ◌∷◌, length,
  All, ok, str_eq-false,
}
use ciss.Prelude.Int.{pos}
use ciss.Prelude.Text.{as_bytes, concat, decimal}
use ciss.Crypto.{
  Keypair, sha256_hex, verifying_key, public_key_hex, public_key_from_hex, derive_id, sign_message,
  verify_message,
}
use ciss.Identifiers.{Did, id, parse_did, space, is_valid_did, strip_prefix, is_lower_hex}
use ciss.Receipts.{Canonical}
use ciss.Statements.{
  StatementBody, Statement, genesis_statement, body_hash, build_statement, verify_from,
  verify_chain, verified,
}
use ciss.Statements.Verify.{Links, verify_chain_iff}
use ciss.Manifest.{
  ManifestLeaf, SignedManifest, leaf_is_valid, has_duplicate_cids, merkle_root, signing_preimage,
  verify_manifest, build_signed, sort_leaves, leaf_hash,
}
use ciss.Manifest.Accepts.{Valid, verify_manifest_sound}
use ciss.Manifest.Merkle.{Distinct, RootOf}
use ciss.Blobs.{max_object_bytes}
use ciss.Assertion.{SignedAssertion, subkey_well_formed, is_stale, sign_owner, verify_assertion}
use ciss.Assertion.Authority.{IsAuthored, verify_assertion_sound, verify_assertion-sign_owner}
use ciss.Examples.Toy.{toy}

abbrev customer : Keypair ⦃p = toy⦄
customer = record { label = "customer"; signing_key = 3 }

abbrev provider : Keypair ⦃p = toy⦄
provider = record { label = "provider"; signing_key = 4 }

abbrev toy_body : Canonical StatementBody
toy_body = record {
  to_canonical_bytes = λ s. s.period ∷ s.byte_days ∷ s.rent_cents ∷ as_bytes s.prev_statement_hash;
}

abbrev period : ℕ → ℕ → String → StatementBody
period n days prev = record {
  period = n;
  period_start_day = 30 * n;
  period_end_day = 30 * n + 30;
  opening_root = "";
  closing_root = "";
  byte_days = days;
  rent_cents = 1;
  postage_bytes = 0;
  postage_cents = 0;
  audit_count = 0;
  audit_bytes = 0;
  audit_cents = 0;
  audit_tier = "none";
  grace_cents = pos 0;
  fees_cents = 0;
  total_cents = 1;
  prev_statement_hash = prev;
}

abbrev first_period : Statement
first_period = build_statement ⦃p = toy⦄ ⦃c = toy_body⦄ (period 0 300 genesis_statement)

abbrev second_period : Statement
second_period =
    build_statement ⦃p = toy⦄ ⦃c = toy_body⦄
      (period 1 400 (body_hash ⦃p = toy⦄ ⦃c = toy_body⦄ (period 0 300 genesis_statement)))

books_verify : verify_chain ⦃p = toy⦄ ⦃c = toy_body⦄ (first_period ∷ second_period ∷ []) ≡ verified
unfolding verify_chain verify_from build_statement body_hash sha256_hex as_bytes
books_verify = refl

verify_chain_iff_example :
    (verify_chain ⦃p = toy⦄ ⦃c = toy_body⦄ (first_period ∷ second_period ∷ []) ≡ verified)
    ↔ Links ⦃p = toy⦄ ⦃c = toy_body⦄ 0 genesis_statement (first_period ∷ second_period ∷ [])
verify_chain_iff_example =
    verify_chain_iff ⦃p = toy⦄ ⦃c = toy_body⦄ (first_period ∷ second_period ∷ [])

edited : body_hash ⦃p = toy⦄ ⦃c = toy_body⦄ (period 0 1 genesis_statement) ≢ first_period.hash
unfolding build_statement body_hash sha256_hex as_bytes
edited = str_eq-false _ _ refl

abbrev leaf : ManifestLeaf
leaf = record {
  cid = "0123456789abcdef0123456789abcdef0123456789abcdef0123456789abcdef";
  size = 10;
}

abbrev kept : SignedManifest
kept = build_signed ⦃p = toy⦄ (leaf ∷ []) "id:a" customer 1 none

kept-verifies : verify_manifest ⦃p = toy⦄ (verifying_key ⦃p = toy⦄ customer) kept ≡ true
unfolding verify_manifest build_signed merkle_root sort_leaves leaf_hash has_duplicate_cids
    leaf_is_valid signing_preimage sign_message verify_message verifying_key sha256_hex as_bytes
    concat decimal is_lower_hex is_lower_hex_byte
kept-verifies = refl

verify_manifest_sound_example :
    All Valid kept.leaves
    × Distinct kept.leaves
    × RootOf ⦃p = toy⦄ kept.leaves kept.root
    × (kept.total_bytes ≡ sum_by (λ (l : ManifestLeaf). l.size) kept.leaves)
    × (kept.total_bytes ≤ max_object_bytes * length kept.leaves)
    × (verify_message ⦃p = toy⦄
          (verifying_key ⦃p = toy⦄ customer)
          (signing_preimage ⦃p = toy⦄ kept.signer_id kept.seq
            (length kept.leaves)
            kept.total_bytes
            kept.root
            kept.heads)
          kept.signature
        ≡ true)
verify_manifest_sound_example =
    verify_manifest_sound ⦃p = toy⦄ (verifying_key ⦃p = toy⦄ customer) kept kept-verifies

abbrev customer_did : String
customer_did = derive_id ⦃p = toy⦄ (verifying_key ⦃p = toy⦄ customer)

abbrev customer_id : Did
customer_id = record { text = customer_did }

did_parses : parse_did customer_did ≡ ok customer_id
unfolding parse_did is_valid_did derive_id verifying_key sha256_hex as_bytes concat strip_prefix
    is_lower_hex is_lower_hex_byte
did_parses = refl

did_is_id : space customer_id ≡ id
unfolding space derive_id verifying_key sha256_hex as_bytes concat strip_prefix
did_is_id = refl

key_parses :
    public_key_from_hex ⦃p = toy⦄ (public_key_hex ⦃p = toy⦄ customer)
    ≡ ok (verifying_key ⦃p = toy⦄ customer)
unfolding public_key_from_hex public_key_hex verifying_key
key_parses = refl

abbrev signed_flag : SignedAssertion ℕ
signed_flag = sign_owner ⦃p = toy⦄ "kv.flag" customer_did (some "beta") 2 1 "set=true" customer

flag_well_formed : subkey_well_formed (some "beta") ≡ true
unfolding subkey_well_formed as_bytes
flag_well_formed = refl

flag_verifies : verify_assertion ⦃p = toy⦄ signed_flag "set=true" (some 1) 4 ≡ true
unfolding as_bytes
flag_verifies =
    verify_assertion-sign_owner ⦃p = toy⦄ "kv.flag" customer_did (some "beta") 2 1 "set=true"
      customer (some 1) 4 customer_id did_parses did_is_id refl flag_well_formed refl key_parses
      refl

verify_assertion_sound_example :
    (subkey_well_formed signed_flag.subkey ≡ true)
    × (is_stale signed_flag.seq (some 1) ≡ false)
    × IsAuthored ⦃p = toy⦄ signed_flag "set=true" 4 signed_flag.authorization
verify_assertion_sound_example =
    verify_assertion_sound ⦃p = toy⦄ signed_flag "set=true" (some 1) 4 flag_verifies
