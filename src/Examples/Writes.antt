-- ===== src/Examples/Writes.antt =====
-- The claims on the writing of settings and on reports, applied to a small instance.
use ciss.Server.Assertions.{intended, record_gates, admit_record}
use ciss.Server.KindFold.{kind_fold}
use ciss.Store.Assertions.{assertion_seq, save_assertion}
use ciss.Assertion.{subkey_well_formed, attest_preimage, attest_provider, verify_assertion}
use ciss.Dials.{subkey_valid}
use ciss.Identifiers.{strip_prefix, split_once_colon, is_valid_did, parse_did}
use ciss.Crypto.{public_key_hex, sign_message, verify_message}
use ciss.Prelude.Text.{concat, decimal_ℤ, as_bytes}
use ciss.Prelude.{◌≡◌, refl, false, none, some, [], ◌∷◌, Result, ok, err}
use ciss.Crypto.{Keypair}
use ciss.Assertion.{Ack, make_ack}
use ciss.Blobs.{MemoryBlobStore}
use ciss.KindSpec.{kind_spec}
use ciss.Store.{empty_store}
use ciss.Store.Assertions.{Record, load_assertion}
use ciss.Server.{AppState, on_ack}
use ciss.Server.Access.{AuthedWrite}
use ciss.Server.Assertions.{AssertionSaved, is_chain_kind, op_put_assertion}
use ciss.Server.Assertions.Admitted.{Admitted}
use ciss.Server.Assertions.Accepted.{op_put_assertion-saved}
use ciss.Examples.Toy.{toy}
use ciss.Examples.Settings.{toy_serde}

abbrev signer : Keypair ⦃p = toy⦄
signer = record { label = "provider"; signing_key = 4 }

abbrev instance_state : AppState ⦃p = toy⦄ ⦃b = MemoryBlobStore⦄
instance_state = record {
  provider = record { id = "id:p"; keypair = signer; attest_keypair = signer };
  blobs = [];
  store = empty_store;
  limits = record { store_ceiling = 1000; did_cap = some 100 };
  day = 0;
  admin_dids = [];
  admin_only_du = false;
  compaction = on_ack;
}

abbrev owner : AuthedWrite
owner = record { did = "did:plc:abc"; jti = none }

abbrev saved_or : AssertionSaved → {E : Type 0} → Result E AssertionSaved → AssertionSaved
saved_or d (ok s) = s
saved_or d (err _) = d

abbrev saved_flag : AssertionSaved
saved_flag =
    saved_or (record { seq = 0; ack_json = "" })
      (op_put_assertion ⦃p = toy⦄ ⦃b = MemoryBlobStore⦄ ⦃j = toy_serde⦄ instance_state "did:plc:abc"
        "kv.flag" (some "x") (7 ∷ 7 ∷ []) (some owner)).1

flag_saved :
    (op_put_assertion ⦃p = toy⦄ ⦃b = MemoryBlobStore⦄ ⦃j = toy_serde⦄ instance_state "did:plc:abc"
      "kv.flag"
      (some "x")
      (7 ∷ 7 ∷ [])
      (some owner)).1
    ≡ ok saved_flag
unfolding concat decimal_ℤ as_bytes public_key_hex sign_message verify_message strip_prefix
    split_once_colon is_valid_did parse_did kind_spec subkey_valid subkey_well_formed
    attest_preimage attest_provider verify_assertion assertion_seq save_assertion kind_fold intended
    record_gates admit_record op_put_assertion
flag_saved = refl

not_a_chain : is_chain_kind "kv.flag" ≡ false
unfolding kind_spec
not_a_chain = refl

op_put_assertion-saved_example :
    (a : Record ⦃j = toy_serde⦄) × (ack : Ack) × Admitted ⦃p = toy⦄ ⦃b = MemoryBlobStore⦄
      ⦃j = toy_serde⦄ instance_state "did:plc:abc" "kv.flag"
      (some "x")
      a
    × (ack ≡ make_ack ⦃p = toy⦄ ⦃t = toy_serde.record_text⦄ a signer)
    × (load_assertion ⦃j = toy_serde⦄
          (op_put_assertion ⦃p = toy⦄ ⦃b = MemoryBlobStore⦄ ⦃j = toy_serde⦄ instance_state
            "did:plc:abc" "kv.flag"
            (some "x")
            (7 ∷ 7 ∷ [])
            (some owner)).0
          "did:plc:abc"
          "kv.flag"
          (some "x")
        ≡ ok (some (a, ack)))
    × (saved_flag ≡ record { seq = a.seq; ack_json = toy_serde.record_text.ack_to_string ack })
op_put_assertion-saved_example =
    op_put_assertion-saved ⦃p = toy⦄ ⦃b = MemoryBlobStore⦄ ⦃j = toy_serde⦄ instance_state
      "did:plc:abc" "kv.flag" (some "x") (7 ∷ 7 ∷ []) (some owner) not_a_chain flag_saved
