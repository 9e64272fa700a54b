-- ===== src/Examples/Parties.antt =====
-- The claims on receipts, statements, manifests, records and policies, applied to concrete inputs.
use ciss.Identifiers.{split_once_colon}
use ciss.Prelude.{
  ℕ, ◌≤◌, ◌<◌, ◌≡◌, ◌≢◌, ◌↔◌, refl, String, true, false, some, [], ◌∷◌, length, ok, err,
  str_eq-false,
}
use ciss.Prelude.Map
use ciss.Prelude.Map.{Map}
use ciss.Prelude.Text.{as_bytes}
use ciss.Crypto.{Keypair, sha256_hex, verifying_key}
use ciss.Dials.{active}
use ciss.Policy.{grantees, ResolvedPolicy}
use ciss.Identifiers.{Did, parse_did, max_did_len, is_valid_did, strip_prefix}
use ciss.Identifiers.Safety.{all_safe, parse_did-safe}
use ciss.Receipts.{
  ReceiptCore, Receipt, make_bilateral_receipt, verify_bilateral, verify_unilateral,
  is_acknowledged, is_co_attested, content_hash_of,
}
use ciss.Receipts.Direction.{upload}
use ciss.Receipts.Signatures.{SignedBy, verify_bilateral-make, verify_bilateral_sound}
use ciss.Server.{anonymous, authenticated, unauthorized, forbidden}
use ciss.Server.Access.{put_object, authorize, authorize_owner}
use ciss.Examples.Toy.{toy}
use ciss.Examples.Settings.{toy_core}

abbrev customer : Keypair ⦃p = toy⦄
customer = record { label = "customer"; signing_key = 3 }

abbrev provider : Keypair ⦃p = toy⦄
provider = record { label = "provider"; signing_key = 4 }

abbrev moved : ReceiptCore
moved = record {
  direction = upload;
  cid = "c1";
  byte_start = 0;
  byte_end = 12;
  bytes = 12;
  running_total = 12;
  day = 5;
  account_mode = active;
  receiver_id = "p";
  sender_id = "u";
}

abbrev keys : Map ℕ
keys = ("p", 4) ∷ ("u", 3) ∷ []

names_differ : ◌≢◌ {A = String} "p" "u"
names_differ = str_eq-false "p" "u" refl

abbrev countersigned : Receipt
countersigned = make_bilateral_receipt ⦃p = toy⦄ ⦃c = toy_core⦄ moved (some provider) customer

abbrev inflated : ReceiptCore
inflated = record moved { bytes = 13 }

pinned : (Map.get "p" keys ≡ some 4) × (Map.get "u" keys ≡ some 3)
unfolding Map.get
pinned = (refl, refl)

both_signed : verify_bilateral ⦃p = toy⦄ ⦃c = toy_core⦄ keys countersigned ≡ true
unfolding verifying_key
both_signed =
    verify_bilateral-make ⦃p = toy⦄ ⦃c = toy_core⦄ moved provider customer keys names_differ
      pinned.0 pinned.1

hashes_differ :
    content_hash_of ⦃p = toy⦄ ⦃c = toy_core⦄ inflated
    ≢ content_hash_of ⦃p = toy⦄ ⦃c = toy_core⦄ moved
unfolding content_hash_of sha256_hex as_bytes
hashes_differ =
    str_eq-false (content_hash_of ⦃p = toy⦄ ⦃c = toy_core⦄ inflated)
      (content_hash_of ⦃p = toy⦄ ⦃c = toy_core⦄ moved) refl

verify_bilateral_sound_example :
    SignedBy ⦃p = toy⦄ ⦃c = toy_core⦄ keys countersigned "p"
    × SignedBy ⦃p = toy⦄ ⦃c = toy_core⦄ keys countersigned "u"
    × (is_acknowledged countersigned ≡ true)
    × (is_co_attested countersigned ≡ true)
    × (verify_unilateral ⦃p = toy⦄ ⦃c = toy_core⦄ keys countersigned ≡ false)
    × (verify_bilateral ⦃p = toy⦄ ⦃c = toy_core⦄ keys (record countersigned { core = inflated })
        ≡ false)
    × (verify_unilateral ⦃p = toy⦄ ⦃c = toy_core⦄ keys (record countersigned { core = inflated })
        ≡ false)
unfolding make_bilateral_receipt
verify_bilateral_sound_example =
    verify_bilateral_sound ⦃p = toy⦄ ⦃c = toy_core⦄ keys countersigned inflated hashes_differ
      both_signed

abbrev listed : ResolvedPolicy
listed = record { read_class = grantees; readers = "id:b" ∷ [] }

others_differ : ◌≢◌ {A = String} "id:b" "id:a"
others_differ = str_eq-false "id:b" "id:a" refl

authorize_owner_example :
    ((authorize (authenticated "id:b") (put_object "id:a" "k" []) ≡ ok tt)
      ↔ (authenticated "id:b" ≡ authenticated "id:a"))
    × (authorize anonymous (put_object "id:a" "k" []) ≡ err unauthorized)
    × (authorize (authenticated "id:b") (put_object "id:a" "k" []) ≡ err forbidden)
authorize_owner_example =
    authorize_owner (authenticated "id:b") (put_object "id:a" "k" []) "id:a" "id:b" refl
      others_differ

abbrev example_did : String
example_did = "did:plc:abc"

abbrev parsed : Did
parsed = record { text = example_did }

parse_did-safe_example :
    (parsed.text ≡ example_did)
    × (all_safe (as_bytes example_did) ≡ true)
    × (0 < length (as_bytes example_did))
    × (length (as_bytes example_did) ≤ max_did_len)
unfolding parse_did is_valid_did as_bytes strip_prefix split_once_colon
parse_did-safe_example = parse_did-safe example_did refl
