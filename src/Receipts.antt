-- ===== src/Receipts.antt =====
-- src/receipts.rs: signed acknowledgments of bytes that cross the boundary. The canonical bytes of a
-- core (src/canonical.rs over the serde crates) are the parameter `to_canonical_bytes`.
pub mod Signatures
use ciss.Prelude.{
  ℕ, ◌-◌, ◌≤◌, String, ◌≡◌, Bool, true, false, not, ◌&&◌, ◌||◌, Option, none, some, List, [], ◌∷◌,
  leb, str_eq, if◌then◌else◌, length, retain,
}
use ciss.Prelude.Map
use ciss.Prelude.Map.{Map}
use ciss.Crypto.{Bytes, Primitives, Keypair, sha256_hex, sign_message, verify_message}
use ciss.Dials.{AccountMode}

pub data Direction : Type 0 where
  upload download : Direction

pub data ReceiptMode : Type 0 where
  unilateral bilateral : ReceiptMode

pub record ReceiptCore : Type 0 where
  pub direction : Direction
  pub cid : String
  pub byte_start : ℕ
  pub byte_end : ℕ
  pub bytes : ℕ
  pub running_total : ℕ
  pub day : ℕ
  pub account_mode : AccountMode
  pub receiver_id : String
  pub sender_id : String

-- `byte_end - byte_start` stops the program where the range is reversed; the callers pass `(0, n)`.
unfoldable pub new_core :
    Direction → String → ℕ × ℕ → ℕ → ℕ → AccountMode → String → String → ReceiptCore
new_core direction cid byte_range running_total day account_mode receiver_id sender_id = record {
  direction = direction;
  cid = cid;
  byte_start = byte_range.0;
  byte_end = byte_range.1;
  bytes = byte_range.1 - byte_range.0;
  running_total = running_total;
  day = day;
  account_mode = account_mode;
  receiver_id = receiver_id;
  sender_id = sender_id;
}

pub record Receipt : Type 0 where
  pub core : ReceiptCore
  pub content_hash : String
  pub mode : ReceiptMode
  pub sigs : Map String

pub record TransferContext : Type 0 where
  pub bytes : ℕ
  pub trust_distance : Option ℕ

abbrev pub select_mode : TransferContext → ReceiptMode → ReceiptMode
select_mode _ default = default

abbrev pub is_bilateral : ReceiptMode → Bool
is_bilateral bilateral = true
is_bilateral unilateral = false

-- `is_acknowledged`.
unfoldable pub is_acknowledged : Receipt → Bool
is_acknowledged r =
    Map.contains_key r.core.receiver_id r.sigs && Map.contains_key r.core.sender_id r.sigs

unfoldable pub is_co_attested : Receipt → Bool
is_co_attested r =
    is_bilateral r.mode
    && (Map.contains_key r.core.receiver_id r.sigs && Map.contains_key r.core.sender_id r.sigs)

-- The serialised form that the signatures are taken over.
pub record Canonical (A : Type 0) : Type 0 where
  pub to_canonical_bytes : A → Bytes

module _ ⦃p : Primitives⦄ ⦃c : Canonical ReceiptCore⦄ where
  unfoldable pub content_hash_of : ReceiptCore → String
  content_hash_of core = sha256_hex (c.to_canonical_bytes core)

  unfoldable pub core_matches : Receipt → Bool
  core_matches r = str_eq (content_hash_of r.core) r.content_hash

  abbrev pub Keyring : Type 0
  Keyring = Map p.VerifyingKey

  unfoldable pub both_verify :
      String → Option String → Option String → Option p.VerifyingKey → Option p.VerifyingKey → Bool
  both_verify hash (some receiver_sig) (some sender_sig) (some receiver_key) (some sender_key) =
      verify_message receiver_key hash receiver_sig && verify_message sender_key hash sender_sig
  both_verify _ _ _ _ _ = false

  unfoldable pub verify_bilateral : Keyring → Receipt → Bool
  unfolding both_verify
  verify_bilateral keyring r =
      if not (is_bilateral r.mode) || not (core_matches r)
      then false
      else both_verify r.content_hash (Map.get r.core.receiver_id r.sigs)
          (Map.get r.core.sender_id r.sigs) (Map.get r.core.receiver_id keyring)
          (Map.get r.core.sender_id keyring)

  key_verifies : Option p.VerifyingKey → String → String → Bool
  key_verifies none hash sig = false
  key_verifies (some key) hash sig = verify_message key hash sig

  all_verify : Keyring → String → Map String → Bool
  unfolding key_verifies
  all_verify keyring hash [] = true
  all_verify keyring hash ((id, sig) ∷ rest) =
      key_verifies (Map.get id keyring) hash sig && all_verify keyring hash rest

  abbrev pub is_empty_map : Map String → Bool
  is_empty_map [] = true
  is_empty_map (_ ∷ _) = false

  unfoldable pub verify_unilateral : Keyring → Receipt → Bool
  unfolding all_verify
  verify_unilateral keyring r =
      if is_bilateral r.mode || not (core_matches r) || is_empty_map r.sigs
      then false
      else all_verify keyring r.content_hash r.sigs

  sigs_for : ReceiptCore → Option Keypair → Keypair → String → Map String
  sigs_for core none sender_key hash = []
  sigs_for core (some receiver_key) sender_key hash =
      Map.insert core.sender_id (sign_message sender_key hash)
        (Map.insert core.receiver_id (sign_message receiver_key hash) [])

  unfoldable pub make_bilateral_receipt : ReceiptCore → Option Keypair → Keypair → Receipt
  unfolding sigs_for
  make_bilateral_receipt core receiver_key sender_key =
      let hash = content_hash_of core in
      record {
        core = core;
        content_hash = hash;
        mode = bilateral;
        sigs = sigs_for core receiver_key sender_key hash;
      }

  unfoldable pub make_unilateral_receipt : ReceiptCore → String → Keypair → Receipt
  make_unilateral_receipt core provider_id provider_key =
      let hash = content_hash_of core in
      record {
        core = core;
        content_hash = hash;
        mode = unilateral;
        sigs = Map.insert provider_id (sign_message provider_key hash) [];
      }
