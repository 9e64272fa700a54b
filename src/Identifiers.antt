-- ===== src/Identifiers.antt =====
-- src/identifiers.rs: the DID and content-address texts of a request, validated byte by byte.
pub mod Safety
use ciss.Prelude.{
  ℕ, ◌≤◌, String, Bool, true, false, not, ◌&&◌, ◌||◌, Option, none, some, List, [], ◌∷◌, leb, ltb,
  ◌==◌, if◌then◌else◌, length, all, Result, ok, err,
}
use ciss.Prelude.Text.{as_bytes}
use ciss.Crypto.{Bytes}

abbrev pub max_did_len : ℕ
max_did_len = 256

abbrev pub content_addr_hex_len : ℕ
content_addr_hex_len = 64

pub data IdentifierError : Type 0 where
  empty malformed wrong_space : IdentifierError
  too_long : ℕ → ℕ → IdentifierError

pub data IdentitySpace : Type 0 where
  id atproto : IdentitySpace

pub record Did : Type 0 where
  pub text : String

pub record ContentAddr : Type 0 where
  pub text : String

-- `u8::is_ascii_digit` and its kin.
abbrev pub is_ascii_digit : ℕ → Bool
is_ascii_digit b = leb b'0' b && leb b b'9'

abbrev pub is_ascii_lowercase : ℕ → Bool
is_ascii_lowercase b = leb b'a' b && leb b b'z'

abbrev pub is_ascii_alphanumeric : ℕ → Bool
is_ascii_alphanumeric b = is_ascii_digit b || is_ascii_lowercase b || leb b'A' b && leb b b'Z'

unfoldable pub is_lower_hex_byte : ℕ → Bool
is_lower_hex_byte b = is_ascii_digit b || leb b'a' b && leb b b'f'

unfoldable pub is_lower_hex : Bytes → Bool
is_lower_hex = all is_lower_hex_byte

unfoldable pub is_msid_byte : ℕ → Bool
is_msid_byte b =
    is_ascii_alphanumeric b || b == b'.' || b == b'_' || b == b'-' || b == b':' || b == b'%'

-- `str::strip_prefix`.
unfoldable pub strip_prefix : Bytes → Bytes → Option Bytes
strip_prefix [] s = some s
strip_prefix (c ∷ p) [] = none
strip_prefix (c ∷ p) (b ∷ s) = let rest = strip_prefix p s in if b == c then rest else none

-- `str::split_once(':')`.
unfoldable pub split_once_colon : Bytes → Option (Bytes × Bytes)
split_once_colon [] = none
split_once_colon (b ∷ s) =
    let rest : Option (Bytes × Bytes) = elim (split_once_colon s) [
      | none ↦ none
      | some (l, r) ↦ some (b ∷ l, r)
    ] in
    if b == b':' then some ([], s) else rest

abbrev pub id_prefix : Bytes
id_prefix = b'i' ∷ b'd' ∷ b':' ∷ []

abbrev pub did_prefix : Bytes
did_prefix = b'd' ∷ b'i' ∷ b'd' ∷ b':' ∷ []

abbrev pub is_empty : Bytes → Bool
is_empty [] = true
is_empty (_ ∷ _) = false

is_method_byte : ℕ → Bool
is_method_byte b = is_ascii_lowercase b || is_ascii_digit b

method_msid_ok : Option (Bytes × Bytes) → Bool
unfolding is_method_byte is_msid_byte
method_msid_ok none = false
method_msid_ok (some (method, msid)) =
    not (is_empty method)
    && all is_method_byte method
    && (not (is_empty msid) && all is_msid_byte msid)

unfoldable pub is_valid_did : Bytes → Bool
unfolding method_msid_ok
is_valid_did raw = elim (strip_prefix id_prefix raw) [
  | some rest ↦ length rest == 64 && is_lower_hex rest
  | none ↦ elim (strip_prefix did_prefix raw) [
    | some rest ↦ method_msid_ok (split_once_colon rest)
    | none ↦ false
  ]
]

unfoldable pub parse_did : String → Result IdentifierError Did
parse_did raw =
    let bytes = as_bytes raw in
    if is_empty bytes
    then err empty
    else if ltb max_did_len (length bytes)
    then err (too_long (length bytes) max_did_len)
    else if is_valid_did bytes
    then ok (record { text = raw })
    else err malformed

unfoldable pub space : Did → IdentitySpace
space d = elim (strip_prefix id_prefix (as_bytes d.text)) [ some _ ↦ id | none ↦ atproto ]

unfoldable pub require_atproto : Did → Result IdentifierError (Unit {0})
require_atproto d = elim (space d) [ atproto ↦ ok tt | id ↦ err wrong_space ]

unfoldable pub require_id : Did → Result IdentifierError (Unit {0})
require_id d = elim (space d) [ id ↦ ok tt | atproto ↦ err wrong_space ]

unfoldable pub parse_content_addr : String → Result IdentifierError ContentAddr
parse_content_addr raw =
    let bytes = as_bytes raw in
    if is_empty bytes
    then err empty
    else if not (length bytes == content_addr_hex_len) || not (is_lower_hex bytes)
    then err malformed
    else ok (record { text = raw })
