-- ===== src/Crypto.antt =====
-- src/crypto.rs and src/identity.rs: fingerprints, keys and signatures as the code calls them. The
-- crates below them (sha2, hex, ed25519-dalek) are the parameter `Primitives`.

use ciss.Prelude.{
  ℕ, String, ◌≡◌, Bool, true, false, not, ◌||◌, Option, none, some, List, [], ◌∷◌, ◌==◌, length,
  if◌then◌else◌, Result, ok, err, arith,
}
use ciss.Prelude.Text.{as_bytes, concat}

abbrev pub Bytes : Type 0
Bytes = List ℕ

-- What the code relies on: hex decoding inverts hex encoding on keys and signatures, a signature
-- survives its byte form, and a signature made by a key verifies strictly under its public half.
pub record Primitives : Type 1 where
  pub sha256 : Bytes → Bytes
  pub hex_encode : Bytes → String
  pub hex_decode : String → Option Bytes
  pub SigningKey : Type 0
  pub VerifyingKey : Type 0
  pub Signature : Type 0
  pub signing_key_from_bytes : Bytes → SigningKey
  pub verifying_key_of : SigningKey → VerifyingKey
  pub verifying_key_from_bytes : Bytes → Option VerifyingKey
  pub verifying_key_to_bytes : VerifyingKey → Bytes
  pub is_weak : VerifyingKey → Bool
  pub bytes_eq : Bytes → Bytes → Bool
  pub sign : SigningKey → Bytes → Signature
  pub signature_to_bytes : Signature → Bytes
  pub signature_from_slice : Bytes → Option Signature
  pub verify_strict : VerifyingKey → Bytes → Signature → Bool
  pub hex_decode-signature :
      (s : Signature) → hex_decode (hex_encode (signature_to_bytes s)) ≡ some (signature_to_bytes s)
  pub signature_from_slice-to_bytes :
      (s : Signature) → signature_from_slice (signature_to_bytes s) ≡ some s
  pub verify_strict-sign :
      (k : SigningKey) (m : Bytes) → verify_strict (verifying_key_of k) m (sign k m) ≡ true

pub data CryptoError : Type 0 where
  invalid_hex invalid_public_key : CryptoError
  invalid_key_length : ℕ → CryptoError

module _ ⦃p : Primitives⦄ where
  open p use {
    sha256, hex_encode, hex_decode, SigningKey, VerifyingKey, Signature, signing_key_from_bytes,
    verifying_key_of, verifying_key_from_bytes, verifying_key_to_bytes, is_weak, bytes_eq, sign,
    signature_to_bytes, signature_from_slice, verify_strict, hex_decode-signature,
    signature_from_slice-to_bytes, verify_strict-sign,
  }

  unfoldable pub sha256_hex : Bytes → String
  sha256_hex bytes = hex_encode (sha256 bytes)

  pub record Keypair : Type 0 where
    pub label : String
    pub signing_key : SigningKey

  unfoldable pub verifying_key : Keypair → VerifyingKey
  verifying_key k = verifying_key_of k.signing_key

  unfoldable pub public_key_hex : Keypair → String
  unfolding verifying_key
  public_key_hex k = hex_encode (verifying_key_to_bytes (verifying_key k))

  unfoldable pub sign_message : Keypair → String → String
  sign_message k message = hex_encode (signature_to_bytes (sign k.signing_key (as_bytes message)))

  unfoldable pub derive_keypair : String → String → Keypair
  derive_keypair master_seed label =
      let seed = sha256 (as_bytes (concat (master_seed ∷ "::keyseed::" ∷ label ∷ []))) in
      record { label = label; signing_key = signing_key_from_bytes seed }

  unfoldable pub public_key_from_hex : String → Result CryptoError VerifyingKey
  public_key_from_hex public_key_hex = elim (hex_decode public_key_hex) [
    | none ↦ err invalid_hex
    | some bytes ↦
        if not (length bytes == 32)
        then err (invalid_key_length (length bytes))
        else elim (verifying_key_from_bytes bytes) [
          | none ↦ err invalid_public_key
          | some key ↦
              if not (bytes_eq (verifying_key_to_bytes key) bytes) || is_weak key
              then err invalid_public_key
              else ok key
        ]
  ]

  unfoldable pub verify_message : VerifyingKey → String → String → Bool
  verify_message key message signature_hex = elim (hex_decode signature_hex) [
    | none ↦ false
    | some signature_bytes ↦ elim (signature_from_slice signature_bytes) [
      | none ↦ false
      | some signature ↦ verify_strict key (as_bytes message) signature
    ]
  ]

  -- identity.rs. The slice `&digest[..64]` is the whole digest: 32 bytes are 64 hex digits.
  unfoldable pub derive_id : VerifyingKey → String
  unfolding sha256_hex
  derive_id key = concat ("id:" ∷ sha256_hex (verifying_key_to_bytes key) ∷ [])

  -- A message signed by a keypair verifies under the keypair's public key.
  pub verify_message-sign_message :
      (k : Keypair) (message : String)
      → verify_message (verifying_key k) message (sign_message k message) ≡ true
  unfolding verify_message sign_message verifying_key
  verify_message-sign_message k message =
      let s = sign k.signing_key (as_bytes message) in
      cc (
        hex_decode-signature s,
        signature_from_slice-to_bytes s,
        verify_strict-sign k.signing_key (as_bytes message),
      )

  -- An accepted key is not weak, and its canonical bytes are the ones that were given.
  pub public_key_from_hex-strong :
      (s : String) {key : VerifyingKey}
      → public_key_from_hex s ≡ ok key
      → (bytes : Bytes) × (hex_decode s ≡ some bytes)
        × (length bytes ≡ 32)
        × (bytes_eq (verifying_key_to_bytes key) bytes ≡ true)
        × (is_weak key ≡ false)
  unfolding public_key_from_hex
  public_key_from_hex-strong s h = ground arith
