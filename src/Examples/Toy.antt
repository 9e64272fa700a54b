-- ===== src/Examples/Toy.antt =====
-- Stand-ins for the cryptography: a checksum for the hash, and for a signature the key beside the
-- parities of the message. They keep the promises of `Primitives`, and prove nothing about secrecy.
use Prim.Native.Char.{Char, code}
use ciss.Prelude.{
  ℕ, zero, suc, ◌+◌, ◌-◌, ◌*◌, ◌/◌, ◌%◌, ◌≡◌, refl, ap, String, Bool, true, false, ◌&&◌, Option,
  none, some, List, [], ◌∷◌, map, ltb, leb, ◌==◌, if◌then◌else◌,
}
use ciss.Crypto.{Bytes, Primitives}

abbrev pub hex_digit : ℕ → Char
hex_digit d =
    if ltb d 10
    then (if d == 0
        then "0"
        else if d == 1
        then "1"
        else if d == 2
        then "2"
        else if d == 3
        then "3"
        else if d == 4
        then "4"
        else if d == 5
        then "5"
        else if d == 6
        then "6"
        else if d == 7
        then "7"
        else if d == 8
        then "8"
        else "9")
    else if d == 10
    then "a"
    else if d == 11
    then "b"
    else if d == 12
    then "c"
    else if d == 13
    then "d"
    else if d == 14
    then "e"
    else "f"

abbrev pub encode : Bytes → String
encode [] = ""
encode (n ∷ rest) = String.◌∷◌ (hex_digit (n / 16)) (String.◌∷◌ (hex_digit (n % 16)) (encode rest))

abbrev pub digit_of : ℕ → ℕ
digit_of c = if leb b'a' c then c - b'a' + 10 else c - b'0'

abbrev pub cons_byte : ℕ → ℕ → Option Bytes → Option Bytes
cons_byte a b none = none
cons_byte a b (some bytes) = some ((digit_of a * 16 + digit_of b) ∷ bytes)

abbrev pub decode : String → Option Bytes
decode String.[] = some []
decode (String.◌∷◌ c String.[]) = none
decode (String.◌∷◌ c (String.◌∷◌ d s)) = cons_byte (code c) (code d) (decode s)

-- A signature is a list of bits.
abbrev pub bits_to_bytes : List Bool → Bytes
bits_to_bytes [] = []
bits_to_bytes (true ∷ bs) = 1 ∷ bits_to_bytes bs
bits_to_bytes (false ∷ bs) = 0 ∷ bits_to_bytes bs

abbrev pub bytes_to_bits : Bytes → Option (List Bool)
bytes_to_bits [] = some []
bytes_to_bits (n ∷ ns) = elim (bytes_to_bits ns) [ none ↦ none | some bs ↦ some ((n == 1) ∷ bs) ]

pub decode-encode : (s : List Bool) → decode (encode (bits_to_bytes s)) ≡ some (bits_to_bytes s)
decode-encode [] = refl
decode-encode (true ∷ bs) = ap (cons_byte b'0' b'1') (decode-encode bs)
decode-encode (false ∷ bs) = ap (cons_byte b'0' b'0') (decode-encode bs)

pub bytes_to_bits-bits_to_bytes : (s : List Bool) → bytes_to_bits (bits_to_bytes s) ≡ some s
bytes_to_bits-bits_to_bytes [] = refl
bytes_to_bits-bits_to_bytes (true ∷ bs) = rw (bytes_to_bits-bits_to_bytes bs) refl
bytes_to_bits-bits_to_bytes (false ∷ bs) = rw (bytes_to_bits-bits_to_bytes bs) refl

abbrev pub is_odd : ℕ → Bool
is_odd n = n % 2 == 1

abbrev pub toy_sign : ℕ → Bytes → List Bool
toy_sign k message = is_odd k ∷ map is_odd message

abbrev pub same_bits : List Bool → List Bool → Bool
same_bits [] [] = true
same_bits (true ∷ xs) (true ∷ bs) = same_bits xs bs
same_bits (false ∷ xs) (false ∷ bs) = same_bits xs bs
same_bits _ _ = false

pub same_bits_refl : (s : List Bool) → same_bits s s ≡ true
same_bits_refl [] = refl
same_bits_refl (true ∷ bs) = same_bits_refl bs
same_bits_refl (false ∷ bs) = same_bits_refl bs

abbrev pub checksum : ℕ → Bytes → ℕ
checksum acc [] = acc
checksum acc (n ∷ rest) = checksum ((acc * 31 + n + 7) % 65521) rest

abbrev pub pad : ℕ → Bytes
pad zero = []
pad (suc n) = 0 ∷ pad n

abbrev pub toy_sha256 : Bytes → Bytes
toy_sha256 bytes = let h = checksum 1 bytes in (h % 256) ∷ (h / 256) ∷ pad 30

abbrev pub first : Bytes → ℕ
first [] = 0
first (n ∷ _) = n

abbrev pub byte_eq : Bytes → Bytes → Bool
byte_eq [] [] = true
byte_eq (a ∷ xs) (b ∷ bs) = a == b && byte_eq xs bs
byte_eq _ _ = false

abbrev pub toy : Primitives
toy = record {
  sha256 = toy_sha256;
  hex_encode = encode;
  hex_decode = decode;
  SigningKey = ℕ;
  VerifyingKey = ℕ;
  Signature = List Bool;
  signing_key_from_bytes = first;
  verifying_key_of = λ k. k;
  verifying_key_from_bytes = λ bytes. some (first bytes);
  verifying_key_to_bytes = λ k. k ∷ pad 31;
  is_weak = λ k. k == 0;
  bytes_eq = byte_eq;
  sign = toy_sign;
  signature_to_bytes = bits_to_bytes;
  signature_from_slice = bytes_to_bits;
  verify_strict = λ k m s. same_bits s (toy_sign k m);
  hex_decode-signature = decode-encode;
  signature_from_slice-to_bytes = bytes_to_bits-bits_to_bytes;
  verify_strict-sign = λ k m. same_bits_refl (toy_sign k m);
}
