-- ===== src/Identifiers/Safety.antt =====
-- What an accepted identifier cannot contain: a path separator, a comma, a space or a control byte.
use ciss.Prelude.{
  ℕ, ◌≤◌, ◌<◌, String, ◌≡◌, Bool, true, some, [], ◌∷◌, ◌==◌, length, all, ok, arith, refl, inl, inr,
  Bool-cases, Option-cases,
}
use ciss.Prelude.Text.{as_bytes}
use ciss.Crypto.{Bytes}
use ciss.Identifiers.{
  Did, ContentAddr, max_did_len, is_msid_byte, is_lower_hex_byte, is_lower_hex, is_method_byte,
  strip_prefix, split_once_colon, id_prefix, did_prefix, method_msid_ok, is_valid_did, parse_did,
  parse_content_addr,
}

-- Letters, digits and `. _ - : %`.
abbrev pub all_safe : Bytes → Bool
all_safe = all is_msid_byte

all_mono :
    (f g : ℕ → Bool) (s : Bytes)
    → ((b : ℕ) → f b ≡ true → g b ≡ true)
    → all f s ≡ true
    → all g s ≡ true
all_mono f g [] h a = refl
all_mono f g (b ∷ s) h a = ground (arith, h b, all_mono f g s h)

hex_safe : (b : ℕ) → is_lower_hex_byte b ≡ true → is_msid_byte b ≡ true
unfolding is_lower_hex_byte is_msid_byte
hex_safe b h = ground arith

method_safe : (b : ℕ) → is_method_byte b ≡ true → is_msid_byte b ≡ true
unfolding is_method_byte is_msid_byte
method_safe b h = ground arith

strip_prefix-safe :
    (p s : Bytes) {r : Bytes}
    → strip_prefix p s ≡ some r
    → all_safe p ≡ true
    → all_safe r ≡ true
    → all_safe s ≡ true
unfolding strip_prefix
strip_prefix-safe [] s e hp hr = ground arith
strip_prefix-safe (c ∷ p) [] e hp hr = refl
strip_prefix-safe (c ∷ p) (b ∷ s) {r} e hp hr = ground (arith, strip_prefix-safe p s {r = r})

colon_safe : (b : ℕ) → (b == b':') ≡ true → is_msid_byte b ≡ true
unfolding is_msid_byte
colon_safe b h = ground arith

split_once_colon-safe :
    (s : Bytes) {l r : Bytes}
    → split_once_colon s ≡ some (l, r)
    → all_safe l ≡ true
    → all_safe r ≡ true
    → all_safe s ≡ true
unfolding split_once_colon
split_once_colon-safe [] e hl hr = refl
split_once_colon-safe (b ∷ s) {l} {r} e hl hr = elim (Bool-cases (b == b':')) [
  | inl colon ↦ let e' = rw colon at e in ground (arith, colon_safe b colon)
  | inr other ↦ elim (Option-cases (split_once_colon s)) [
    | inl stuck ↦ ground (arith, other, stuck)
    | inr (q, found) ↦ ground (arith, other, found, split_once_colon-safe s {l = q.0} {r = q.1})
  ]
]

is_valid_did-safe : (s : Bytes) → is_valid_did s ≡ true → all_safe s ≡ true
unfolding is_valid_did method_msid_ok is_lower_hex
is_valid_did-safe s h = elim (Option-cases (strip_prefix id_prefix s)) [
  | inr (r, e) ↦
      strip_prefix-safe id_prefix s e (unfold is_msid_byte in refl)
        (all_mono is_lower_hex_byte is_msid_byte r hex_safe (ground (arith, e)))
  | inl n ↦ elim (Option-cases (strip_prefix did_prefix s)) [
    | inl n' ↦ ground (arith, n, n')
    | inr (r, e) ↦ elim (Option-cases (split_once_colon r)) [
      | inl n'' ↦ ground (arith, n, e, n'')
      | inr ((m, i), e') ↦ strip_prefix-safe did_prefix s e (unfold is_msid_byte in refl) (
          split_once_colon-safe r e'
            (all_mono is_method_byte is_msid_byte m method_safe (ground (arith, n, e, e')))
            (ground (arith, n, e, e')))
    ]
  ]
]

-- Every byte of an accepted DID is a letter, a digit or one of `. _ - : %`, and there are 1 to 256
-- bytes of them: no path separator, comma, white space or control byte.
pub parse_did-safe :
    (raw : String) {d : Did}
    → parse_did raw ≡ ok d
    → (d.text ≡ raw)
      × (all_safe (as_bytes raw) ≡ true)
      × (0 < length (as_bytes raw))
      × (length (as_bytes raw) ≤ max_did_len)
unfolding parse_did
parse_did-safe raw h = ground (arith, is_valid_did-safe (as_bytes raw))

-- An accepted content address is 64 bytes of lower-case hexadecimal.
pub parse_content_addr-hex :
    (raw : String) {c : ContentAddr}
    → parse_content_addr raw ≡ ok c
    → (c.text ≡ raw) × (length (as_bytes raw) ≡ 64) × (is_lower_hex (as_bytes raw) ≡ true)
unfolding parse_content_addr
parse_content_addr-hex raw h = ground arith
