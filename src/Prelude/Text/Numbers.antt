-- ===== src/Prelude/Text/Numbers.antt =====
-- A number that is written in decimal reads back.
use Prim.Native.Nat.{ℕ, zero, suc, ◌+◌, ◌*◌, ◌^◌, ◌/◌, ◌%◌, ◌<◌}
use Prim.Native.String.{String}
use Prim.Native.Char.{Char, code}
use Prim.Native.String
use Prim.Native.String.append
use mathlib.Core.Path.{◌≡◌, ◌∙◌, ap}
use mathlib.Core.Logic.{inl, inr}
use mathlib.Core.Option.{some}
use mathlib.Core.List.{List, [], ◌∷◌, ◌++◌}
use native.Mathlib.Omega.{arith}
use ciss.Prelude.Tests.{ltb, ltb→lt, Bool-cases, Option-cases, ◌==◌}
use ciss.Prelude.Text.{
  encode_utf8, parse_unsigned, digit, digits_onto, decimal, as_bytes, parse_digits, parse_u64,
  parse_signed, digit_value,
}

as_bytes-cons :
    (c : Char) (acc : String)
    → as_bytes (String.◌++◌ (String.◌∷◌ c String.[]) acc) ≡ encode_utf8 (code c) ++ as_bytes acc
unfolding as_bytes
as_bytes-cons c acc =
    ap as_bytes (append.cons c String.[] acc ∙ ap (λ s. String.◌∷◌ c s) (append.nil acc))

-- A digit is one byte.
as_bytes-digit :
    (d : ℕ) (acc : String) → d < 10 → as_bytes (String.◌++◌ (digit d) acc) ≡ (48 + d) ∷ as_bytes acc
unfolding as_bytes digit encode_utf8
as_bytes-digit zero acc h = as_bytes-cons "0" acc
as_bytes-digit (suc zero) acc h = as_bytes-cons "1" acc
as_bytes-digit (suc (suc zero)) acc h = as_bytes-cons "2" acc
as_bytes-digit (suc (suc (suc zero))) acc h = as_bytes-cons "3" acc
as_bytes-digit (suc (suc (suc (suc zero)))) acc h = as_bytes-cons "4" acc
as_bytes-digit (suc (suc (suc (suc (suc zero))))) acc h = as_bytes-cons "5" acc
as_bytes-digit (suc (suc (suc (suc (suc (suc zero)))))) acc h = as_bytes-cons "6" acc
as_bytes-digit (suc (suc (suc (suc (suc (suc (suc zero))))))) acc h = as_bytes-cons "7" acc
as_bytes-digit (suc (suc (suc (suc (suc (suc (suc (suc zero)))))))) acc h = as_bytes-cons "8" acc
as_bytes-digit (suc (suc (suc (suc (suc (suc (suc (suc (suc zero))))))))) acc h =
    as_bytes-cons "9" acc
as_bytes-digit (suc (suc (suc (suc (suc (suc (suc (suc (suc (suc d)))))))))) acc h =
    absurd (omega arith)

parse_digits-digit :
    (n d : ℕ) (rest : List ℕ)
    → d < 10
    → n * 10 + d < 2 ^ 64
    → parse_digits n ((48 + d) ∷ rest) ≡ parse_digits (n * 10 + d) rest
unfolding parse_digits
parse_digits-digit n d rest small fits = ground arith

parse_digits-digits_onto :
    (fuel n : ℕ) (acc : String)
    → n < fuel
    → n < 2 ^ 64
    → parse_digits 0 (as_bytes (digits_onto fuel n acc)) ≡ parse_digits n (as_bytes acc)
unfolding digits_onto
parse_digits-digits_onto zero n acc enough fits = elim enough [ ]
parse_digits-digits_onto (suc fuel) n acc enough fits = elim (Bool-cases (ltb n 10)) [
  | inl small ↦
      let only : n % 10 ≡ n = ground arith in
      rw (small, only)
        (ap (parse_digits 0) (as_bytes-digit n acc (ground arith))
          ∙ parse_digits-digit 0 n (as_bytes acc) (ground arith) (omega arith)
          ∙ ap (λ k. parse_digits k (as_bytes acc)) (omega arith))
  | inr large ↦ rw large (
      parse_digits-digits_onto fuel (n / 10) (String.◌++◌ (digit (n % 10)) acc) (ground arith)
        (omega arith)
      ∙ ap (parse_digits (n / 10)) (as_bytes-digit (n % 10) acc (omega arith))
      ∙ parse_digits-digit (n / 10) (n % 10) (as_bytes acc) (omega arith) (omega arith)
      ∙ ap (λ k. parse_digits k (as_bytes acc)) (omega arith))
]

digits_onto-head :
    (fuel n : ℕ) (acc : String)
    → n < fuel
    → (d : ℕ) × (rest : List ℕ) × (as_bytes (digits_onto fuel n acc) ≡ (48 + d) ∷ rest)
unfolding digits_onto
digits_onto-head zero n acc enough = elim enough [ ]
digits_onto-head (suc fuel) n acc enough = elim (Bool-cases (ltb n 10)) [
  | inl small ↦ (n % 10, as_bytes acc, rw small (as_bytes-digit (n % 10) acc (omega arith)))
  | inr large ↦
      let (d, rest, e) =
        digits_onto-head fuel (n / 10) (String.◌++◌ (digit (n % 10)) acc) (ground arith) in
      (d, rest, rw large e)
]

-- `str::parse::<u64>` inverts `u64::to_string`.
pub parse_u64-decimal : (n : ℕ) → n < 2 ^ 64 → parse_u64 (decimal n) ≡ some n
unfolding parse_u64 parse_unsigned decimal as_bytes parse_digits
parse_u64-decimal n fits =
    let (d, rest, e) = digits_onto-head (n + 1) n "" (omega arith) in
    let value = parse_digits-digits_onto (n + 1) n "" (omega arith) fits in ground (arith, e, value)

parse_digits-lt :
    (acc n : ℕ) (bytes : List ℕ) → acc < 2 ^ 64 → parse_digits acc bytes ≡ some n → n < 2 ^ 64
unfolding parse_digits
parse_digits-lt acc n [] small h = ground arith
parse_digits-lt acc n (b ∷ rest) small h = elim (Option-cases (digit_value b)) [
  | inl none' ↦ ground arith
  | inr (d, is_digit) ↦ elim (Bool-cases (ltb (acc * 10 + d) (2 ^ 64))) [
    | inr over ↦ ground arith
    | inl fits ↦
        parse_digits-lt (acc * 10 + d) n rest (ltb→lt (acc * 10 + d) (2 ^ 64) fits) (ground arith)
  ]
]

parse_unsigned-lt : (n : ℕ) (bytes : List ℕ) → parse_unsigned bytes ≡ some n → n < 2 ^ 64
unfolding parse_unsigned
parse_unsigned-lt n [] h = ground arith
parse_unsigned-lt n (b ∷ rest) h = parse_digits-lt 0 n (b ∷ rest) (omega arith) h

parse_signed-lt : (n : ℕ) (bytes : List ℕ) → parse_signed bytes ≡ some n → n < 2 ^ 64
unfolding parse_signed
parse_signed-lt n [] h = ground arith
parse_signed-lt n (b ∷ rest) h = elim (Bool-cases (b == b'+')) [
  | inl plus ↦ parse_unsigned-lt n rest (ground arith)
  | inr digit ↦ parse_unsigned-lt n (b ∷ rest) (ground arith)
]

pub parse_u64-lt : (s : String) (n : ℕ) → parse_u64 s ≡ some n → n < 2 ^ 64
unfolding parse_u64
parse_u64-lt s n h = parse_signed-lt n (as_bytes s) h
