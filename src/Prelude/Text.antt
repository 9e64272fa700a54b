-- ===== src/Prelude/Text.antt =====
-- Text as the code builds it: `format!` as a concatenation, numbers in decimal, and UTF-8 bytes.
pub mod Numbers
use Prim.Native.Char.{code}
use Prim.Native.String.{String}
use Prim.Native.String
use Prim.Native.Nat.{ℕ, zero, suc, ◌+◌, ◌-◌, ◌*◌, ◌^◌, ◌/◌, ◌%◌, Ordering}
use mathlib.Core.Path.{◌≡◌, refl}
use mathlib.Core.List.{List, [], ◌∷◌, ◌++◌}
use mathlib.Core.Bool.{◌&&◌}
use mathlib.Core.Option.{Option, none, some}
use ciss.Prelude.Tests.{ltb, leb, ◌==◌, if◌then◌else◌}
use ciss.Prelude.Int.{ℤ, pos, negsuc}

-- `format!`: the pieces of text one after the other.
unfoldable pub concat : List String → String
concat [] = ""
concat (s ∷ rest) = String.◌++◌ s (concat rest)

digit : ℕ → String
digit d =
    if d == 0
    then "0"
    else if d == 1
    then "1"
    else if d == 2
    then "2"
    else if d == 3
    then "3"
    else if d == 4
    then "4"
    else if d == 5
    then "5"
    else if d == 6
    then "6"
    else if d == 7
    then "7"
    else if d == 8
    then "8"
    else "9"

-- The digits of `n` in front of `acc`; every round divides `n` by ten, so `n + 1` rounds are enough.
digits_onto : ℕ → ℕ → String → String
digits_onto zero n acc = acc
digits_onto (suc fuel) n acc =
    let here = String.◌++◌ (digit (n % 10)) acc in
    let rest = digits_onto fuel (n / 10) here in if ltb n 10 then here else rest

-- `u64::to_string`.
unfoldable pub decimal : ℕ → String
unfolding digit digits_onto
decimal n = digits_onto (n + 1) n ""

-- `i64::to_string`.
unfoldable pub decimal_ℤ : ℤ → String
unfolding decimal
decimal_ℤ (pos n) = decimal n
decimal_ℤ (negsuc n) = String.◌++◌ "-" (decimal (n + 1))

-- The UTF-8 bytes of one scalar value.
encode_utf8 : ℕ → List ℕ
encode_utf8 c =
    if ltb c 0x80
    then c ∷ []
    else if ltb c 0x800
    then (0xc0 + c / 64) ∷ (0x80 + c % 64) ∷ []
    else if ltb c 0x10000
    then (0xe0 + c / 4096) ∷ (0x80 + c / 64 % 64) ∷ (0x80 + c % 64) ∷ []
    else (0xf0 + c / 262144) ∷ (0x80 + c / 4096 % 64) ∷ (0x80 + c / 64 % 64) ∷ (0x80 + c % 64) ∷ []

-- `str::as_bytes`.
unfoldable pub as_bytes : String → List ℕ
unfolding encode_utf8
as_bytes String.[] = []
as_bytes (String.◌∷◌ c s) = encode_utf8 (code c) ++ as_bytes s

abbrev digit_value : ℕ → Option ℕ
digit_value b = if leb b'0' b && leb b b'9' then some (b - b'0') else none

-- The digits behind a number read so far; a number of 2^64 or more is refused.
parse_digits : ℕ → List ℕ → Option ℕ
parse_digits acc [] = some acc
parse_digits acc (b ∷ rest) = elim (digit_value b) [
  | none ↦ none
  | some d ↦
      let n : ℕ = acc * 10 + d in
      let more = parse_digits n rest in if ltb n (2 ^ 64) then more else none
]

parse_unsigned : List ℕ → Option ℕ
unfolding parse_digits
parse_unsigned [] = none
parse_unsigned (b ∷ rest) = parse_digits 0 (b ∷ rest)

parse_signed : List ℕ → Option ℕ
unfolding parse_unsigned
parse_signed [] = none
parse_signed (b ∷ rest) = if b == b'+' then parse_unsigned rest else parse_unsigned (b ∷ rest)

-- `str::parse::<u64>`: a plus sign may lead, and at least one digit follows.
unfoldable pub parse_u64 : String → Option ℕ
unfolding parse_signed
parse_u64 s = parse_signed (as_bytes s)

decimal_runs : (decimal 0 ≡ "0") × (decimal 1907 ≡ "1907") × (decimal_ℤ (negsuc 41) ≡ "-42")
unfolding decimal decimal_ℤ
decimal_runs = (refl, refl, refl)

as_bytes_runs : as_bytes "aé" ≡ 0x61 ∷ 0xc3 ∷ 0xa9 ∷ []
unfolding as_bytes
as_bytes_runs = refl

-- `slice::join`.
unfoldable pub join : String → List String → String
join sep [] = ""
join sep (s ∷ []) = s
join sep (s ∷ t ∷ rest) = String.◌++◌ s (String.◌++◌ sep (join sep (t ∷ rest)))

-- One text among sorted ones, behind those that are not greater.
unfoldable pub insert_sorted : String → List String → List String
insert_sorted s [] = s ∷ []
insert_sorted s (t ∷ rest) = elim (String.compare s t) [
  | Ordering.lt ↦ s ∷ t ∷ rest
  | _ ↦ t ∷ insert_sorted s rest
]

-- `slice::sort` on texts.
unfoldable pub sort : List String → List String
unfolding insert_sorted
sort [] = []
sort (s ∷ rest) = insert_sorted s (sort rest)
