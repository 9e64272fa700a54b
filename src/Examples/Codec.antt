-- ===== src/Examples/Codec.antt =====
-- A stand-in for the serde crates: a text of tokens that reads back what was written.
use Prim.Native.Char.{Char, code}
use ciss.Prelude.{
  ℕ, zero, suc, ◌+◌, ◌≡◌, refl, ap, ◌∙◌, String, List, [], ◌∷◌, ◌==◌, if◌then◌else◌, arith,
}

pub data Token : Type 0 where
  num : ℕ → Token
  str : String → Token

-- `n` marks and the text behind them.
abbrev pub put_num : ℕ → String → String
put_num zero rest = rest
put_num (suc n) rest = String.◌∷◌ "x" (put_num n rest)

-- Every character of a text behind a mark of its own.
abbrev pub put_str : String → String → String
put_str String.[] rest = String.◌∷◌ "e" rest
put_str (String.◌∷◌ c s) rest = String.◌∷◌ "c" (String.◌∷◌ c (put_str s rest))

abbrev pub write : List Token → String
write [] = ""
write (num n ∷ ts) = put_num n (String.◌∷◌ "n" (write ts))
write (str s ∷ ts) = String.◌∷◌ "s" (put_str s (write ts))

-- Where the reader stands: behind some marks, inside a text, or behind the mark of a character.
pub data Mode : Type 0 where
  marks : ℕ → Mode
  inside taking : Mode

abbrev pub prefix : Char → String × List Token → String × List Token
prefix c (s, ts) = (String.◌∷◌ c s, ts)

abbrev pub emit_str : String × List Token → String × List Token
emit_str (s, ts) = ("", str s ∷ ts)

abbrev pub emit_num : ℕ → String × List Token → String × List Token
emit_num n (s, ts) = ("", num n ∷ ts)

abbrev pub scan : Mode → String → String × List Token
scan _ String.[] = ("", [])
scan (marks n) (String.◌∷◌ c s) =
    let more = scan (marks (n + 1)) s in
    let next = scan (marks 0) s in
    let text = scan inside s in
    if code c == b'x' then more else if code c == b'n' then emit_num n next else emit_str text
scan inside (String.◌∷◌ c s) =
    let next = scan (marks 0) s in
    let more = scan taking s in if code c == b'e' then ("", next.1) else more
scan taking (String.◌∷◌ c s) = prefix c (scan inside s)

abbrev pub read : String → List Token
read s = (scan (marks 0) s).1

pub scan-put_num :
    (m n : ℕ) (rest : String)
    → scan (marks m) (put_num n (String.◌∷◌ "n" rest)) ≡ ("", num (m + n) ∷ (scan (marks 0) rest).1)
scan-put_num m zero rest = ap (λ k. ("", num k ∷ (scan (marks 0) rest).1)) (omega arith)
scan-put_num m (suc n) rest =
    scan-put_num (m + 1) n rest ∙ ap (λ k. ("", num k ∷ (scan (marks 0) rest).1)) (omega arith)

pub scan-put_str : (s rest : String) → scan inside (put_str s rest) ≡ (s, (scan (marks 0) rest).1)
scan-put_str String.[] rest = refl
scan-put_str (String.◌∷◌ c s) rest = ap (prefix c) (scan-put_str s rest)

-- What was written reads back.
pub read-write : (ts : List Token) → read (write ts) ≡ ts
read-write [] = refl
read-write (num n ∷ ts) =
    ap (λ (u : String × List Token). u.1) (scan-put_num 0 n (write ts))
    ∙ rw (read-write ts) (ap (λ k. num k ∷ ts) (omega arith))
read-write (str s ∷ ts) =
    ap (λ (u : String × List Token). str u.0 ∷ u.1) (scan-put_str s (write ts))
    ∙ ap (λ r. str s ∷ r) (read-write ts)
