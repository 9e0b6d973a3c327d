-- ===== src/Transport/Json/RoundTrip.antt =====
-- The round trip of the texts of Transport/Json.
use reloadjs.Base.{ℕ, zero, suc, ◌<◌, ◌≡◌, refl, List, [], ◌∷◌, some, arith, length, Text, All}
use reloadjs.Transport.Wire.{IsPlain}
use reloadjs.Transport.Json.{
  digit_code, escape, quoted, more, stringify, plain, step, push, read_string, expect, end_of_text,
  read_items, parse,
}

read_string-escape :
    (c : ℕ) (rest : Text) → read_string plain (escape c rest) ≡ push c (read_string plain rest)
unfolding escape read_string step
read_string-escape c rest = ground arith

read_string-quoted : (s rest : Text) → read_string plain (quoted s rest) ≡ some (s, rest)
unfolding quoted
read_string-quoted [] rest = unfold read_string step in refl
read_string-quoted (c ∷ cs) rest = rw (read_string-escape, read_string-quoted cs rest) refl

-- A string takes at least its quotation mark.
quoted_longer : (s rest : Text) → length rest < length (quoted s rest)
unfolding quoted escape
quoted_longer [] rest = omega arith
quoted_longer (c ∷ cs) rest = ground (arith, quoted_longer cs rest)

read_items-more :
    (s : Text) (ss : List Text) (rounds : ℕ)
    → length ss < rounds
    → read_items rounds (b'"' ∷ quoted s (more ss)) ≡ some (s ∷ ss)
unfolding read_items more
read_items-more s ss zero h = absurd (omega (arith, h))
read_items-more s [] (suc rounds) h =
    unfold expect end_of_text in rw (read_items, read_string-quoted s (b']' ∷ [])) refl
read_items-more s (t ∷ ts) (suc rounds) h =
    unfold expect in
    rw
      (
        read_items,
        read_string-quoted s (b',' ∷ b'"' ∷ quoted t (more ts)),
        read_items-more t ts rounds (omega (arith, h)),
      )
      refl

length-more : (ss : List Text) → length ss < length (more ss)
unfolding more
length-more [] = omega arith
length-more (s ∷ ss) = omega (arith, length-more ss, quoted_longer s (more ss))

-- What is written is ASCII without the character 0, if the strings are ASCII.
abbrev pub IsAscii : Text → Type 0
IsAscii = All (λ c. c < 128)

IsPlain-escape : (c : ℕ) (rest : Text) → c < 128 → IsPlain rest → IsPlain (escape c rest)
unfolding escape digit_code
IsPlain-escape c rest h k = ground (arith, h, k)

IsPlain-quoted : (s rest : Text) → IsAscii s → IsPlain rest → IsPlain (quoted s rest)
unfolding quoted
IsPlain-quoted [] rest h k = ((omega arith, omega arith), k)
IsPlain-quoted (c ∷ cs) rest h k =
    IsPlain-escape c (quoted cs rest) h.0 (IsPlain-quoted cs rest h.1 k)

IsPlain-more : (ss : List Text) → All IsAscii ss → IsPlain (more ss)
unfolding more
IsPlain-more [] h = ground arith
IsPlain-more (s ∷ ss) h =
    let rest : IsPlain (quoted s (more ss)) =
      IsPlain-quoted s (more ss) h.0 (IsPlain-more ss h.1) in
    ground (arith, rest)

pub IsPlain-stringify : (ss : List Text) → All IsAscii ss → IsPlain (stringify ss)
unfolding stringify
IsPlain-stringify [] h = ground arith
IsPlain-stringify (s ∷ ss) h =
    let rest : IsPlain (quoted s (more ss)) =
      IsPlain-quoted s (more ss) h.0 (IsPlain-more ss h.1) in
    ground (arith, rest)

-- The array of any strings that `JSON.stringify` writes is read as these strings by `JSON.parse`:
-- whatever the characters, and for any number of strings.
pub parse-stringify : (ss : List Text) → parse (stringify ss) ≡ some ss
unfolding parse stringify
parse-stringify [] = unfold expect end_of_text in refl
parse-stringify (s ∷ ss) =
    unfold expect in
    read_items-more s ss (suc (length (quoted s (more ss))))
      (omega (arith, quoted_longer s (more ss), length-more ss))
