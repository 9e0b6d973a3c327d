-- ===== src/Ids/Increment.antt =====
-- `addNodeID` adds one to a hexadecimal number.
use mathlib.Core.List.{reverse-cons, reverse-reverse}
use native.Mathlib.Nat.{pow-suc, mod-eq_of_lt, mod_self}
use reloadjs.Base.{
  ℕ, ◌+◌, ◌-◌, ◌*◌, ◌%◌, ◌^◌, ◌≤◌, ◌<◌, ◌≡◌, ◌⊎◌, inr, refl, ap, ◌∙◌, [], ◌∷◌, ◌++◌, reverse, arith,
  leb, if◌then◌else◌, length, length-append, All, Text,
}
use reloadjs.Ids.{hex_value, hex_char, increment, add_node_id}

-- A lower-case hexadecimal digit.
abbrev pub IsHexDigit : ℕ → Type 0
IsHexDigit c = ((b'0' ≤ c) × (c ≤ b'9')) ⊎ ((b'a' ≤ c) × (c ≤ b'f'))

abbrev pub IsHex : Text → Type 0
IsHex = All IsHexDigit

digit_of : ℕ → ℕ
digit_of c = if leb c b'9' then c - b'0' else c - b'a' + 10

-- The number that a hexadecimal text spells, read from the left.
number_from : ℕ → Text → ℕ
number_from acc [] = acc
number_from acc (c ∷ cs) = number_from (acc * 16 + digit_of c) cs

pub hex_number : Text → ℕ
hex_number = number_from 0

-- The same, with the last digit first.
low_first : Text → ℕ
low_first [] = 0
low_first (c ∷ cs) = digit_of c + 16 * low_first cs

hex_value-digit_of : (c : ℕ) → IsHexDigit c → (hex_value c ≡ digit_of c) × (digit_of c < 16)
unfolding hex_value digit_of
hex_value-digit_of c h = ground arith

hex_char-IsHexDigit : (d : ℕ) → d < 16 → IsHexDigit (hex_char d) × (digit_of (hex_char d) ≡ d)
unfolding hex_char digit_of
hex_char-IsHexDigit d h = ground arith

low_first-lt : (cs : Text) → IsHex cs → low_first cs < 16 ^ length cs
unfolding low_first
low_first-lt [] h = omega arith
low_first-lt (c ∷ cs) h =
    omega (arith, low_first-lt cs h.1, (hex_value-digit_of c h.0).1, pow-suc 16 (length cs))

increment-IsHex : (cs : Text) → IsHex cs → IsHex (increment cs)
unfolding increment
increment-IsHex [] h = tt
increment-IsHex (c ∷ cs) h =
    ((hex_char-IsHexDigit _ (omega arith)).0, ground (arith, increment-IsHex cs h.1))

length-increment : (cs : Text) → length (increment cs) ≡ length cs
unfolding increment
length-increment [] = refl
length-increment (c ∷ cs) = ground (arith, length-increment cs)

-- One digit: with a carry at 15, without one below.
increment_digit :
    (c : ℕ) (cs : Text)
    → IsHexDigit c
    → ((digit_of c ≡ 15) × (low_first (increment (c ∷ cs)) ≡ 16 * low_first (increment cs)))
      ⊎ ((digit_of c < 15) × (low_first (increment (c ∷ cs)) ≡ digit_of c + 1 + 16 * low_first cs))
unfolding increment low_first
increment_digit c cs h =
    ground (arith, hex_value-digit_of c h, hex_char-IsHexDigit ((hex_value c + 1) % 16))

low_first_cons : (c : ℕ) (cs : Text) → low_first (c ∷ cs) ≡ digit_of c + 16 * low_first cs
unfolding low_first
low_first_cons c cs = refl

-- The loop adds one, and wraps round to 0 from the greatest number of its length.
low_first-increment :
    (cs : Text)
    → IsHex cs
    → ((low_first (increment cs) ≡ low_first cs + 1) × (low_first cs + 1 < 16 ^ length cs))
      ⊎ ((low_first (increment cs) ≡ 0) × (low_first cs + 1 ≡ 16 ^ length cs))
low_first-increment [] h = unfold increment low_first in inr (refl, refl)
low_first-increment (c ∷ cs) h = ground (
  arith,
  low_first-increment cs h.1,
  low_first-lt cs h.1,
  increment_digit c cs h.0,
  low_first_cons c cs,
  pow-suc 16 (length cs),
)

low_first-append :
    (cs : Text) (c : ℕ) → low_first (cs ++ c ∷ []) ≡ low_first cs + digit_of c * 16 ^ length cs
unfolding low_first
low_first-append [] c = omega arith
low_first-append (d ∷ cs) c =
    omega (arith, low_first-append cs c, ap (λ (p : ℕ). digit_of c * p) (pow-suc 16 (length cs)))

length-reverse : (cs : Text) → length (reverse cs) ≡ length cs
length-reverse [] = refl
length-reverse (c ∷ cs) =
    omega
      (arith, ap length (reverse-cons c cs), length-append (reverse cs) (c ∷ []), length-reverse cs)

number_from-reverse :
    (acc : ℕ) (cs : Text) → number_from acc cs ≡ acc * 16 ^ length cs + low_first (reverse cs)
unfolding number_from
number_from-reverse acc [] = unfold low_first in omega arith
number_from-reverse acc (c ∷ cs) = omega (
  arith,
  number_from-reverse (acc * 16 + digit_of c) cs,
  ap low_first (reverse-cons c cs),
  low_first-append (reverse cs) c,
  ap (λ (n : ℕ). digit_of c * 16 ^ n) (length-reverse cs),
  ap (λ (p : ℕ). acc * p) (pow-suc 16 (length cs)),
)

hex_number-reverse : (cs : Text) → hex_number (reverse cs) ≡ low_first cs
unfolding hex_number
hex_number-reverse cs =
    omega (arith, number_from-reverse 0 (reverse cs), ap low_first (reverse-reverse cs))

All-append : (xs ys : Text) → IsHex xs → IsHex ys → IsHex (xs ++ ys)
All-append [] ys h k = k
All-append (x ∷ xs) ys h k = (h.0, All-append xs ys h.1 k)

IsHex-reverse : (cs : Text) → IsHex cs → IsHex (reverse cs)
IsHex-reverse [] h = tt
IsHex-reverse (c ∷ cs) h =
    rw (reverse-cons c cs) (All-append (reverse cs) (c ∷ []) (IsHex-reverse cs h.1) (h.0, tt))

low_first-wraps :
    (id : Text)
    → IsHex (reverse id)
    → low_first (increment (reverse id)) ≡ (hex_number id + 1) % 16 ^ length id
low_first-wraps id h = grind (
  arith,
  low_first-increment (reverse id) h,
  hex_number-reverse (reverse id),
  reverse-reverse id,
  length-reverse id,
  mod-eq_of_lt,
  mod_self,
)

-- For a non-empty lower-case hexadecimal identifier, `addNodeID` gives a hexadecimal identifier of
-- the same length that spells the next number, and the one after the greatest number is 0.
pub hex_number-add_node_id :
    (id : Text)
    → IsHex id
    → 0 < length id
    → IsHex (add_node_id id)
      × (length (add_node_id id) ≡ length id)
      × (hex_number (add_node_id id) ≡ (hex_number id + 1) % 16 ^ length id)
unfolding add_node_id
hex_number-add_node_id id h k = (
  IsHex-reverse (increment (reverse id)) (increment-IsHex (reverse id) (IsHex-reverse id h)),
  length-reverse (increment (reverse id)) ∙ length-increment (reverse id) ∙ length-reverse id,
  hex_number-reverse (increment (reverse id)) ∙ low_first-wraps id (IsHex-reverse id h),
)
