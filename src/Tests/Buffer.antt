-- ===== src/Tests/Buffer.antt =====
-- A buffer library with big-endian numbers, and strings that end in 0.
use Prim.Native.Nat.{◌/◌}
use reloadjs.Base.{
  ℕ, zero, suc, length, ◌+◌, ◌*◌, ◌%◌, ◌≡◌, refl, ap, ◌==◌, List, [], ◌∷◌, ◌++◌, Option, none, some,
  arith, if◌then◌else◌, Text,
}
use reloadjs.Transport.Wire.{SmartBuffer, IsPlain, IsSmartBuffer}

unfoldable pub take_string : List ℕ → Option (Text × List ℕ)
take_string [] = none
take_string (c ∷ cs) =
    let rest = take_string cs in
    if c == 0 then some ([], cs) else elim rest [ none ↦ none | some r ↦ some (c ∷ r.0, r.1) ]

abbrev take_bytes : ℕ → List ℕ → Option (List ℕ × List ℕ)
take_bytes zero xs = some ([], xs)
take_bytes (suc n) [] = none
take_bytes (suc n) (x ∷ xs) = elim (take_bytes n xs) [ none ↦ none | some r ↦ some (x ∷ r.0, r.1) ]

abbrev read_two : List ℕ → Option (ℕ × List ℕ)
read_two (x ∷ y ∷ rest) = some (x * 256 + y, rest)
read_two _ = none

abbrev read_four : List ℕ → Option (ℕ × List ℕ)
read_four (x ∷ y ∷ z ∷ u ∷ rest) = some (((x * 256 + y) * 256 + z) * 256 + u, rest)
read_four _ = none

abbrev read_one : List ℕ → Option (ℕ × List ℕ)
read_one [] = none
read_one (x ∷ rest) = some (x, rest)

abbrev pub octets : SmartBuffer
octets = record {
  u8 = λ n. n % 256 ∷ [];
  u16 = λ n. n / 256 % 256 ∷ n % 256 ∷ [];
  u32 = λ n. n / 256 / 256 / 256 % 256 ∷ n / 256 / 256 % 256 ∷ n / 256 % 256 ∷ n % 256 ∷ [];
  string_nt = λ s. s ++ 0 ∷ [];
  buffer_nt = λ d. d ++ 0 ∷ [];
  read_u8 = read_one;
  read_u16 = read_two;
  read_u32 = read_four;
  read_string_nt = take_string;
  read_buffer = take_bytes;
}

take_string_back :
    (s : Text) → IsPlain s → (rest : List ℕ) → take_string ((s ++ 0 ∷ []) ++ rest) ≡ some (s, rest)
unfolding take_string
take_string_back [] p rest = refl
take_string_back (c ∷ cs) p rest = ground (arith, take_string_back cs p.1 rest, p.0)

take_bytes_back : (d rest : List ℕ) → take_bytes (length d) (d ++ rest) ≡ some (d, rest)
take_bytes_back [] rest = refl
take_bytes_back (x ∷ xs) rest = rw (take_bytes_back xs rest) refl

pub octets-IsSmartBuffer : IsSmartBuffer octets
octets-IsSmartBuffer = record {
  u8_width = λ n. refl;
  u32_width = λ n. refl;
  u8_back = λ n h rest. ap (λ (x : ℕ). some (x, rest)) (omega (arith, h));
  u16_back = λ n h rest. ap (λ (x : ℕ). some (x, rest)) (omega (arith, h));
  u32_back = λ n h rest. ap (λ (x : ℕ). some (x, rest)) (omega (arith, h));
  string_back = take_string_back;
  string_end = refl;
  buffer_back = take_bytes_back;
}
