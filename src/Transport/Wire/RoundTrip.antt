-- ===== src/Transport/Wire/RoundTrip.antt =====
-- A header that is written is read back.
use mathlib.Core.Path.{subst}
use reloadjs.Base.{
  ℕ, ◌+◌, ◌<◌, ◌^◌, ◌%◌, ◌≡◌, refl, ◌==◌, Bool, true, false, List, ◌++◌, some, inl, inr, arith,
  if◌then◌else◌, Bool-cases,
}
use reloadjs.Transport.Header.{Flags, Header}
use reloadjs.Transport.Wire.{
  SmartBuffer, IsPlain, IsSmartBuffer, flag_bits, option_bytes, list_length, option_length, fits,
  header_bytes, serialize, read_options, deserialize,
}
use reloadjs.Transport.Wire.Lists.{ArePlain, read_list-list_bytes}

-- The header that the reader makes of a written one: with the lengths of the parts, without a
-- message length, and with the first of the three flags only.
unfoldable pub read_back : SmartBuffer → Header → Header
read_back b h = record h {
  message_length = 0;
  via_list_length = list_length b h.via_list;
  destination_list_length = list_length b h.destination_list;
  options_length = option_length b h.options;
  options = record {
    is_forward_critical = h.options.is_forward_critical;
    is_destination_critical = false;
    is_response_copy = false;
  };
}

module _ (b : SmartBuffer) (law : IsSmartBuffer b) where
  read_flags :
      (k : ℕ) (rest : List ℕ)
      → k < 2 ^ 8
      → read_options b (b.u16 0 ++ (b.u8 k ++ (b.u16 0 ++ rest)))
        ≡ some (
          record {
            is_forward_critical = k % 2 == 1;
            is_destination_critical = false;
            is_response_copy = false;
          },
          rest,
        )
  unfolding read_options
  read_flags k rest h =
      rw
        (
          law.u16_back 0 (omega arith) (b.u8 k ++ (b.u16 0 ++ rest)),
          law.u8_back k h (b.u16 0 ++ rest),
          law.u16_back 0 (omega arith) rest,
        )
        refl

  read_options-option_bytes :
      (f : Flags) (rest : List ℕ)
      → read_options b (option_bytes b f rest)
        ≡ some (
          record {
            is_forward_critical = f.is_forward_critical;
            is_destination_critical = false;
            is_response_copy = false;
          },
          rest,
        )
  unfolding option_bytes flag_bits
  read_options-option_bytes f rest =
      go f.is_forward_critical f.is_destination_critical f.is_response_copy
    where
      go :
          (x y z : Bool)
          → (let k : ℕ = (if x then 1 else 0) + (if y then 2 else 0) + (if z then 4 else 0) in
              read_options b (b.u16 0 ++ (b.u8 k ++ (b.u16 0 ++ rest))))
            ≡ some (
              record {
                is_forward_critical = x;
                is_destination_critical = false;
                is_response_copy = false;
              },
              rest,
            )
      go true true true = read_flags 7 rest (omega arith)
      go true true false = read_flags 3 rest (omega arith)
      go true false true = read_flags 5 rest (omega arith)
      go true false false = read_flags 1 rest (omega arith)
      go false true true = read_flags 6 rest (omega arith)
      go false true false = read_flags 2 rest (omega arith)
      go false false true = read_flags 4 rest (omega arith)
      go false false false = read_flags 0 rest (omega arith)

  -- Of a header whose numbers fit and whose texts are plain.
  deserialize-header_bytes :
      (h : Header) (rest : List ℕ)
      → fits b h ≡ true
      → IsPlain h.overlay
      → IsPlain h.configuration_sequence
      → ArePlain h.via_list
      → ArePlain h.destination_list
      → deserialize b (header_bytes b h rest) ≡ some (read_back b h, rest)
  unfolding deserialize header_bytes fits read_back
  deserialize-header_bytes h rest f po ps pv pd =
      rw
        (
          law.u32_back h.relo_token (ground (arith, f)),
          law.string_back h.overlay po,
          law.string_back h.configuration_sequence ps,
          law.u8_back h.version (ground (arith, f)),
          law.u8_back h.ttl (ground (arith, f)),
          law.u16_back h.fragment_head_value (ground (arith, f)),
          law.u16_back h.fragment_offset (ground (arith, f)),
          law.u32_back 0 (omega arith),
          law.u32_back h.transaction (ground (arith, f)),
          law.u32_back h.max_response_length (ground (arith, f)),
          law.u16_back (list_length b h.via_list) (ground (arith, f)),
          law.u16_back (list_length b h.destination_list) (ground (arith, f)),
          law.u16_back (option_length b h.options) (ground (arith, f)),
          read_list-list_bytes b law h.via_list _ pv,
          read_list-list_bytes b law h.destination_list _ pd,
          read_options-option_bytes h.options rest,
        )
        refl

-- Over a buffer library that reads back what it wrote: if writing a header throws at no number and
-- its texts are ASCII without the character 0, then reading the bytes gives the header back and
-- leaves what was written behind it. What the reader loses is the message length, which is written
-- as 0, and the second and third flag; the lengths of the lists and options are filled in.
pub deserialize-serialize :
    (b : SmartBuffer)
    → IsSmartBuffer b
    → (h : Header) (rest bytes : List ℕ) → serialize b h rest ≡ some bytes
    → IsPlain h.overlay
    → IsPlain h.configuration_sequence
    → ArePlain h.via_list
    → ArePlain h.destination_list
    → deserialize b bytes ≡ some (read_back b h, rest)
deserialize-serialize b law h rest bytes e po ps pv pd = elim (Bool-cases (fits b h)) [
  | inl fit ↦
      let same_bytes : some (header_bytes b h rest) ≡ some bytes =
        (unfold serialize in rw (fit, serialize) at e) in
      subst (λ (x : List ℕ). deserialize b x ≡ some (read_back b h, rest)) (cc (same_bytes))
        (deserialize-header_bytes b law h rest fit po ps pv pd)
  | inr throws ↦ absurd (unfold serialize in ground (arith, throws, e))
]
