-- ===== src/Transport/Wire.antt =====
-- `serialize` and `deSerialize` of Transport/messages/header.js, header/DestinationList.js,
-- header/RoutableID.js, header/NodeID.js, header/ResourceID.js, header/OpaqueID.js and
-- header/ForwardingOption.js. The buffers are those of the library smart-buffer.
mod Reads
pub mod Lists
pub mod RoundTrip
pub use Reads.*
use reloadjs.Base.{
  ℕ, zero, suc, ◌+◌, ◌-◌, ◌<◌, ◌^◌, ◌%◌, ◌≡◌, refl, ap, ◌==◌, ltb, Bool, true, false, ◌&&◌, List,
  [], ◌∷◌, ◌++◌, Option, none, some, if◌then◌else◌, length, All, Text,
}
use reloadjs.Transport.Header.{
  RoutableId, node_id, resource_id, opaque_id, get_type, id_text, Flags, Header,
}

-- The bytes that a write of `SmartBuffer` appends, and what a read takes from the front of the bytes
-- that are left.
pub record SmartBuffer : Type 0 where
  pub u8 : ℕ → List ℕ
  pub u16 : ℕ → List ℕ
  pub u32 : ℕ → List ℕ
  pub string_nt : Text → List ℕ
  pub buffer_nt : List ℕ → List ℕ
  pub read_u8 : List ℕ → Option (ℕ × List ℕ)
  pub read_u16 : List ℕ → Option (ℕ × List ℕ)
  pub read_u32 : List ℕ → Option (ℕ × List ℕ)
  pub read_string_nt : List ℕ → Option (Text × List ℕ)
  pub read_buffer : ℕ → List ℕ → Option (List ℕ × List ℕ)

-- ASCII without the character that ends a string.
abbrev pub IsPlain : Text → Type 0
IsPlain = All (λ c. (0 < c) × (c < 128))

-- What is written is read back, a byte is one byte, 32 bits are four, and a string ends in the byte 0.
pub record IsSmartBuffer (b : SmartBuffer) : Type 0 where
  pub u8_width : (n : ℕ) → length (b.u8 n) ≡ 1
  pub u32_width : (n : ℕ) → length (b.u32 n) ≡ 4
  pub u8_back : (n : ℕ) → n < 2 ^ 8 → (rest : List ℕ) → b.read_u8 (b.u8 n ++ rest) ≡ some (n, rest)
  pub u16_back :
      (n : ℕ) → n < 2 ^ 16 → (rest : List ℕ) → b.read_u16 (b.u16 n ++ rest) ≡ some (n, rest)
  pub u32_back :
      (n : ℕ) → n < 2 ^ 32 → (rest : List ℕ) → b.read_u32 (b.u32 n ++ rest) ≡ some (n, rest)
  pub string_back :
      (s : Text)
      → IsPlain s
      → (rest : List ℕ) → b.read_string_nt (b.string_nt s ++ rest) ≡ some (s, rest)
  pub string_end : b.string_nt [] ≡ b.u8 0
  pub buffer_back : (d rest : List ℕ) → b.read_buffer (length d) (d ++ rest) ≡ some (d, rest)

-- `serialize` of an identifier, with the bytes that are written behind it.
unfoldable pub id_bytes : SmartBuffer → RoutableId → List ℕ → List ℕ
id_bytes b id rest = b.u8 (get_type id) ++ (b.string_nt (id_text id) ++ rest)

-- `DestinationList.serialize`.
unfoldable pub list_bytes : SmartBuffer → List RoutableId → List ℕ → List ℕ
unfolding id_bytes
list_bytes b [] rest = rest
list_bytes b (id ∷ ids) rest = id_bytes b id (list_bytes b ids rest)

-- `ForwardingOption.serialize`.
unfoldable pub flag_bits : Flags → ℕ
flag_bits f =
    (if f.is_forward_critical then 1 else 0)
    + (if f.is_destination_critical then 2 else 0)
    + (if f.is_response_copy then 4 else 0)

unfoldable pub option_bytes : SmartBuffer → Flags → List ℕ → List ℕ
unfolding flag_bits
option_bytes b f rest = b.u16 0 ++ (b.u8 (flag_bits f) ++ (b.u16 0 ++ rest))

-- How many bytes the parts take that the header holds the lengths of.
unfoldable pub list_length : SmartBuffer → List RoutableId → ℕ
unfolding list_bytes
list_length b ids = length (list_bytes b ids [])

unfoldable pub option_length : SmartBuffer → Flags → ℕ
unfolding option_bytes
option_length b f = length (option_bytes b f [])

-- A number out of range makes its write throw.
unfoldable pub fits : SmartBuffer → Header → Bool
unfolding list_length option_length
fits b h =
    ltb h.relo_token (2 ^ 32)
    && ltb h.version (2 ^ 8)
    && ltb h.ttl (2 ^ 8)
    && ltb h.fragment_head_value (2 ^ 16)
    && ltb h.fragment_offset (2 ^ 16)
    && ltb h.transaction (2 ^ 32)
    && ltb h.max_response_length (2 ^ 32)
    && ltb (list_length b h.via_list) (2 ^ 16)
    && ltb (list_length b h.destination_list) (2 ^ 16)
    && ltb (option_length b h.options) (2 ^ 16)

-- The bytes of a header. The three lengths are written as 0 first and are overwritten at the end.
unfoldable pub header_bytes : SmartBuffer → Header → List ℕ → List ℕ
unfolding list_bytes option_bytes list_length option_length
header_bytes b h rest =
    b.u32 h.relo_token
    ++ (b.string_nt h.overlay
        ++ (b.string_nt h.configuration_sequence
            ++ (b.u8 h.version
                ++ (b.u8 h.ttl
                    ++ (b.u16 h.fragment_head_value
                        ++ (b.u16 h.fragment_offset
                            ++ (b.u32 0
                                ++ (b.u32 h.transaction
                                    ++ (b.u32 h.max_response_length
                                        ++ (b.u16 (list_length b h.via_list)
                                            ++ (b.u16 (list_length b h.destination_list)
                                                ++ (b.u16 (option_length b h.options)
                                                    ++ list_bytes b h.via_list (
                                                        list_bytes b h.destination_list (
                                                          option_bytes b h.options
                                                            rest))))))))))))))

-- `Header.serialize` with what is written behind it.
unfoldable pub serialize : SmartBuffer → Header → List ℕ → Option (List ℕ)
unfolding fits header_bytes
serialize b h rest = if fits b h then some (header_bytes b h rest) else none

unfoldable pub make_id : ℕ → Text → List ℕ → Option (RoutableId × List ℕ)
make_id type id rest =
    if type == 1
    then some (node_id id, rest)
    else if type == 2
    then some (resource_id id, rest)
    else if type == 3
    then some (opaque_id id, rest)
    else none

-- `RoutableID.deSerialize`.
unfoldable pub read_id : SmartBuffer → List ℕ → Option (RoutableId × List ℕ)
unfolding make_id
read_id b bytes =
    next (b.read_u8 bytes)
      (λ type rest. next (b.read_string_nt rest) (λ id rest. make_id type id rest))

-- `DestinationList.deSerialize` with the number of bytes that are still to be read, for as many
-- rounds as there are bytes and one more.
unfoldable pub read_ids : SmartBuffer → ℕ → ℕ → List ℕ → Option (List RoutableId × List ℕ)
unfolding read_id
read_ids b zero left bytes = none
read_ids b (suc rounds) left bytes =
    if left == 0
    then some ([], bytes)
    else next (read_id b bytes) (λ id rest.
      next (read_ids b rounds (left - (length bytes - length rest)) rest)
        (λ ids rest. some (id ∷ ids, rest)))

-- `ForwardingOption.deSerialize`; `flags & 0x02 == 1` is `flags & (0x02 == 1)`, which is 0.
unfoldable pub read_options : SmartBuffer → List ℕ → Option (Flags × List ℕ)
read_options b bytes = next (b.read_u16 bytes) (λ type rest. next (b.read_u8 rest) (λ flags rest.
    next (b.read_u16 rest) (λ len rest. some (
      record {
        is_forward_critical = flags % 2 == 1;
        is_destination_critical = false;
        is_response_copy = false;
      },
      rest,
    ))))

unfoldable pub read_list : SmartBuffer → ℕ → List ℕ → Option (List RoutableId × List ℕ)
unfolding read_ids
read_list b left bytes = read_ids b (suc (length bytes)) left bytes

-- `Header.deSerialize`.
unfoldable pub deserialize : SmartBuffer → List ℕ → Option (Header × List ℕ)
unfolding read_list read_options
deserialize b bytes = next (b.read_u32 bytes) (λ token rest.
    next (b.read_string_nt rest) (λ overlay rest. next (b.read_string_nt rest) (λ sequence rest.
      next (b.read_u8 rest) (λ version rest. next (b.read_u8 rest) (λ ttl rest.
        next (b.read_u16 rest) (λ fragment_head_value rest.
          next (b.read_u16 rest) (λ fragment_offset rest.
            next (b.read_u32 rest) (λ message_length rest.
              next (b.read_u32 rest) (λ transaction rest.
                next (b.read_u32 rest) (λ max_response_length rest.
                  next (b.read_u16 rest) (λ via_list_length rest.
                    next (b.read_u16 rest) (λ destination_list_length rest.
                      next (b.read_u16 rest) (λ options_length rest.
                        next (read_list b via_list_length rest) (λ via_list rest.
                          next (read_list b destination_list_length rest) (λ destination_list rest.
                            next (read_options b rest) (λ options rest. some (
                              record {
                                relo_token = token;
                                overlay = overlay;
                                configuration_sequence = sequence;
                                version = version;
                                ttl = ttl;
                                fragment_head_value = fragment_head_value;
                                fragment_offset = fragment_offset;
                                message_length = message_length;
                                transaction = transaction;
                                max_response_length = max_response_length;
                                via_list_length = via_list_length;
                                destination_list_length = destination_list_length;
                                options_length = options_length;
                                via_list = via_list;
                                destination_list = destination_list;
                                options = options;
                              },
                              rest,
                            )))))))))))))))))
