-- ===== src/Transport/Header.antt =====
-- Transport/messages/header.js, header/DestinationList.js, header/NodeID.js, header/ResourceID.js,
-- header/OpaqueID.js and messageBuilder.js: the header of a message and what the program does to it.
use reloadjs.Base.{
  not, ℕ, ◌-◌, ◌==◌, Bool, true, false, ◌&&◌, ◌||◌, List, [], ◌∷◌, ◌++◌, reverse, Option, none,
  some, if◌then◌else◌, Text, leb, last?, head?, take, drop,
}

-- `NodeID`, `ResourceID` and `OpaqueID`.
pub data RoutableId : Type 0 where
  node_id resource_id opaque_id : Text → RoutableId

unfoldable pub get_type : RoutableId → ℕ
get_type (node_id id) = 1
get_type (resource_id id) = 2
get_type (opaque_id id) = 3

abbrev pub id_text : RoutableId → Text
id_text (node_id id) = id
id_text (resource_id id) = id
id_text (opaque_id id) = id

-- `ForwardingOption`; its type is always the unknown one.
pub record Flags : Type 0 where
  pub is_forward_critical : Bool
  pub is_destination_critical : Bool
  pub is_response_copy : Bool

pub record Header : Type 0 where
  pub relo_token : ℕ
  pub overlay : Text
  pub configuration_sequence : Text
  pub version : ℕ
  pub ttl : ℕ
  pub fragment_head_value : ℕ
  pub fragment_offset : ℕ
  pub message_length : ℕ
  pub transaction : ℕ
  pub max_response_length : ℕ
  pub via_list_length : ℕ
  pub destination_list_length : ℕ
  pub options_length : ℕ
  pub via_list : List RoutableId
  pub destination_list : List RoutableId
  pub options : Flags

-- What `create` and the builder take from the configuration of the overlay.
pub record Settings : Type 0 where
  pub overlay : Text
  pub sequence : Text
  pub initial_ttl : ℕ
  pub max_message_size : ℕ

-- `MessageBuilder.newMessage` for a drawn transaction number; `none` is the throw on an empty
-- destination list. The version 0x0a of `create` is overwritten.
unfoldable pub new_message : Settings → Text → ℕ → List RoutableId → Option Header
new_message conf local transaction [] = none
new_message conf local transaction (d ∷ ds) = some (record {
  relo_token = 0xd2454c4f;
  overlay = conf.overlay;
  configuration_sequence = conf.sequence;
  version = 1;
  ttl = conf.initial_ttl;
  fragment_head_value = 0x8000;
  fragment_offset = 0;
  message_length = 0;
  transaction = transaction;
  max_response_length = conf.max_message_size;
  via_list_length = 0;
  destination_list_length = 0;
  options_length = 0;
  via_list = node_id local ∷ [];
  destination_list = d ∷ ds;
  options = record {
    is_forward_critical = false;
    is_destination_critical = false;
    is_response_copy = false;
  };
})

-- `MessageBuilder.newResponseMessage`.
unfoldable pub new_response_message : Settings → Text → Header → Header
new_response_message conf local h = record h {
  destination_list = reverse h.via_list;
  via_list = node_id local ∷ [];
  ttl = conf.initial_ttl;
}

not_empty : Text → Bool
not_empty [] = false
not_empty (c ∷ cs) = true

-- White space and ends of lines, as JavaScript trims them.
is_space : ℕ → Bool
is_space c =
    (leb 9 c && leb c 13)
    || c == 32
    || c == 160
    || c == 0x1680
    || (leb 0x2000 c && leb c 0x200A)
    || c == 0x2028
    || c == 0x2029
    || c == 0x202F
    || c == 0x205F
    || c == 0x3000
    || c == 0xFEFF

blank : Text → Bool
blank [] = true
blank (c ∷ cs) = is_space c && blank cs

-- Decimal digits, of which there is at least one, and white space.
digits_end : Bool → Text → Bool
digits_end seen [] = seen
digits_end seen (c ∷ cs) =
    let later = digits_end true cs in
    if leb b'0' c && leb c b'9' then later else seen && blank (c ∷ cs)

exponent : Text → Bool
exponent [] = false
exponent (c ∷ cs) =
    if c == b'+' || c == b'-' then digits_end false cs else digits_end false (c ∷ cs)

-- Zeros, of which there is at least one, with at most one point among them, an exponent, and white
-- space.
zeros : Bool → Bool → Text → Bool
zeros seen point [] = seen
zeros seen point (c ∷ cs) =
    let further = zeros true point cs in
    let behind_point = zeros seen true cs in
    if c == b'0'
    then further
    else if c == b'.' && not point
    then behind_point
    else if c == b'e' || c == b'E'
    then seen && exponent cs
    else seen && blank (c ∷ cs)

-- Behind a prefix `0x`, `0o` or `0b`.
prefixed_zeros : Bool → Text → Bool
prefixed_zeros seen [] = seen
prefixed_zeros seen (c ∷ cs) =
    let further = prefixed_zeros true cs in if c == b'0' then further else seen && blank (c ∷ cs)

is_prefix : ℕ → Bool
is_prefix c = c == b'x' || c == b'X' || c == b'o' || c == b'O' || c == b'b' || c == b'B'

-- A text that does not start with white space.
is_zero : Text → Bool
is_zero [] = true
is_zero (c ∷ []) = c == b'0'
is_zero (c ∷ d ∷ cs) =
    if c == b'+' || c == b'-'
    then zeros false false (d ∷ cs)
    else if c == b'0' && is_prefix d
    then prefixed_zeros false cs
    else zeros false false (c ∷ d ∷ cs)

-- The texts that equal the number 0 in JavaScript; those of a number that is only rounded to 0, such
-- as `1e-400`, are left out.
unfoldable pub is_zero_number : Text → Bool
unfolding is_zero is_space is_prefix prefixed_zeros zeros exponent digits_end blank
is_zero_number [] = true
is_zero_number (c ∷ cs) =
    let later = is_zero_number cs in if is_space c then later else is_zero (c ∷ cs)

-- `toForward`, called with the last entry of the via list. The test compares the negation of that
-- entry's id with the id, so it holds for a text that is not empty and is the number 0; then, and
-- without an entry, the method throws. `destination_list.length` is undefined, so nothing is shifted.
unfoldable pub to_forward : Text → Header → Option Header
unfolding is_zero_number not_empty
to_forward local h = elim (last? h.via_list) [
  | none ↦ none
  | some last ↦
      if is_zero_number (id_text last) && not_empty (id_text last)
      then none
      else some (record h { ttl = h.ttl - 1; via_list = h.via_list ++ node_id local ∷ [] })
]

-- `DestinationList`: `getDestination`, `getIndex`, `addToPosition`, and `removeAtIndex`, which keeps
-- what `splice` returns.
unfoldable pub get_destination : List RoutableId → Option RoutableId
get_destination list = last? list

unfoldable pub get_index : List RoutableId → ℕ → Option RoutableId
get_index list index = head? (drop index list)

unfoldable pub add_to_position : List RoutableId → ℕ → RoutableId → List RoutableId
add_to_position list index id = take index list ++ id ∷ drop index list

unfoldable pub remove_at_index : List RoutableId → ℕ → List RoutableId
remove_at_index list index = take 1 (drop index list)
