-- ===== src/Ids.antt =====
-- utils/utils.js: the number that stands for an identifier, the distance and the ring interval
-- computed from it, and the successor of a hexadecimal identifier.
pub mod Interval
pub mod Bounds
pub mod Increment
use reloadjs.Base.{
  ℕ, zero, suc, ◌+◌, ◌-◌, ◌*◌, ◌%◌, ◌^◌, Bool, true, false, ◌&&◌, ◌||◌, List, [], ◌∷◌, ◌++◌,
  reverse, ltb, ◌==◌, if◌then◌else◌, length, Text,
}

-- The loop of `convertNodeID` adds `charCodeAt(i) * 7 ** (length - i)` from the last index down.
-- The sum is kept exact: `Ids.Bounds` shows when it is below the limit of exact doubles.
unfoldable pub convert_node_id : Text → ℕ
convert_node_id [] = 0
convert_node_id (c ∷ cs) = convert_node_id cs + c * 7 ^ suc (length cs)

-- `Math.abs(a - b)`.
unfoldable pub distance : ℕ → ℕ → ℕ
distance a b = if ltb a b then b - a else a - b

unfoldable pub get_distance : Text → Text → ℕ
unfolding distance
get_distance node1 node2 = distance (convert_node_id node1) (convert_node_id node2)

-- `ElementOfInterval` on the three numbers.
unfoldable pub in_interval : ℕ → ℕ → ℕ → Bool → Bool
in_interval id start end end_included =
    if id == end && end_included
    then true
    else if start == end
    then true
    else if ltb end start
    then ltb start id || ltb id end
    else ltb start id && ltb id end

unfoldable pub element_of_interval : Text → Text → Text → Bool → Bool
element_of_interval id start end end_included =
    in_interval (convert_node_id id) (convert_node_id start) (convert_node_id end) end_included

-- The digit that `addNodeID` reads from a character: letters count from 10, digits from 0.
unfoldable pub hex_value : ℕ → ℕ
hex_value c =
    let letter = if ltb 96 c then c - 87 else c in
    if ltb 47 letter && ltb letter 58 then letter - 48 else letter

-- The character that it writes for a digit.
unfoldable pub hex_char : ℕ → ℕ
hex_char rest = if ltb rest 10 then rest + 48 else rest + 87

-- The loop of `addNodeID`, over the characters from the last one back: it stops at the first digit
-- that does not wrap round to 0, or when no character is left.
unfoldable pub increment : Text → Text
increment [] = []
increment (c ∷ cs) =
    let rest = (hex_value c + 1) % 16 in
    let carried = increment cs in hex_char rest ∷ (if rest == 0 then carried else cs)

unfoldable pub add_node_id : Text → Text
unfolding increment hex_value hex_char
add_node_id id = reverse (increment (reverse id))
