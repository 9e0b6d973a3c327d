-- ===== src/Ids/Bounds.antt =====
-- Where the exact sum of `convert_node_id` is also the double that the program computes.
use native.Mathlib.Nat.{pow-suc, pow-le-pow_right}
use reloadjs.Base.{ℕ, suc, ◌+◌, ◌*◌, ◌^◌, ◌≤◌, ◌<◌, [], ◌∷◌, arith, length, All, Text}
use reloadjs.Ids.{convert_node_id, get_distance}

abbrev pub IsAscii : Text → Type 0
IsAscii = All (λ c. c < 128)

scale_le : (c p : ℕ) → c < 128 → 6 * (c * p) ≤ 762 * p
scale_le c p h = grind arith

convert_node_id-le :
    (id : Text) → IsAscii id → 6 * convert_node_id id + 889 ≤ 127 * 7 ^ suc (length id)
unfolding convert_node_id
convert_node_id-le [] h = omega arith
convert_node_id-le (c ∷ cs) h = omega (
  arith,
  convert_node_id-le cs h.1,
  pow-suc 7 (suc (length cs)),
  scale_le c (7 ^ suc (length cs)) h.0,
)

convert_node_id_max :
    (id : Text) → IsAscii id → length id ≤ 16 → convert_node_id id ≤ 4924012546062400
convert_node_id_max id h k = omega (
  arith,
  convert_node_id-le id h,
  pow-le-pow_right {n = 7} (omega arith) {i = suc (length id)} {j = 17} (omega arith),
)

-- The number of an identifier of at most 16 ASCII characters, the length that a configuration has
-- by default, is below 2 ^ 53, the limit of exact doubles.
pub convert_node_id_exact : (id : Text) → IsAscii id → length id ≤ 16 → convert_node_id id < 2 ^ 53
convert_node_id_exact id h k = omega (arith, convert_node_id_max id h k)

-- The distance of two identifiers of at most 16 ASCII characters is below 9007199254740991, from
-- which the searches for the nearest node start.
pub get_distance_exact :
    (a b : Text)
    → IsAscii a
    → length a ≤ 16
    → IsAscii b
    → length b ≤ 16
    → get_distance a b < 9007199254740991
unfolding get_distance
get_distance_exact a b h k p q =
    ground (arith, convert_node_id_max a h k, convert_node_id_max b p q)
