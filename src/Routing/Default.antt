-- ===== src/Routing/Default.antt =====
-- Routing/DefaultRoutingTable.js: the table of a peer without Chord. Its set of neighbors is the list
-- of their ids in insertion order.
pub mod Nearest
use reloadjs.Base.{
  ℕ, ltb, Bool, true, false, not, ◌&&◌, List, [], ◌∷◌, ◌++◌, Option, none, some, if◌then◌else◌,
  Text, same, has,
}
use reloadjs.Ids.{get_distance}

-- `addNeighbor`.
unfoldable pub add_default_neighbor : Text → List Text → List Text
add_default_neighbor id neighbors = if has id neighbors then neighbors else neighbors ++ id ∷ []

unfoldable pub is_closer : Text → ℕ → Text → Bool
is_closer id bound value = ltb (get_distance value id) bound && not (same value id)

-- The loop of `getCloserId`, with the distance and the neighbor found so far.
unfoldable pub find_closer : Text → ℕ → Option Text → List Text → Option Text
unfolding is_closer
find_closer id bound found [] = found
find_closer id bound found (value ∷ values) =
    let closer = is_closer id bound value in
    find_closer id (if closer then get_distance value id else bound)
      (if closer then some value else found) values

unfoldable pub get_closer_id : Text → List Text → Option Text
unfolding find_closer
get_closer_id id neighbors = find_closer id 9007199254740991 none neighbors

-- `getNextHops`; sets have no length, so neither test holds. `none` is null.
unfoldable pub get_default_hops : Text → List Text → List (Option Text)
unfolding get_closer_id
get_default_hops destination neighbors = get_closer_id destination neighbors ∷ []
