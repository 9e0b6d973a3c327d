-- ===== src/Routing/Hops.antt =====
-- `getNextHops`, `getClosestPrecedingNode` and `getClosestPrecedingFinger` of
-- Routing/CHORDRoutingTable.js.
pub mod Choice
use reloadjs.Base.{
  ℕ, ltb, Bool, true, false, not, ◌&&◌, List, [], ◌∷◌, Option, none, some, if◌then◌else◌, Text,
  object_text, same,
}
use reloadjs.Ids.{convert_node_id, distance, element_of_interval}
use reloadjs.Node.{RTableEntry, Connection, Table, Node, Outcome, returned, thrown}
use reloadjs.Routing.Table.{try_get_value, get_node, got_updates_from}

-- The node that the search holds. It starts with the destination, which is wrapped into a second
-- `NodeID` and so has no characters to convert.
pub data Candidate : Type 0 where
  destination : Text → Candidate
  entry : Text → Candidate

unfoldable pub candidate_number : Candidate → ℕ
candidate_number (destination id) = 0
candidate_number (entry id) = convert_node_id id

-- The loop: each entry is compared with the node that was chosen before it.
unfoldable pub closest_from : List RTableEntry → Candidate → ℕ → Candidate
closest_from [] id distance_loc = id
closest_from (e ∷ es) id distance_loc =
    let dist = distance (convert_node_id e.id) (candidate_number id) in
    let nearer = closest_from es (entry e.id) dist in
    let farther = closest_from es id distance_loc in
    if ltb dist distance_loc then nearer else farther

unfoldable pub get_closest_preceding_node : Table → Text → Candidate
unfolding closest_from candidate_number
get_closest_preceding_node t id = closest_from t.rtable (destination id) 9007199254740991

-- A next hop: an object with an id, a plain text, or a value that is undefined or null.
pub data Hop : Type 0 where
  node plain : Text → Hop
  nothing : Hop

-- A `NodeID` whose id is again an object counts as that object's text.
unfoldable pub hop_of : Candidate → Hop
hop_of (destination id) = node object_text
hop_of (entry id) = node id

unfoldable pub entry_hop : Option RTableEntry → Hop
entry_hop none = nothing
entry_hop (some e) = node e.id

-- The admitting peer is kept as a text.
unfoldable pub ap_hop : Option Text → Hop
ap_hop none = nothing
ap_hop (some ap) = plain ap

-- The first loop of `getNextHops`: a connection with a non-empty id that is the destination's.
unfoldable pub connected_to : Text → List Connection → Bool
connected_to dest [] = false
connected_to dest (c ∷ cs) =
    let rest = connected_to dest cs in
    elim c.id [ [] ↦ rest | x ∷ xs ↦ if same dest c.id then true else rest ]

-- The loop over the successors: the first one behind the destination, which throws if the successor
-- has no entry.
unfoldable pub successor_hop : Table → Text → Text → List Text → Outcome (Option Text)
successor_hop t local dest [] = returned none
successor_hop t local dest (succ ∷ succs) =
    let rest = successor_hop t local dest succs in
    if element_of_interval dest local succ false
    then elim (get_node t succ) [ none ↦ thrown | some e ↦ returned (some e.id) ]
    else rest

-- Where no successor is behind the destination, the closest entry is taken.
unfoldable pub or_closest : Table → Text → Outcome (Option Text) → Outcome (List Hop)
unfolding hop_of
or_closest t dest thrown = thrown
or_closest t dest (returned (some hop)) = returned (node hop ∷ [])
or_closest t dest (returned none) = returned (hop_of (get_closest_preceding_node t dest) ∷ [])

-- The part of `getNextHops` that is reached for a destination that is not attached.
unfoldable pub ring_hops : Table → Text → Text → List Text → Outcome (List Hop)
unfolding successor_hop or_closest
ring_hops t local dest [] = returned (node local ∷ [])
ring_hops t local dest (s ∷ ss) = or_closest t dest (successor_hop t local dest (s ∷ ss))

unfoldable pub get_next_hops : Node → Text → Outcome (List Hop)
unfolding connected_to entry_hop ap_hop ring_hops
get_next_hops n dest =
    let t = n.table in
    if connected_to dest n.connections
    then returned (entry_hop (get_node t dest) ∷ [])
    else if got_updates_from t dest
    then returned (entry_hop (get_node t dest) ∷ [])
    else if n.mode_client
    then returned (ap_hop n.ap ∷ [])
    else ring_hops t n.local dest t.successors
