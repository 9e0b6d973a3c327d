-- ===== src/Routing/Updates.antt =====
-- `addNeighbor`, `attachToAllNeighbors` and `sendUpdateToAllNeighbors` of
-- Routing/CHORDRoutingTable.js. The time of day is an argument.
pub mod Stable
pub mod Kept
use reloadjs.Base.{
  ℕ, ◌==◌, Bool, true, false, not, ◌&&◌, ◌||◌, List, [], ◌∷◌, ◌++◌, Option, none, some,
  if◌then◌else◌, Text, object_text, same, add_all,
}
use reloadjs.Transport.Header.{RoutableId, node_id, resource_id}
use reloadjs.Node.{
  unknown, RTableEntry, FTableEntry, Table, Node, Body, update_answer, attach, Sockets, Exec,
  Outcome, returned, thrown, pure, throw, modify, attempt, for_each, ◌>>=◌, ◌>>◌,
}
use reloadjs.Node.Connections.{get_connection, send_message}
use reloadjs.Routing.Table.{try_get_value, is_attached, is_attached_to_all_neighbors, is_finger}

-- `new RTableEntry(sdp, id)` with the time of its creation.
unfoldable pub new_entry : Text → Option Text → ℕ → RTableEntry
new_entry id sdp now = record {
  id = id;
  ice_candidates = sdp;
  last_successful_ping = some now;
  node_state = unknown;
  pinging = false;
  wait_for_join_answer = false;
}

-- The local node is not kept out: `nodeID.id != global.nodeID[0]` compares a string with an object.
unfoldable pub add_entry : Text → Option Text → ℕ → Table → Table
unfolding new_entry try_get_value
add_entry id sdp now t = elim (try_get_value t.rtable id) [
  | some e ↦ t
  | none ↦
      if same id object_text then t else record t { rtable = t.rtable ++ new_entry id sdp now ∷ [] }
]

-- `isFinger` of the plain id: where it throws the exception leaves `addNeighbor`, and where it
-- returns null nothing follows.
check_finger : List FTableEntry → Exec Node Unit
unfolding is_finger
check_finger fingers n = elim (is_finger fingers) [
  | returned f ↦ (returned tt, n)
  | thrown ↦ (thrown, n)
]

unfoldable pub add_neighbor : Text → Option Text → ℕ → Exec Node Unit
unfolding add_entry check_finger
add_neighbor id sdp now n =
    check_finger n.table.ftable (record n { table = add_entry id sdp now n.table })

-- The socket for an attach request: that of the admitting peer, or the first connection's.
unfoldable pub attach_socket : Node → Option ℕ
unfolding get_connection
attach_socket n =
    let first : Option ℕ = elim n.connections [ [] ↦ none | c ∷ cs ↦ some c.socket ] in
    elim n.ap [
      | none ↦ first
      | some ap ↦ elim (get_connection n ap) [ none ↦ first | some s ↦ some s ]
    ]

-- The body of the loop of `attachToAllNeighbors`.
unfoldable pub attach_neighbor : ℕ → Text → Exec Node Unit
unfolding add_neighbor attach_socket get_connection
attach_neighbor now id n = elim (get_connection n id) [
  | some s ↦ add_neighbor id none now n
  | none ↦ elim (attach_socket n) [
    | none ↦ (thrown, n)
    | some s ↦ (returned tt, record n { done = n.done ++ attach s (resource_id id ∷ []) ∷ [] })
  ]
]

-- Successors and predecessors, each once.
unfoldable pub neighbors : Table → List Text
neighbors t = add_all (add_all [] t.successors) t.predecessors

unfoldable pub attach_to_all_neighbors : ℕ → Exec Node Unit
unfolding neighbors attach_neighbor
attach_to_all_neighbors now n = for_each (neighbors n.table) (attach_neighbor now) n

-- The body of the loop of `sendUpdateToAllNeighbors`.
unfoldable pub send_update : Sockets → Text → Exec Node Unit
unfolding is_attached send_message get_connection
send_update env id n =
    if is_attached n.table id
    then (do
      send_message env (get_connection n id) (update_answer n.table.predecessors n.table.successors)
          (node_id id ∷ [])
      pure tt)
        n
    else (returned tt, n)

unfoldable pub send_updates : Sockets → Exec Node Unit
unfolding neighbors send_update
send_updates env n =
    if n.joined || n.is_overlay_initiator
    then attempt (for_each (neighbors n.table) (send_update env)) n
    else (returned tt, n)

unfoldable pub attach_missing : ℕ → Exec Node Unit
unfolding attach_to_all_neighbors
attach_missing now n =
    if is_attached_to_all_neighbors n.table then (returned tt, n) else attach_to_all_neighbors now n

unfoldable pub send_update_to_all_neighbors : Sockets → ℕ → Exec Node Unit
unfolding attach_missing send_updates
send_update_to_all_neighbors env now = do attach_missing now; send_updates env
