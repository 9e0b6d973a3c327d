-- ===== src/Routing/States.antt =====
-- `setNodeState`, `setPinging` and `setWaitForJoinAnswer` of Routing/CHORDRoutingTable.js.
pub mod Progress
use reloadjs.Base.{
  ℕ, ◌==◌, Bool, true, false, not, ◌&&◌, ◌||◌, List, [], ◌∷◌, ◌++◌, Option, none, some,
  if◌then◌else◌, Text, same, has, add, delete,
}
use reloadjs.Node.{
  NodeState, unknown, attaching, attached, updates_received, rank, RTableEntry, Table, Node,
  Sockets, Exec, Outcome, returned, thrown, pure, modify, attempt, ◌>>=◌, ◌>>◌,
}
use reloadjs.Routing.Table.{try_get_value}
use reloadjs.Routing.Updates.{send_update_to_all_neighbors}

-- The switch on the old state. `received`: an update came in before the node was attached.
unfoldable pub next_state : NodeState → NodeState → Bool → NodeState
next_state unknown state received = state
next_state attaching state received = state
next_state attached attaching received = attached
next_state attached attached received = if received then updates_received else attached
next_state attached unknown received = unknown
next_state attached updates_received received = updates_received
next_state updates_received unknown received = unknown
next_state updates_received updates_received received = updates_received
next_state updates_received attached received = updates_received
next_state updates_received attaching received = updates_received

-- A note of an early update is used up when an attached node is attached again.
unfoldable pub use_note : NodeState → NodeState → Text → List Text → List Text
use_note attached attached id received = delete id received
use_note old state id received = received

-- The entry that `tryGetValue` finds is changed in place.
unfoldable pub change_entry :
    Text → (RTableEntry → RTableEntry) → List RTableEntry → List RTableEntry
change_entry id f [] = []
change_entry id f (e ∷ es) = if same e.id id then f e ∷ es else e ∷ change_entry id f es

unfoldable pub write_state : Text → NodeState → RTableEntry → Table → Table
unfolding next_state use_note change_entry
write_state id state e t = record t {
  rtable =
      change_entry id
        (λ x. record x { node_state = next_state e.node_state state (has id t.update_received) })
        t.rtable;
  update_received = use_note e.node_state state id t.update_received;
}

-- The test before the update to all neighbors.
unfoldable pub must_update : Node → Text → NodeState → NodeState → NodeState → Bool
must_update n id old state new =
    n.joined
    && (rank state == rank attached || rank new == rank updates_received)
    && (rank old == rank attaching || rank old == rank unknown)
    && (has id n.table.predecessors || has id n.table.successors)

unfoldable pub set_found : Sockets → ℕ → Text → NodeState → RTableEntry → Exec Node Unit
unfolding write_state must_update
set_found env now id state e n =
    let new = next_state e.node_state state (has id n.table.update_received) in
    let n' = record n { table = write_state id state e n.table } in
    if must_update n' id e.node_state state new
    then send_update_to_all_neighbors env now n'
    else (returned tt, n')

unfoldable pub set_node_state : Sockets → ℕ → Text → NodeState → Exec Node Unit
unfolding set_found try_get_value
set_node_state env now id state n = elim (try_get_value n.table.rtable id) [
  | some e ↦ attempt (set_found env now id state e) n
  | none ↦
      if rank state == rank updates_received
      then (
        returned tt,
        record n { table = record n.table { update_received = add id n.table.update_received } },
      )
      else (returned tt, n)
]

-- `setPinging` and `setWaitForJoinAnswer`, which change nothing for a node that has no entry.
unfoldable pub set_pinging : Text → Bool → Bool → ℕ → Table → Table
unfolding change_entry
set_pinging id ping success now t = record t {
  rtable =
      change_entry id
        (λ e. record e {
          pinging = ping;
          last_successful_ping = if success then some now else e.last_successful_ping;
        })
        t.rtable;
}

unfoldable pub set_wait_for_join_answer : Text → Bool → Table → Table
unfolding change_entry
set_wait_for_join_answer id waiting t = record t {
  rtable = change_entry id (λ e. record e { wait_for_join_answer = waiting }) t.rtable;
}
