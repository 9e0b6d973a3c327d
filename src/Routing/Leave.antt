-- ===== src/Routing/Leave.antt =====
-- `leave` and `reset` of Routing/CHORDRoutingTable.js.
pub mod Absence
use reloadjs.Base.{
  Bool, true, false, not, ◌&&◌, ◌||◌, List, [], ◌∷◌, Option, none, some, map, if◌then◌else◌, Text,
  same, has, delete, ℕ, keep,
}
use reloadjs.Node.{
  RTableEntry, FTableEntry, Table, Node, Ping, Sockets, Exec, Outcome, returned, thrown, modify,
}
use reloadjs.Node.Connections.{delete_entry}
use reloadjs.Routing.Table.{try_get_value}
use reloadjs.Routing.Updates.{send_update_to_all_neighbors}

unfoldable pub clear_finger : Text → FTableEntry → FTableEntry
clear_finger id e = elim e.successor [
  | none ↦ e
  | some s ↦ if same s id then record e { successor = none; valid = false } else e
]

-- `leave` starts with `setNodeState` of a plain id, which finds no entry and changes nothing, and
-- `addLeavedNode` adds nothing.
unfoldable pub left_table : Text → Table → Table
unfolding clear_finger delete_entry
left_table id t = record t {
  successors = delete id t.successors;
  predecessors = delete id t.predecessors;
  ftable = map (clear_finger id) t.ftable;
  rtable = delete_entry id t.rtable;
}

unfoldable pub was_known : Text → Table → Bool
unfolding try_get_value
was_known id t =
    has id t.successors
    || has id t.predecessors
    || elim (try_get_value t.rtable id) [ none ↦ false | some e ↦ true ]

unfoldable pub left_ap : Text → Option Text → Option Text
left_ap id none = none
left_ap id (some ap) = if same ap id then none else some ap

unfoldable pub left_node : Text → Node → Node
unfolding left_table left_ap
left_node id n = record n {
  ap = left_ap id n.ap;
  table = left_table id n.table;
  pending_ping = keep (λ p. not (same p.id id)) n.pending_ping;
}

unfoldable pub leave : Sockets → ℕ → Text → Exec Node Unit
unfolding left_node was_known
leave env now id n =
    if was_known id n.table && not n.client_mode
    then send_update_to_all_neighbors env now (left_node id n)
    else (returned tt, left_node id n)

drop_finger : FTableEntry → FTableEntry
drop_finger e = record e { successor = none; valid = false }

-- `reset`.
unfoldable pub reset : Table → Table
unfolding drop_finger
reset t = record t { successors = []; predecessors = []; ftable = map drop_finger t.ftable }
