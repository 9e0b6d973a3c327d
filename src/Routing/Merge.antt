-- ===== src/Routing/Merge.antt =====
-- `merge` of Routing/CHORDRoutingTable.js: the handling of an update from a neighbor.
pub mod Known
use reloadjs.Base.{
  Bool, true, false, not, ◌&&◌, ◌||◌, List, [], ◌∷◌, ◌++◌, Option, none, some, map, if◌then◌else◌,
  Text, same, has, add, delete, add_all, ℕ, keep,
}
use reloadjs.Node.{
  RTableEntry, Learned, Table, Node, Connection, Sockets, Exec, Outcome, returned, thrown, modify,
}
use reloadjs.Routing.Neighbors.{neighbors_from_total}
use reloadjs.Routing.Table.{is_changed_list}
use reloadjs.Routing.Updates.{send_update_to_all_neighbors}

delete_all : List Text → List Text → List Text
delete_all [] set = set
delete_all (x ∷ xs) set = delete_all xs (delete x set)

-- The lists of an update answer.
pub record Update : Type 0 where
  pub successors : List Text
  pub predecessors : List Text

-- The originator, and the nodes that it names.
unfoldable pub named_nodes : Text → Update → List Text
named_nodes originator u = add_all (add_all (originator ∷ []) u.successors) u.predecessors

-- `tryGetValue` of the plain id finds nothing, so every other named node is noted as learned.
learned_nodes : Text → List Text → List Learned
learned_nodes originator ids =
    map (λ id. record { id = id; originator = originator })
      (keep (λ id. not (same id originator)) ids)

-- All known nodes: the named ones, the neighbors so far, without the local node, then the entries
-- of the routing table and the connected nodes.
unfoldable pub known_nodes : Node → Text → Update → List Text
unfolding named_nodes
known_nodes n originator u =
    let t = n.table in
    let named = add_all (add_all (named_nodes originator u) t.successors) t.predecessors in
    add_all (add_all (delete n.local named) (map (λ e. e.id) t.rtable))
      (map (λ c. c.id) n.connections)

unfoldable pub merged_table : Node → Text → Update → Table
unfolding known_nodes learned_nodes delete_all
merged_table n originator u =
    let t = n.table in
    let leaved = delete_all (named_nodes originator u) t.leaved_nodes in
    let total = known_nodes n originator u in
    record t {
      leaved_nodes = leaved;
      learned_from = t.learned_from ++ learned_nodes originator (named_nodes originator u);
      predecessors = delete_all leaved (neighbors_from_total n.local total false);
      successors = delete_all leaved (neighbors_from_total n.local total true);
    }

unfoldable pub merge : Sockets → ℕ → Text → Update → Bool → Bool → Exec Node Unit
unfolding merged_table is_changed_list
merge env now originator u force_send_update no_update n =
    let t = merged_table n originator u in
    let changed =
      is_changed_list n.table.predecessors t.predecessors
      || is_changed_list n.table.successors t.successors in
    let n' = record n { table = t } in
    -- With an admitting peer a client calls a method that is not there.
    let client = n.mode_client && elim n.ap [ none ↦ false | some ap ↦ true ] in
    if client
    then (thrown, record n { table = record n.table { leaved_nodes = t.leaved_nodes } })
    else if changed || (force_send_update && not no_update)
    then send_update_to_all_neighbors env now n'
    else (returned tt, n')
