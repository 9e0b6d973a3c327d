-- ===== src/Node/Connections.antt =====
-- Core/ConnectionManager.js: the list of connections and the writes to them.
use reloadjs.Base.{
  ℕ, ◌==◌, Bool, true, false, not, List, [], ◌∷◌, ◌++◌, Option, none, some, if◌then◌else◌, Text,
  same, delete, keep,
}
use reloadjs.Node.Effects.{Exec, returned, thrown}
use reloadjs.Transport.Header.{RoutableId}
use reloadjs.Node.{Node, Table, RTableEntry, Connection, Body, Effect, write, Sockets}

unfoldable pub find_connection : Text → List Connection → Option Connection
find_connection id [] = none
find_connection id (c ∷ cs) = if same c.id id then some c else find_connection id cs

-- `getConnection`.
unfoldable pub get_connection : Node → Text → Option ℕ
unfolding find_connection
get_connection n id = elim (find_connection id n.connections) [
  | none ↦ none
  | some c ↦ some c.socket
]

-- `isNeighbor` as a condition.
unfoldable pub is_neighbor : Node → Text → Bool
unfolding get_connection
is_neighbor n id = elim (get_connection n id) [ none ↦ false | some s ↦ true ]

unfoldable pub find_socket : ℕ → List Connection → Option Connection
find_socket s [] = none
find_socket s (c ∷ cs) = if c.socket == s then some c else find_socket s cs

-- `connections.splice(k, 1)` at the first connection of the socket.
unfoldable pub drop_socket : ℕ → List Connection → List Connection
drop_socket s [] = []
drop_socket s (c ∷ cs) = if c.socket == s then cs else c ∷ drop_socket s cs

unfoldable pub delete_entry : Text → List RTableEntry → List RTableEntry
delete_entry id = keep (λ e. not (same e.id id))

-- The node leaves the routing table, the successors and the predecessors.
unfoldable pub forget : Text → Table → Table
unfolding delete_entry
forget id t = record t {
  rtable = delete_entry id t.rtable;
  successors = delete id t.successors;
  predecessors = delete id t.predecessors;
}

-- `removeConnection` for the connection that was found.
unfoldable pub remove_found : ℕ → Option Connection → Node → Node
unfolding forget drop_socket
remove_found s none n = n
remove_found s (some c) n = record n {
  table = forget c.id n.table;
  connections = drop_socket s n.connections;
}

unfoldable pub remove_connection : Option ℕ → Node → Node
unfolding remove_found find_socket
remove_connection none n = n
remove_connection (some s) n = remove_found s (find_socket s n.connections) n

-- `sendMessage` of what `effect` says of the socket. A failed write removes the connection and
-- destroys the socket; the call on a null socket, and `destroy` on a data channel, throw from the
-- handler.
unfoldable pub send : Sockets → Option ℕ → (ℕ → Effect) → Exec Node Bool
unfolding remove_connection
send env none effect n = (thrown, n)
send env (some s) effect n =
    if env.writable s
    then (returned true, record n { done = n.done ++ effect s ∷ [] })
    else if env.destroyable s
    then (returned false, remove_connection (some s) n)
    else (thrown, remove_connection (some s) n)

unfoldable pub send_message : Sockets → Option ℕ → Body → List RoutableId → Exec Node Bool
unfolding send
send_message env socket body dests = send env socket (λ s. write s body dests)
