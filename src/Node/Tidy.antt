-- ===== src/Node/Tidy.antt =====
-- What holds of the tables of a peer at all times, and what removes a node from them.
use reloadjs.Base.{
  ℕ, ◌≤◌, ◌≡◌, false, not, List, [], ◌∷◌, Option, none, some, inl, inr, arith, length, Text, same,
  same_iff, has, has-delete, All, ◌≢◌, Bool-cases, ◌==◌,
}
use reloadjs.Base.Unique.{Lacks, Unique, Unique-keep, length-delete}
use reloadjs.Node.{Node, RTableEntry, Connection}
use reloadjs.Node.Connections.{
  drop_socket, find_socket, delete_entry, remove_found, remove_connection,
}

abbrev pub entry_id : RTableEntry → Text
entry_id e = e.id

abbrev pub connection_id : Connection → Text
connection_id c = c.id

-- No node has two entries or two connections, and the neighbor sets have at most three members.
pub record IsTidy (n : Node) : Type 0 where
  pub entries : Unique entry_id n.table.rtable
  pub connected : Unique connection_id n.connections
  pub few_successors : length n.table.successors ≤ 3
  pub few_predecessors : length n.table.predecessors ≤ 3

-- The node has no entry, and is no successor, no predecessor and the successor of no finger.
pub record IsGone (id : Text) (n : Node) : Type 0 where
  pub no_entry : Lacks entry_id id n.table.rtable
  pub no_successor : has id n.table.successors ≡ false
  pub no_predecessor : has id n.table.predecessors ≡ false
  pub no_finger : All (λ f. f.successor ≢ some id) n.table.ftable

Lacks-drop_socket :
    (s : ℕ) (id : Text) (cs : List Connection)
    → Lacks connection_id id cs
    → Lacks connection_id id (drop_socket s cs)
unfolding drop_socket
Lacks-drop_socket s id [] h = tt
Lacks-drop_socket s id (c ∷ cs) h = elim (Bool-cases (c.socket == s)) [
  | inl hit ↦ rw hit h.1
  | inr miss ↦ rw miss (h.0, Lacks-drop_socket s id cs h.1)
]

Unique-drop_socket :
    (s : ℕ) (cs : List Connection)
    → Unique connection_id cs
    → Unique connection_id (drop_socket s cs)
unfolding drop_socket
Unique-drop_socket s [] u = tt
Unique-drop_socket s (c ∷ cs) u = elim (Bool-cases (c.socket == s)) [
  | inl hit ↦ rw hit u.1
  | inr miss ↦ rw miss (Lacks-drop_socket s c.id cs u.0, Unique-drop_socket s cs u.1)
]

remove_found-IsTidy :
    (s : ℕ) (found : Option Connection) (n : Node) → IsTidy n → IsTidy (remove_found s found n)
unfolding remove_found
remove_found-IsTidy s none n t = t
remove_found-IsTidy s (some c) n t = record {
  entries = Unique-keep entry_id (λ e. not (same e.id c.id)) n.table.rtable t.entries;
  connected = Unique-drop_socket s n.connections t.connected;
  few_successors = omega (arith, length-delete c.id n.table.successors, t.few_successors);
  few_predecessors = omega (arith, length-delete c.id n.table.predecessors, t.few_predecessors);
}

pub remove_connection-IsTidy : (s : Option ℕ) (n : Node) → IsTidy n → IsTidy (remove_connection s n)
unfolding remove_connection
remove_connection-IsTidy none n t = t
remove_connection-IsTidy (some s) n t = remove_found-IsTidy s (find_socket s n.connections) n t

Lacks-delete_entry :
    (id other : Text) (es : List RTableEntry)
    → Lacks entry_id id es
    → Lacks entry_id id (delete_entry other es)
unfolding delete_entry
Lacks-delete_entry id other [] h = tt
Lacks-delete_entry id other (e ∷ es) h = elim (Bool-cases (same e.id other)) [
  | inl hit ↦ rw hit (Lacks-delete_entry id other es h.1)
  | inr miss ↦ rw miss (h.0, Lacks-delete_entry id other es h.1)
]

pub Lacks-delete_entry_self :
    (id : Text) (es : List RTableEntry) → Lacks entry_id id (delete_entry id es)
unfolding delete_entry
Lacks-delete_entry_self id [] = tt
Lacks-delete_entry_self id (e ∷ es) = elim (Bool-cases (same e.id id)) [
  | inl hit ↦ rw hit (Lacks-delete_entry_self id es)
  | inr miss ↦ rw miss (ground (arith, same_iff e.id id), Lacks-delete_entry_self id es)
]

remove_found-IsGone :
    (id : Text) (s : ℕ) (found : Option Connection) (n : Node)
    → IsGone id n
    → IsGone id (remove_found s found n)
unfolding remove_found
remove_found-IsGone id s none n g = g
remove_found-IsGone id s (some c) n g = record {
  no_entry = Lacks-delete_entry id c.id n.table.rtable g.no_entry;
  no_successor = ground (arith, has-delete id c.id n.table.successors, g.no_successor);
  no_predecessor = ground (arith, has-delete id c.id n.table.predecessors, g.no_predecessor);
  no_finger = g.no_finger;
}

pub remove_connection-IsGone :
    (id : Text) (s : Option ℕ) (n : Node) → IsGone id n → IsGone id (remove_connection s n)
unfolding remove_connection
remove_connection-IsGone id none n g = g
remove_connection-IsGone id (some s) n g =
    remove_found-IsGone id s (find_socket s n.connections) n g
