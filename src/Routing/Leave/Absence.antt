-- ===== src/Routing/Leave/Absence.antt =====
-- What `leave` does to the tables.
use reloadjs.Base.{
  [], ◌∷◌, All, some, map, ◌≢◌, Option-cases, some_inv, same_iff, ℕ, ◌≡◌, false, ◌&&◌, not, inl,
  inr, arith, List, Text, same, same_refl, has, delete, has-delete, Bool-cases,
}
use reloadjs.Base.Unique.{Unique-keep, length-delete}
use reloadjs.Node.{Node, Sockets, FTableEntry}
use reloadjs.Node.Keeps.{Keeps}
use reloadjs.Node.Tidy.{IsTidy, IsGone, entry_id, Lacks-delete_entry_self}
use reloadjs.Routing.Updates.{send_update_to_all_neighbors}
use reloadjs.Routing.Updates.Stable.{send_update_to_all_neighbors-Keeps}
use reloadjs.Routing.Updates.Kept.{IsTidy-Stable, IsGone-Stable}
use reloadjs.Routing.Leave.{left_node, was_known, leave, clear_finger}

delete_self : (id : Text) (xs : List Text) → has id (delete id xs) ≡ false
delete_self id xs = rw (has-delete id id xs, same_refl id)

cleared_finger : (id : Text) (e : FTableEntry) → (clear_finger id e).successor ≢ some id
unfolding clear_finger
cleared_finger id e = elim (Option-cases e.successor) [
  | inl unset ↦ rw (unset, clear_finger, unset) (λ h. cc h)
  | inr (s, set) ↦ elim (Bool-cases (same s id)) [
    | inl hit ↦ rw (set, clear_finger, hit) (λ h. cc h)
    | inr miss ↦
        rw (set, clear_finger, miss, set) (λ h. ground (arith, miss, some_inv h, same_iff s id))
  ]
]

cleared_fingers :
    (id : Text) (es : List FTableEntry)
    → All (λ e. e.successor ≢ some id) (map (clear_finger id) es)
cleared_fingers id [] = tt
cleared_fingers id (e ∷ es) = (cleared_finger id e, cleared_fingers id es)

left_node-IsGone : (id : Text) (n : Node) → IsGone id (left_node id n)
unfolding left_node
left_node-IsGone id n = record {
  no_entry = Lacks-delete_entry_self id n.table.rtable;
  no_successor = delete_self id n.table.successors;
  no_predecessor = delete_self id n.table.predecessors;
  no_finger = cleared_fingers id n.table.ftable;
}

left_node-IsTidy : (id : Text) (n : Node) → IsTidy n → IsTidy (left_node id n)
unfolding left_node
left_node-IsTidy id n t = record {
  entries = Unique-keep entry_id (λ e. not (same e.id id)) n.table.rtable t.entries;
  connected = t.connected;
  few_successors = omega (arith, length-delete id n.table.successors, t.few_successors);
  few_predecessors = omega (arith, length-delete id n.table.predecessors, t.few_predecessors);
}

leave_cases :
    (P : Node → Type 0) (env : Sockets) (now : ℕ) (id : Text) (n : Node)
    → P (left_node id n)
    → Keeps P (send_update_to_all_neighbors env now)
    → P (leave env now id n).1
unfolding leave
leave_cases P env now id n h k = elim (Bool-cases (was_known id n.table && not n.client_mode)) [
  | inl sends ↦ rw sends (k.at (left_node id n) h)
  | inr silent ↦ rw silent h
]

-- After a leave request the node has no entry in the routing table, is no successor and no
-- predecessor, and no finger has it as its successor, also after the updates that are sent, whatever
-- fails on the way. The nodes that were learned from others are not looked at.
pub leave-IsGone :
    (env : Sockets) (now : ℕ) (id : Text) (n : Node) → IsGone id (leave env now id n).1
leave-IsGone env now id n =
    leave_cases (IsGone id) env now id n (left_node-IsGone id n)
      (send_update_to_all_neighbors-Keeps (IsGone-Stable id) env now)

-- A leave request keeps the tables tidy (no two entries or connections for one node, at most three
-- successors and three predecessors), also where the updates that follow fail.
pub leave-IsTidy :
    (env : Sockets) (now : ℕ) (id : Text) (n : Node) → IsTidy n → IsTidy (leave env now id n).1
leave-IsTidy env now id n t =
    leave_cases IsTidy env now id n (left_node-IsTidy id n t)
      (send_update_to_all_neighbors-Keeps IsTidy-Stable env now)
