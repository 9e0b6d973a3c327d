-- ===== src/Dispatch/Attaching.antt =====
-- What `attach_node` does to a node that is no neighbor.
use reloadjs.Base.{
  ℕ, ◌≡◌, ◌≢◌, ◌⊎◌, refl, Bool, true, false, List, [], ◌∷◌, ◌++◌, Option, none, some, arith, Text,
  object_text, same, same_iff, same_refl, has, Option-cases, inl, inr,
}
use reloadjs.Node.{
  NodeState, unknown, attaching, attached, updates_received, RTableEntry, Table, Node, Sockets,
  returned,
}
use reloadjs.Routing.Table.{try_get_value, is_attached, is_wait_for_join_ans}
use reloadjs.Routing.Updates.{add_neighbor, add_entry, new_entry}
use reloadjs.Routing.States.{next_state, write_state, must_update, set_found, set_node_state}
use reloadjs.Routing.States.Progress.{
  with_state, try_get_value-change_entry, get_node_state-write_state,
}
use reloadjs.Dispatch.{attach_node}

try_get_value-append :
    (id : Text) (e : RTableEntry) (es : List RTableEntry)
    → try_get_value es id ≡ none
    → same e.id id ≡ true
    → try_get_value (es ++ e ∷ []) id ≡ some e
unfolding try_get_value
try_get_value-append id e [] h k = rw k refl
try_get_value-append id e (x ∷ xs) h k = ground (arith, try_get_value-append id e xs, h, k)

-- The entry of a node that is added: the one that it had, or a new one.
pub entry_behind : Text → ℕ → Option RTableEntry → RTableEntry
entry_behind id now none = new_entry id none now
entry_behind id now (some e) = e

pub add_entry_lem :
    (id : Text) (now : ℕ) (t : Table)
    → id ≢ object_text
    → let t' = add_entry id none now t in
      (try_get_value t'.rtable id ≡ some (entry_behind id now (try_get_value t.rtable id)))
      × (t'.predecessors ≡ t.predecessors)
      × (t'.successors ≡ t.successors)
      × (t'.update_received ≡ t.update_received)
      × (t'.ftable ≡ t.ftable)
add_entry_lem id now t proper = elim (Option-cases (try_get_value t.rtable id)) [
  | inl absent ↦
      unfold add_entry entry_behind in
      rw (absent, add_entry, entry_behind, other)
        (
          try_get_value-append id (new_entry id none now) t.rtable absent
              (unfold new_entry in same_refl id),
          refl,
          refl,
          refl,
          refl,
        )
  | inr (e, found) ↦
      unfold add_entry entry_behind in
      rw (found, add_entry, entry_behind) (found, refl, refl, refl, refl)
]
  where
    other : same id object_text ≡ false
    other = ground (arith, same_iff id object_text, proper)

next_attached :
    (old : NodeState) (received : Bool)
    → (next_state old attached received ≡ attached)
      ⊎ (next_state old attached received ≡ updates_received)
unfolding next_state
next_attached unknown received = inl refl
next_attached attaching received = inl refl
next_attached attached true = inr refl
next_attached attached false = inl refl
next_attached updates_received received = inr refl

-- The state behind `attach_node`, for a node that is no neighbor.
unfoldable pub attached_node : ℕ → Text → Node → Node
attached_node now id n = record n {
  table =
      write_state id attached (entry_behind id now (try_get_value n.table.rtable id))
        (add_entry id none now n.table);
}

add_neighbor_lem :
    (now : ℕ) (id : Text) (n : Node)
    → n.table.ftable ≡ []
    → add_neighbor id none now n ≡ (returned tt, record n { table = add_entry id none now n.table })
add_neighbor_lem now id n no_fingers = unfold add_neighbor in simp no_fingers

set_node_state_lem :
    (env : Sockets) (now : ℕ) (id : Text) (e : RTableEntry) (n : Node)
    → try_get_value n.table.rtable id ≡ some e
    → has id n.table.predecessors ≡ false
    → has id n.table.successors ≡ false
    → set_node_state env now id attached n
      ≡ (returned tt, record n { table = write_state id attached e n.table })
set_node_state_lem env now id e n found no_predecessor no_successor =
    unfold set_node_state in rw (found, set_node_state) (unfold set_found in rw quiet refl)
  where
    quiet :
        must_update
          (record n { table = write_state id attached e n.table })
          id
          e.node_state
          attached
          (next_state e.node_state attached (has id n.table.update_received))
        ≡ false
    quiet = unfold must_update write_state in ground (arith, no_predecessor, no_successor)

pub attach_node_lem :
    (env : Sockets) (now : ℕ) (id : Text) (n : Node)
    → id ≢ object_text
    → n.table.ftable ≡ []
    → has id n.table.predecessors ≡ false
    → has id n.table.successors ≡ false
    → attach_node env now id n ≡ (returned tt, attached_node now id n)
attach_node_lem env now id n proper no_fingers no_predecessor no_successor =
    let (found, predecessors, successors, received, fingers) =
      add_entry_lem id now n.table proper in
    unfold attach_node attached_node in
    rw (add_neighbor_lem now id n no_fingers) (
      set_node_state_lem env now id (entry_behind id now (try_get_value n.table.rtable id))
        (record n { table = add_entry id none now n.table }) found (rw predecessors no_predecessor)
        (rw successors no_successor))

pub is_attached-attached_node :
    (now : ℕ) (id : Text) (n : Node)
    → id ≢ object_text
    → is_attached (attached_node now id n).table id ≡ true
is_attached-attached_node now id n proper =
    let (found, predecessors, successors, received, fingers) =
      add_entry_lem id now n.table proper in
    let old : RTableEntry = entry_behind id now (try_get_value n.table.rtable id) in
    let state =
      get_node_state-write_state id id attached old (add_entry id none now n.table) found in
    unfold attached_node is_attached in
    rw (state, same_refl id)
      (elim (next_attached old.node_state
        (has id (add_entry id none now n.table).update_received)) [
          | inl e ↦ rw e refl
          | inr e ↦ rw e refl
        ])

try_get_value-write_state :
    (id : Text) (state : NodeState) (e : RTableEntry) (t : Table)
    → try_get_value t.rtable id ≡ some e
    → (e' : RTableEntry) × (try_get_value (write_state id state e t).rtable id ≡ some e')
      × (e'.wait_for_join_answer ≡ e.wait_for_join_answer)
try_get_value-write_state id state e t found = (
  with_state (next_state e.node_state state (has id t.update_received)) e,
  unfold write_state in
      ground (
        arith,
        try_get_value-change_entry id id (next_state e.node_state state (has id t.update_received))
            t.rtable,
        same_refl id,
        found,
      ),
  refl,
)

wait_behind :
    (id : Text) (now : ℕ) (o : Option RTableEntry)
    → (elim o [ none ↦ false | some e ↦ e.wait_for_join_answer ]) ≡ false
    → (entry_behind id now o).wait_for_join_answer ≡ false
unfolding entry_behind new_entry
wait_behind id now none h = refl
wait_behind id now (some e) h = h

-- Whether the node still waits for an answer to its join request stays the same.
pub is_wait_for_join_ans-attached_node :
    (now : ℕ) (id : Text) (n : Node)
    → id ≢ object_text
    → is_wait_for_join_ans n.table id ≡ false
    → is_wait_for_join_ans (attached_node now id n).table id ≡ false
is_wait_for_join_ans-attached_node now id n proper silent =
    let (found, predecessors, successors, received, fingers) =
      add_entry_lem id now n.table proper in
    let (e', found', same_wait) =
      try_get_value-write_state id attached (entry_behind id now (try_get_value n.table.rtable id))
        (add_entry id none now n.table) found in
    let old_wait =
      wait_behind id now (try_get_value n.table.rtable id)
        (unfold is_wait_for_join_ans in silent) in
    unfold is_wait_for_join_ans attached_node in
    rw (found', is_wait_for_join_ans, same_wait) old_wait
