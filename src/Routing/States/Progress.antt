-- ===== src/Routing/States/Progress.antt =====
-- The states of the entries under `setNodeState`.
use reloadjs.Base.{
  ℕ, ◌≤◌, ◌≡◌, ◌≢◌, refl, Bool, true, false, List, [], ◌∷◌, none, some, inl, inr, if◌then◌else◌,
  arith, Text, same, same_iff, has, Bool-cases, Option-cases, ◌==◌,
}
use reloadjs.Base.Unique.{Lacks, Unique}
use reloadjs.Node.{
  NodeState, unknown, attaching, attached, updates_received, rank, RTableEntry, Table, Node,
  Sockets,
}
use reloadjs.Node.Tidy.{IsTidy, entry_id}
use reloadjs.Routing.Table.{try_get_value, get_node_state}
use reloadjs.Routing.Updates.Stable.{send_update_to_all_neighbors-Keeps}
use reloadjs.Routing.Updates.Kept.{IsTidy-Stable}
use reloadjs.Routing.States.{
  next_state, change_entry, write_state, must_update, set_found, set_node_state,
}

abbrev pub with_state : NodeState → RTableEntry → RTableEntry
with_state s e = record e { node_state = s }

pub try_get_value-change_entry :
    (id x : Text) (s : NodeState) (es : List RTableEntry)
    → try_get_value (change_entry id (with_state s) es) x ≡ (
        if same id x
        then elim (try_get_value es x) [ none ↦ none | some e ↦ some (with_state s e) ]
        else try_get_value es x)
unfolding try_get_value change_entry
try_get_value-change_entry id x s [] = ground arith
try_get_value-change_entry id x s (e ∷ es) =
    ground (
      arith,
      try_get_value-change_entry id x s es,
      same_iff e.id id,
      same_iff e.id x,
      same_iff id x,
    )

-- The state of the changed entry is the next state, and that of every other node is as before.
pub get_node_state-write_state :
    (id x : Text) (state : NodeState) (e : RTableEntry) (t : Table)
    → try_get_value t.rtable id ≡ some e
    → get_node_state (write_state id state e t) x ≡ (
        if same id x
        then next_state e.node_state state (has id t.update_received)
        else get_node_state t x)
unfolding get_node_state write_state
get_node_state-write_state id x state e t h = ground (
  arith,
  try_get_value-change_entry id x (next_state e.node_state state (has id t.update_received))
      t.rtable,
  same_iff id x,
  h,
)

rank-next_state :
    (old state : NodeState) (received : Bool)
    → state ≢ unknown
    → rank old ≤ rank (next_state old state received)
unfolding next_state
rank-next_state unknown state received h = omega arith
rank-next_state attaching unknown received h = absurd (h refl)
rank-next_state attaching attaching received h = omega arith
rank-next_state attaching attached received h = omega arith
rank-next_state attaching updates_received received h = omega arith
rank-next_state attached unknown received h = absurd (h refl)
rank-next_state attached attaching received h = omega arith
rank-next_state attached attached true h = omega arith
rank-next_state attached attached false h = omega arith
rank-next_state attached updates_received received h = omega arith
rank-next_state updates_received unknown received h = absurd (h refl)
rank-next_state updates_received attaching received h = omega arith
rank-next_state updates_received attached received h = omega arith
rank-next_state updates_received updates_received received h = omega arith

state_of :
    (id x : Text) (e : RTableEntry) (t : Table)
    → try_get_value t.rtable id ≡ some e
    → same id x ≡ true
    → get_node_state t x ≡ e.node_state
unfolding get_node_state
state_of id x e t h hit = ground (arith, same_iff id x)

-- Setting a state other than `unknown` on a known node lowers the state of no node, in the order
-- unknown, attaching, attached, updates_received.
pub write_state_progress :
    (id x : Text) (state : NodeState) (e : RTableEntry) (t : Table)
    → try_get_value t.rtable id ≡ some e
    → state ≢ unknown
    → rank (get_node_state t x) ≤ rank (get_node_state (write_state id state e t) x)
write_state_progress id x state e t h k = elim (Bool-cases (same id x)) [
  | inl hit ↦
      rw (get_node_state-write_state id x state e t h, hit)
        (rw (state_of id x e t h hit)
          (rank-next_state e.node_state state (has id t.update_received) k))
  | inr miss ↦ rw (get_node_state-write_state id x state e t h, miss) (omega arith)
]

Lacks-change_entry :
    (id x : Text) (s : NodeState) (es : List RTableEntry)
    → Lacks entry_id x es
    → Lacks entry_id x (change_entry id (with_state s) es)
unfolding change_entry
Lacks-change_entry id x s [] h = tt
Lacks-change_entry id x s (e ∷ es) h = elim (Bool-cases (same e.id id)) [
  | inl hit ↦ rw hit h
  | inr miss ↦ rw miss (h.0, Lacks-change_entry id x s es h.1)
]

Unique-change_entry :
    (id : Text) (s : NodeState) (es : List RTableEntry)
    → Unique entry_id es
    → Unique entry_id (change_entry id (with_state s) es)
unfolding change_entry
Unique-change_entry id s [] u = tt
Unique-change_entry id s (e ∷ es) u = elim (Bool-cases (same e.id id)) [
  | inl hit ↦ rw hit u
  | inr miss ↦ rw miss (Lacks-change_entry id e.id s es u.0, Unique-change_entry id s es u.1)
]

write_state-IsTidy :
    (id : Text) (state : NodeState) (e : RTableEntry) (n : Node)
    → IsTidy n
    → IsTidy (record n { table = write_state id state e n.table })
unfolding write_state
write_state-IsTidy id state e n t = record {
  entries = Unique-change_entry id _ n.table.rtable t.entries;
  connected = t.connected;
  few_successors = t.few_successors;
  few_predecessors = t.few_predecessors;
}

set_found-IsTidy :
    (env : Sockets) (now : ℕ) (id : Text) (state : NodeState) (e : RTableEntry) (n : Node)
    → IsTidy n
    → IsTidy (set_found env now id state e n).1
unfolding set_found
set_found-IsTidy env now id state e n t =
    let n' : Node = record n { table = write_state id state e n.table } in
    let t' = write_state-IsTidy id state e n t in
    elim (Bool-cases (
      must_update n' id e.node_state state
        (next_state e.node_state state (has id n.table.update_received)))) [
          | inl sends ↦
              rw sends ((send_update_to_all_neighbors-Keeps IsTidy-Stable env now).at n' t')
          | inr silent ↦ rw silent t'
        ]

-- Setting the state of a node keeps the tables tidy (no two entries or connections for one node, at
-- most three successors and three predecessors), whatever fails while updates are sent.
pub set_node_state-IsTidy :
    (env : Sockets) (now : ℕ) (id : Text) (state : NodeState) (n : Node)
    → IsTidy n
    → IsTidy (set_node_state env now id state n).1
set_node_state-IsTidy env now id state n t = elim (Option-cases (try_get_value n.table.rtable id)) [
  | inl absent ↦ elim (Bool-cases (rank state == rank updates_received)) [
    | inl early ↦
        unfold set_node_state in
        rw (absent, set_node_state, early)
          (record {
            entries = t.entries;
            connected = t.connected;
            few_successors = t.few_successors;
            few_predecessors = t.few_predecessors;
          })
    | inr other ↦ unfold set_node_state in rw (absent, set_node_state, other) t
  ]
  | inr (e, found) ↦
      unfold set_node_state in rw (found, set_node_state) (set_found-IsTidy env now id state e n t)
]
