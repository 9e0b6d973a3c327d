-- ===== src/Routing/Table.antt =====
-- The queries of Routing/CHORDRoutingTable.js on the tables.
pub mod Sizes
use reloadjs.Base.{
  ℕ, zero, suc, ◌==◌, leb, Bool, true, false, not, ◌&&◌, ◌||◌, List, [], ◌∷◌, Option, none, some,
  if◌then◌else◌, length, Text, same, keep,
}
use reloadjs.Node.{
  NodeState, unknown, attached, updates_received, rank, RTableEntry, FTableEntry, Table, Outcome,
  returned, thrown,
}

-- `tryGetValue` of a `NodeID` object. A plain string has no `id`, and is never found.
unfoldable pub try_get_value : List RTableEntry → Text → Option RTableEntry
try_get_value [] id = none
try_get_value (item ∷ items) id = if same item.id id then some item else try_get_value items id

unfoldable pub get_node_state : Table → Text → NodeState
get_node_state t id = elim (try_get_value t.rtable id) [ none ↦ unknown | some e ↦ e.node_state ]

unfoldable pub get_ping : Table → Text → Bool
get_ping t id = elim (try_get_value t.rtable id) [ none ↦ false | some e ↦ e.pinging ]

unfoldable pub is_wait_for_join_ans : Table → Text → Bool
is_wait_for_join_ans t id = elim (try_get_value t.rtable id) [
  | none ↦ false
  | some e ↦ e.wait_for_join_answer
]

unfoldable pub is_attached : Table → Text → Bool
unfolding get_node_state
is_attached t id =
    let state = get_node_state t id in
    rank state == rank attached || rank state == rank updates_received

unfoldable pub got_updates_from : Table → Text → Bool
unfolding get_node_state
got_updates_from t id = leb 2 (rank (get_node_state t id))

-- A `Set` has no indexed elements: `set[i]` is undefined.
abbrev pub set_index : List Text → ℕ → Option Text
set_index set i = none

-- The loop of `getSuccessorCount` and `getPredecessorCount` from index `i`, with the rounds left.
unfoldable pub count_from : Table → Bool → List Text → ℕ → ℕ → ℕ → ℕ
count_from t only_approved set i zero count = count
count_from t only_approved set i (suc rounds) count =
    let rest = count_from t only_approved set (suc i) rounds in
    elim (set_index set i) [
      | none ↦ count
      | some id ↦ if not only_approved || is_attached t id then rest (suc count) else rest count
    ]

unfoldable pub get_successor_count : Table → Bool → ℕ
unfolding count_from
get_successor_count t only_approved =
    count_from t only_approved t.successors 0 (length t.successors) 0

unfoldable pub get_predecessor_count : Table → Bool → ℕ
unfolding count_from
get_predecessor_count t only_approved =
    count_from t only_approved t.predecessors 0 (length t.predecessors) 0

-- `gotUpdatesFrom(undefined)` throws if there is an entry to compare with, and is false otherwise.
approved_of : Text → List Text → List RTableEntry → Outcome (Option Text)
approved_of local [] entries = returned none
approved_of local (x ∷ xs) [] = returned (some local)
approved_of local (x ∷ xs) (e ∷ es) = thrown

unfoldable pub get_approved_successor : Text → Table → Outcome (Option Text)
unfolding approved_of
get_approved_successor local t = approved_of local t.successors t.rtable

unfoldable pub get_approved_predecessor : Text → Table → Outcome (Option Text)
unfolding approved_of
get_approved_predecessor local t = approved_of local t.predecessors t.rtable

get_elem? : List Text → ℕ → Option Text
get_elem? [] i = none
get_elem? (x ∷ xs) zero = some x
get_elem? (x ∷ xs) (suc i) = get_elem? xs i

unfoldable pub get_successor : Table → ℕ → Option Text
get_successor t i = set_index t.successors i

unfoldable pub get_predecessor : Table → ℕ → Option Text
unfolding get_elem?
get_predecessor t i = get_elem? t.predecessors i

-- `getNode` of a `NodeID`.
unfoldable pub get_node : Table → Text → Option RTableEntry
unfolding try_get_value
get_node t id = try_get_value t.rtable id

all_attached : Table → List Text → Bool
all_attached t [] = true
all_attached t (x ∷ xs) = is_attached t x && all_attached t xs

unfoldable pub is_attached_to_all_neighbors : Table → Bool
unfolding all_attached
is_attached_to_all_neighbors t = all_attached t t.successors && all_attached t t.predecessors

unfoldable pub get_approved : Table → List Text → List Text
unfolding got_updates_from
get_approved t ids = keep (got_updates_from t) ids

-- `isFinger` of a string: with a finger to compare with, the conversion of the string throws.
unfoldable pub is_finger : List FTableEntry → Outcome (Option FTableEntry)
is_finger [] = returned none
is_finger (e ∷ es) = thrown

-- The loop of `isChangedList` over the indices.
unfoldable pub differs_from : List Text → List Text → ℕ → ℕ → Bool
differs_from old new i zero = false
differs_from old new i (suc rounds) = elim (set_index old i) [
  | none ↦ elim (set_index new i) [ none ↦ differs_from old new (suc i) rounds | some b ↦ true ]
  | some a ↦ elim (set_index new i) [
    | none ↦ true
    | some b ↦ if same a b then differs_from old new (suc i) rounds else true
  ]
]

unfoldable pub is_changed_list : List Text → List Text → Bool
unfolding differs_from
is_changed_list old new =
    if not (length old == length new) then true else differs_from old new 0 (length old)
