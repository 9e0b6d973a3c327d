-- ===== src/Routing/Table/Sizes.antt =====
-- The queries that read a `Set` by an index.
use reloadjs.Base.{
  ℕ, zero, suc, ◌≡◌, refl, ◌==◌, Bool, false, not, List, length, Text, Bool-cases, inl, inr,
}
use reloadjs.Node.{Table}
use reloadjs.Routing.Table.{
  count_from, get_successor_count, get_predecessor_count, differs_from, is_changed_list,
}

differs_from-false : (old new : List Text) (i rounds : ℕ) → differs_from old new i rounds ≡ false
unfolding differs_from
differs_from-false old new i zero = refl
differs_from-false old new i (suc rounds) = differs_from-false old new (suc i) rounds

-- `isChangedList` compares the sizes of two sets and nothing else: sets of one size count as
-- unchanged, whatever their members are.
pub is_changed_list_sizes :
    (old new : List Text) → is_changed_list old new ≡ not (length old == length new)
unfolding is_changed_list
is_changed_list_sizes old new = elim (Bool-cases (length old == length new)) [
  | inl equal ↦ rw (equal, differs_from-false old new 0 (length old)) refl
  | inr other ↦ rw other refl
]

count_from-zero :
    (t : Table) (b : Bool) (set : List Text) (i rounds : ℕ) → count_from t b set i rounds 0 ≡ 0
unfolding count_from
count_from-zero t b set i zero = refl
count_from-zero t b set i (suc rounds) = refl

-- The counts of successors and predecessors are 0 for every table.
pub neighbor_counts :
    (t : Table) (only_approved : Bool)
    → (get_successor_count t only_approved ≡ 0) × (get_predecessor_count t only_approved ≡ 0)
unfolding get_successor_count get_predecessor_count
neighbor_counts t b = (
  count_from-zero t b t.successors 0 (length t.successors),
  count_from-zero t b t.predecessors 0 (length t.predecessors),
)
