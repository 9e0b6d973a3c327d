-- ===== src/Tests/Ring.antt =====
-- The ring of identifiers and the neighbor sets.
use reloadjs.Base.{
  ℕ, ◌<◌, ◌+◌, ◌%◌, ◌^◌, ◌≡◌, ◌↔◌, ◌⊎◌, refl, inl, inr, true, false, [], ◌∷◌, arith, add, add_all,
  delete, length, codes, same, has,
}
use reloadjs.Ids.{convert_node_id, in_interval, add_node_id}
use reloadjs.Ids.Interval.{clockwise, in_interval-clockwise}
use reloadjs.Ids.Bounds.{convert_node_id_exact}
use reloadjs.Ids.Increment.{IsHex, hex_number, hex_number-add_node_id}
use reloadjs.Routing.Neighbors.{neighbors_from_total}
use reloadjs.Routing.Neighbors.Loop.{ring_key, IsOther}
use reloadjs.Routing.Neighbors.Sets.{IsNearest}
use reloadjs.Routing.Neighbors.Nearest.{neighbors_from_total-IsNearest}
use reloadjs.Routing.Merge.{known_nodes, merged_table}
use reloadjs.Routing.Merge.Known.{is_known, AreNearest, merged_table-AreNearest}
use reloadjs.Tests.Data.{local_id, lower, upper, small_node, update}

in_interval-clockwise_example : (in_interval 1 8 3 false ≡ true) ↔ (
    ((0 < clockwise 10 8 1) × (clockwise 10 8 1 < clockwise 10 8 3))
    ⊎ (((let n : ℕ = 1 in n) ≡ 3) × (false ≡ true)))
in_interval-clockwise_example =
    in_interval-clockwise 10 1 8 3 false (omega arith) (omega arith) (omega arith) (omega arith)

hex_number-add_node_id_example :
    IsHex (add_node_id (codes "a9f"))
    × (length (add_node_id (codes "a9f")) ≡ 3)
    × (hex_number (add_node_id (codes "a9f")) ≡ (hex_number (codes "a9f") + 1) % 16 ^ 3)
hex_number-add_node_id_example =
    hex_number-add_node_id (codes "a9f")
      (
        inr (omega arith, omega arith),
        (inl (omega arith, omega arith), (inr (omega arith, omega arith), tt)),
      )
      (omega arith)

convert_node_id_exact_example : convert_node_id (codes "5") < 2 ^ 53
convert_node_id_exact_example = convert_node_id_exact (codes "5") (omega arith, tt) (omega arith)

upper-IsOther : IsOther 1000 local_id upper
upper-IsOther = record {
  bounded = unfold convert_node_id in omega arith;
  other = unfold convert_node_id in omega arith;
  proper = λ e. ground (arith, e);
}

lower-IsOther : IsOther 1000 local_id lower
lower-IsOther = record {
  bounded = unfold convert_node_id in omega arith;
  other = unfold convert_node_id in omega arith;
  proper = λ e. ground (arith, e);
}

neighbors_from_total-IsNearest_example :
    IsNearest
      (ring_key 1000 local_id true)
      (lower ∷ upper ∷ [])
      (neighbors_from_total local_id (lower ∷ upper ∷ []) true)
neighbors_from_total-IsNearest_example =
    neighbors_from_total-IsNearest 1000 local_id (unfold convert_node_id in omega arith) true
      (lower ∷ upper ∷ []) (lower-IsOther, (upper-IsOther, tt))
      ((unfold convert_node_id in omega arith, tt), (tt, tt))

known_nodes-small : known_nodes small_node lower update ≡ lower ∷ upper ∷ []
unfolding known_nodes add_all add has delete same
known_nodes-small = refl

merged_table-AreNearest_example :
    AreNearest
      (ring_key 1000 local_id true)
      (is_known small_node lower update)
      (merged_table small_node lower update).successors
    × AreNearest
        (ring_key 1000 local_id false)
        (is_known small_node lower update)
        (merged_table small_node lower update).predecessors
merged_table-AreNearest_example =
    merged_table-AreNearest 1000 small_node lower update (unfold convert_node_id in omega arith)
      (rw known_nodes-small (lower-IsOther, (upper-IsOther, tt)))
      (rw known_nodes-small ((unfold convert_node_id in omega arith, tt), (tt, tt))) refl
