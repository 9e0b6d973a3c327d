-- ===== src/Tests/Tables.antt =====
-- The queries of the routing table.
use reloadjs.Base.{
  ◌≤◌, ◌≡◌, ◌↔◌, refl, true, not, [], ◌∷◌, some, arith, ◌==◌, length, All, codes, same,
}
use reloadjs.Ids.{convert_node_id, get_distance}
use reloadjs.Node.{attached}
use reloadjs.Node.Connections.{is_neighbor}
use reloadjs.Routing.Table.{try_get_value, get_node_state, is_changed_list, got_updates_from}
use reloadjs.Routing.Hops.{get_closest_preceding_node}
use reloadjs.Routing.Hops.Choice.{closest_ignores_destination}
use reloadjs.Forwarding.{own_distance, topology_responsible}
use reloadjs.Forwarding.Responsible.{topology_responsible_iff}
use reloadjs.Routing.Table.Sizes.{is_changed_list_sizes}
use reloadjs.Tests.Data.{lower, upper, entry_of, small_table, small_node}

pub found_upper : try_get_value small_table.rtable upper ≡ some (entry_of upper attached)
unfolding try_get_value same
found_upper = refl

closest_ignores_destination_example :
    get_closest_preceding_node small_table (codes "2")
    ≡ get_closest_preceding_node small_table (codes "9")
closest_ignores_destination_example =
    closest_ignores_destination small_table (entry_of lower attached) (entry_of upper attached ∷ [])
      (codes "2") (codes "9") refl (unfold convert_node_id in omega arith)

lower_updated : got_updates_from small_table lower ≡ true
unfolding got_updates_from get_node_state try_get_value same
lower_updated = refl

topology_responsible_iff_example :
    (topology_responsible small_node upper ≡ true)
    ↔ All
        (λ e.
          is_neighbor small_node e.id ≡ true
          → own_distance small_node upper ≤ get_distance e.id upper)
        small_table.rtable
topology_responsible_iff_example = topology_responsible_iff small_node upper

is_changed_list_sizes_example :
    is_changed_list (lower ∷ []) (upper ∷ []) ≡ not (length (lower ∷ []) == length (upper ∷ []))
is_changed_list_sizes_example = is_changed_list_sizes (lower ∷ []) (upper ∷ [])
