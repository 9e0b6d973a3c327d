-- ===== src/Routing/Neighbors/Nearest.antt =====
-- What `neighborsFromTotal` returns: the nearest nodes, in order.
use reloadjs.Base.{
  ℕ, ◌<◌, ◌≡◌, refl, ap, ◌∙◌, Bool, List, [], ◌∷◌, ◌++◌, arith, take, All, Text, same_refl, has,
  add_all,
}
use reloadjs.Ids.{convert_node_id}
use reloadjs.Routing.Neighbors.Sorted.{
  Rising, sort_onto, Apart, length-sort_onto, has-sort_onto, Rising-sort_onto,
}
use reloadjs.Routing.Neighbors.Loop.{
  ring_key, IsOther, key_pos, Apart-key, All-key_pos, AllDiffer-one, insert_nodes-first,
  insert_nodes-sort_onto,
}
use reloadjs.Routing.Neighbors.Sets.{IsNearest, add_all-take, take-IsNearest}
use reloadjs.Routing.Neighbors.{cache_size, insert_nodes, neighbors_from_total}

module _ (m : ℕ) (local : Text) (bound : convert_node_id local < m) (is_successors : Bool) where
  abbrev key : Text → ℕ
  key = ring_key m local is_successors

  abbrev sorted : Text → List Text → List Text
  sorted node nodes = sort_onto key (node ∷ []) nodes

  insert_nodes-sorted :
      (node : Text) (nodes : List Text)
      → All (IsOther m local) (node ∷ nodes)
      → Apart key (node ∷ nodes)
      → insert_nodes is_successors local [] (node ∷ nodes) ≡ sorted node nodes ++ node ∷ []
  insert_nodes-sorted node nodes o a =
      insert_nodes-first m local bound is_successors node nodes o.0
      ∙ insert_nodes-sort_onto m local bound is_successors node (node ∷ []) nodes o.0.bounded
          (o.0.bounded, tt) (key_pos m local bound is_successors node o.0, tt) (omega arith) o.1
          (AllDiffer-one m local bound is_successors node nodes a.0) a.1

  sorted-Rising :
      (node : Text) (nodes : List Text)
      → All (IsOther m local) (node ∷ nodes)
      → Apart key (node ∷ nodes)
      → Rising key 0 (sorted node nodes)
  sorted-Rising node nodes o a =
      Rising-sort_onto key 0 (node ∷ []) nodes (key_pos m local bound is_successors node o.0, tt)
        (All-key_pos m local bound is_successors nodes o.1)
        (AllDiffer-one m local bound is_successors node nodes a.0) a.1

  has-sorted :
      (x node : Text) (nodes : List Text) → has x (sorted node nodes) ≡ has x (node ∷ nodes)
  unfolding has
  has-sorted x node nodes = ground (arith, has-sort_onto key x (node ∷ []) nodes)

  cut_sorted :
      (node : Text) (nodes : List Text)
      → All (IsOther m local) (node ∷ nodes)
      → Apart key (node ∷ nodes)
      → neighbors_from_total local (node ∷ nodes) is_successors
        ≡ take cache_size (sorted node nodes)
  unfolding neighbors_from_total
  cut_sorted node nodes o a =
      ap (λ list. add_all [] (take cache_size list)) (insert_nodes-sorted node nodes o a)
      ∙ add_all-take key node (sorted node nodes) (sorted-Rising node nodes o a)
          (has-sorted node node nodes ∙ unfold has in rw (same_refl node))

  -- On a ring of size `m`, for known nodes that have different numbers below `m`, none of them that
  -- of the local node, `neighborsFromTotal` returns nodes of the list with rising distances from
  -- the local node (upwards for successors, downwards for predecessors), three of them or all if
  -- there are fewer, and every node that is left out is farther away than each that is returned.
  pub neighbors_from_total-IsNearest :
      (total : List Text)
      → All (IsOther m local) total
      → Apart convert_node_id total
      → IsNearest key total (neighbors_from_total local total is_successors)
  neighbors_from_total-IsNearest [] o a =
      unfold neighbors_from_total insert_nodes add_all in
      take-IsNearest key [] [] tt refl (λ x. refl)
  neighbors_from_total-IsNearest (node ∷ nodes) o a =
      let apart = Apart-key m local bound is_successors (node ∷ nodes) o a in
      rw (cut_sorted node nodes o apart) (
        take-IsNearest key (node ∷ nodes) (sorted node nodes) (sorted-Rising node nodes o apart)
          (omega (arith, length-sort_onto key (node ∷ []) nodes)) (λ x. has-sorted x node nodes))
