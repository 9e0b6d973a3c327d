-- ===== src/Routing/Merge/Known.antt =====
-- What `merge` makes of an update.
use reloadjs.Base.{
  ℕ, ◌≤◌, ◌<◌, ◌≡◌, ◌⊎◌, sym, ◌∙◌, refl, Bool, true, false, not, ◌&&◌, ◌||◌, List, [], ◌∷◌, map,
  arith, length, take, All, Text, same, has, has-add_all, delete, has-delete,
}
use reloadjs.Base.Unique.{length-delete, length-add_all, length-take-le}
use reloadjs.Ids.{convert_node_id}
use reloadjs.Node.{Node, Sockets}
use reloadjs.Node.Tidy.{IsTidy}
use reloadjs.Routing.Neighbors.{cache_size, insert_nodes, neighbors_from_total}
use reloadjs.Routing.Neighbors.Sorted.{Apart, Rising}
use reloadjs.Routing.Neighbors.Loop.{ring_key, IsOther}
use reloadjs.Routing.Neighbors.Sets.{IsNearest}
use reloadjs.Routing.Neighbors.Nearest.{neighbors_from_total-IsNearest}
use reloadjs.Routing.Updates.Stable.{send_update_to_all_neighbors-Keeps}
use reloadjs.Routing.Updates.Kept.{IsTidy-Stable}
use reloadjs.Routing.Merge.{Update, delete_all, named_nodes, known_nodes, merged_table, merge}

delete_all-nil : (xs : List Text) → delete_all xs [] ≡ []
unfolding delete_all delete
delete_all-nil [] = refl
delete_all-nil (x ∷ xs) = delete_all-nil xs

length-delete_all : (xs set : List Text) → length (delete_all xs set) ≤ length set
unfolding delete_all
length-delete_all [] set = omega arith
length-delete_all (x ∷ xs) set =
    omega (arith, length-delete_all xs (delete x set), length-delete x set)

length-neighbors_from_total :
    (local : Text) (total : List Text) (is_successors : Bool)
    → length (neighbors_from_total local total is_successors) ≤ 3
unfolding neighbors_from_total
length-neighbors_from_total local total b = omega (
  arith,
  length-add_all [] (take cache_size (insert_nodes b local [] total)),
  length-take-le cache_size (insert_nodes b local [] total),
)

-- A node that the update names, its sender or a neighbor so far, and not the local node; or a node
-- of the routing table or of the connections.
abbrev pub is_known : Node → Text → Update → Text → Bool
is_known n originator u x =
    (not (same x n.local)
      && (same x originator
          || has x u.successors
          || has x u.predecessors
          || has x n.table.successors
          || has x n.table.predecessors))
    || has x (map (λ e. e.id) n.table.rtable)
    || has x (map (λ c. c.id) n.connections)

known_nodes-has :
    (n : Node) (originator : Text) (u : Update) (x : Text)
    → has x (known_nodes n originator u) ≡ is_known n originator u x
unfolding known_nodes named_nodes has
known_nodes-has n originator u x = simp (has-add_all, has-delete) (ground arith)

-- The chosen nodes are the nearest of those with a property, by rising keys, and at most three; if
-- they are fewer, they are all of them.
pub record AreNearest (key : Text → ℕ) (known : Text → Bool) (chosen : List Text) : Type 0 where
  pub rising : Rising key 0 chosen
  pub few : length chosen ≤ 3
  pub drawn : (x : Text) → has x chosen ≡ true → known x ≡ true
  pub nearest :
      (x : Text) → known x ≡ true → (has x chosen ≡ true) ⊎ All (λ y. key y < key x) chosen
  pub all_if_fewer : length chosen < 3 → (x : Text) → known x ≡ true → has x chosen ≡ true

-- Only the members of the list count.
IsNearest-known :
    (key : Text → ℕ) (total : List Text) (known : Text → Bool) (chosen : List Text)
    → ((x : Text) → has x total ≡ known x)
    → IsNearest key total chosen
    → AreNearest key known chosen
IsNearest-known key total known chosen both near = record {
  rising = near.rising;
  few = omega (arith, near.sized);
  drawn = λ x h. sym (both x) ∙ near.drawn x h;
  nearest = λ x h. near.nearest x (both x ∙ h);
  all_if_fewer = λ l x h. near.all_if_fewer l x (both x ∙ h);
}

-- With no node noted as left, the successors and the predecessors after the update are the nearest
-- three, in their direction, of these nodes: those that the update names, its sender and the
-- neighbors so far, without the local node, and those of the routing table and the connections. If
-- fewer than three are chosen, they are all of them. The known nodes have different numbers on the
-- ring, none of them that of the local node.
pub merged_table-AreNearest :
    (m : ℕ) (n : Node) (originator : Text) (u : Update)
    → convert_node_id n.local < m
    → All (IsOther m n.local) (known_nodes n originator u)
    → Apart convert_node_id (known_nodes n originator u)
    → n.table.leaved_nodes ≡ []
    → AreNearest
        (ring_key m n.local true)
        (is_known n originator u)
        (merged_table n originator u).successors
      × AreNearest
          (ring_key m n.local false)
          (is_known n originator u)
          (merged_table n originator u).predecessors
unfolding merged_table
merged_table-AreNearest m n originator u bound o a left =
    let total = known_nodes n originator u in
    let both = known_nodes-has n originator u in
    rw (left, delete_all-nil (named_nodes originator u))
      (
        IsNearest-known (ring_key m n.local true) total (is_known n originator u) _ both
            (neighbors_from_total-IsNearest m n.local bound true total o a),
        IsNearest-known (ring_key m n.local false) total (is_known n originator u) _ both
            (neighbors_from_total-IsNearest m n.local bound false total o a),
      )

few_neighbors :
    (local : Text) (leaved total : List Text) (is_successors : Bool)
    → length (delete_all leaved (neighbors_from_total local total is_successors)) ≤ 3
few_neighbors local leaved total b = omega (
  arith,
  length-delete_all leaved (neighbors_from_total local total b),
  length-neighbors_from_total local total b,
)

merged-IsTidy :
    (n : Node) (originator : Text) (u : Update)
    → IsTidy n
    → IsTidy (record n { table = merged_table n originator u })
unfolding merged_table
merged-IsTidy n originator u t = record {
  entries = t.entries;
  connected = t.connected;
  few_successors =
      few_neighbors n.local (delete_all (named_nodes originator u) n.table.leaved_nodes)
        (known_nodes n originator u) true;
  few_predecessors =
      few_neighbors n.local (delete_all (named_nodes originator u) n.table.leaved_nodes)
        (known_nodes n originator u) false;
}

-- An update keeps the tables tidy (no two entries or connections for one node, at most three
-- successors and three predecessors), whatever fails while
-- updates are sent.
pub merge-IsTidy :
    (env : Sockets) (now : ℕ) (originator : Text) (u : Update) (force no_update : Bool) (n : Node)
    → IsTidy n
    → IsTidy (merge env now originator u force no_update n).1
unfolding merge
merge-IsTidy env now originator u force no_update n t = ground (
  arith,
  t,
  merged-IsTidy n originator u t,
  (send_update_to_all_neighbors-Keeps IsTidy-Stable env now).at
      (record n { table = merged_table n originator u }) (merged-IsTidy n originator u t),
)
