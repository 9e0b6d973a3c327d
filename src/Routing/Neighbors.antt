-- ===== src/Routing/Neighbors.antt =====
-- `neighborsFromTotal` of Routing/CHORDRoutingTable.js: the nearest successors or predecessors of
-- the local node among the known nodes.
pub mod Sorted
pub mod Loop
pub mod Sets
pub mod Nearest
use reloadjs.Base.{
  ℕ, suc, Bool, true, false, List, [], ◌∷◌, if◌then◌else◌, take, Text, object_text, same, add_all,
}
use reloadjs.Ids.{element_of_interval}

abbrev pub cache_size : ℕ
cache_size = 3

-- The test of one round of the inner loop, between the entry before and the entry at the index.
unfoldable pub follows : Bool → Text → Text → Text → Bool
follows true node previous entry = element_of_interval node previous entry false
follows false node previous entry = element_of_interval node entry previous false

-- The inner loop from one index on; behind the last entry the node is pushed.
unfoldable pub splice_node : Bool → Text → Text → List Text → List Text
splice_node is_successors node previous [] = node ∷ []
splice_node is_successors node previous (entry ∷ entries) =
    if follows is_successors node previous entry
    then node ∷ entry ∷ entries
    else entry ∷ splice_node is_successors node entry entries

-- `node == global.nodeID[0]` compares a string with an object. The first node is pushed, and goes
-- through the loop as every other node does.
abbrev or_first : Text → List Text → List Text
or_first node [] = node ∷ []
or_first node (entry ∷ entries) = entry ∷ entries

unfoldable pub insert_node : Bool → Text → List Text → Text → List Text
unfolding splice_node
insert_node is_successors local list node =
    if same node object_text
    then list
    else splice_node is_successors node local (or_first node list)

unfoldable pub insert_nodes : Bool → Text → List Text → List Text → List Text
insert_nodes is_successors local list [] = list
insert_nodes is_successors local list (node ∷ nodes) =
    insert_nodes is_successors local (insert_node is_successors local list node) nodes

-- `newList.length = CACHE_SIZE` cuts a longer list, and `new Set` drops what is there twice.
unfoldable pub neighbors_from_total : Text → List Text → Bool → List Text
neighbors_from_total local total is_successors =
    add_all [] (take cache_size (insert_nodes is_successors local [] total))
