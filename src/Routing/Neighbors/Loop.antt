-- ===== src/Routing/Neighbors/Loop.antt =====
-- The loops of `neighborsFromTotal` run the insertion sort by the distance from the local node.
use reloadjs.Base.{
  object_text, ℕ, ◌<◌, ◌≤◌, ◌≡◌, ◌≢◌, refl, sym, ap, ◌∙◌, Bool, true, false, List, [], ◌∷◌, ◌++◌,
  arith, All, Text, same, same_iff,
}
use reloadjs.Ids.{in_interval, convert_node_id, element_of_interval}
use reloadjs.Ids.Interval.{clockwise, in_interval-rotate, in_interval-reflect}
use reloadjs.Routing.Neighbors.Sorted.{
  Rising, top, sort_onto, insert_sorted, Differs, AllDiffer, Apart, top-insert_sorted,
  Rising-insert_sorted, All-insert_sorted, AllDiffer-insert_sorted,
}
use reloadjs.Routing.Neighbors.{follows, splice_node, or_first, insert_node, insert_nodes}

-- How far a node lies from the local node: upwards for successors, downwards for predecessors.
unfoldable pub ring_key : ℕ → Text → Bool → Text → ℕ
ring_key m local true node = clockwise m (convert_node_id local) (convert_node_id node)
ring_key m local false node = clockwise m (convert_node_id node) (convert_node_id local)

-- The node has a number on the ring of size `m`, another one than the local node.
pub record IsOther (m : ℕ) (local node : Text) : Type 0 where
  pub bounded : convert_node_id node < m
  pub other : convert_node_id node ≢ convert_node_id local
  pub proper : node ≢ object_text

module _ (m : ℕ) (local : Text) (bound : convert_node_id local < m) (is_successors : Bool) where
  abbrev key : Text → ℕ
  key = ring_key m local is_successors

  follows-in_interval :
      (node p x : Text)
      → convert_node_id node < m
      → convert_node_id p < m
      → convert_node_id x < m
      → follows is_successors node p x ≡ in_interval (key node) (key p) (key x) false
  follows-in_interval node p x h k l = go is_successors
    where
      go :
          (b : Bool)
          → follows b node p x
            ≡ in_interval
                (ring_key m local b node)
                (ring_key m local b p)
                (ring_key m local b x)
                false
      go true =
          unfold follows element_of_interval ring_key in
          in_interval-rotate m (convert_node_id local) _ _ _ bound h k l
      go false =
          unfold follows element_of_interval ring_key in
          in_interval-reflect m (convert_node_id local) _ _ _ bound h l k

  pub key-local : key local ≡ 0
  key-local = go is_successors
    where
      go : (b : Bool) → ring_key m local b local ≡ 0
      go true = unfold ring_key in ground arith
      go false = unfold ring_key in ground arith

  key-ne :
      (x y : Text)
      → convert_node_id x < m
      → convert_node_id y < m
      → convert_node_id x ≢ convert_node_id y
      → key x ≢ key y
  key-ne x y h k n = go is_successors
    where
      go : (b : Bool) → ring_key m local b x ≢ ring_key m local b y
      go true = unfold ring_key in ground arith
      go false = unfold ring_key in ground arith

  pub key_pos : (x : Text) → IsOther m local x → 0 < key x
  key_pos x o = omega (arith, key-local, key-ne x local o.bounded bound o.other)

  -- One pass of the inner loop.
  splice_node-insert_sorted :
      (node p first : Text) (xs : List Text)
      → convert_node_id node < m
      → convert_node_id p < m
      → convert_node_id first < m
      → All (λ x. convert_node_id x < m) xs
      → Rising key (key p) xs
      → key p < key node
      → key first ≤ top key (key p) xs
      → Differs key node xs
      → splice_node is_successors node p (xs ++ first ∷ [])
        ≡ insert_sorted key node xs ++ first ∷ []
  unfolding splice_node insert_sorted in_interval
  splice_node-insert_sorted node p first [] hn hp hf hx r h t d =
      ground (arith, follows-in_interval node p first)
  splice_node-insert_sorted node p first (x ∷ xs) hn hp hf hx r h t d =
      ground (arith, follows-in_interval node p x, splice_node-insert_sorted node x first xs)

  or_first-append :
      (node first : Text) (xs : List Text) → or_first node (xs ++ first ∷ []) ≡ xs ++ first ∷ []
  or_first-append node first [] = refl
  or_first-append node first (x ∷ xs) = refl

  proper_differs : (node : Text) → node ≢ object_text → same node object_text ≡ false
  proper_differs node h = ground (arith, same_iff node object_text)

  insert_node-insert_sorted :
      (node first : Text) (xs : List Text)
      → IsOther m local node
      → convert_node_id first < m
      → All (λ x. convert_node_id x < m) xs
      → Rising key 0 xs
      → key first ≤ top key 0 xs
      → Differs key node xs
      → insert_node is_successors local (xs ++ first ∷ []) node
        ≡ insert_sorted key node xs ++ first ∷ []
  unfolding insert_node
  insert_node-insert_sorted node first xs o hf hx r t d =
      rw (proper_differs node o.proper, or_first-append node first xs)
        (splice_node-insert_sorted node local first xs o.bounded bound hf hx (rw key-local r)
          (rw key-local (key_pos node o)) (rw key-local t) d)

  pub insert_nodes-sort_onto :
      (first : Text) (xs nodes : List Text)
      → convert_node_id first < m
      → All (λ x. convert_node_id x < m) xs
      → Rising key 0 xs
      → key first ≤ top key 0 xs
      → All (IsOther m local) nodes
      → AllDiffer key xs nodes
      → Apart key nodes
      → insert_nodes is_successors local (xs ++ first ∷ []) nodes
        ≡ sort_onto key xs nodes ++ first ∷ []
  unfolding insert_nodes sort_onto
  insert_nodes-sort_onto first xs [] hf hx r t o d a = refl
  insert_nodes-sort_onto first xs (node ∷ nodes) hf hx r t o d a =
      ap (λ list. insert_nodes is_successors local list nodes)
        (insert_node-insert_sorted node first xs o.0 hf hx r t d.0)
      ∙ insert_nodes-sort_onto first (insert_sorted key node xs) nodes hf
          (All-insert_sorted key (λ x. convert_node_id x < m) node xs o.0.bounded hx)
          (Rising-insert_sorted key 0 node xs (key_pos node o.0) r d.0)
          (omega (arith, top-insert_sorted key 0 node xs (omega arith) r)) o.1
          (AllDiffer-insert_sorted key node xs nodes a.0 d.1) a.1

  -- The first node comes in twice: once in front and once behind.
  pub insert_nodes-first :
      (node : Text) (nodes : List Text)
      → IsOther m local node
      → insert_nodes is_successors local [] (node ∷ nodes)
        ≡ insert_nodes is_successors local (node ∷ node ∷ []) nodes
  unfolding insert_nodes insert_node splice_node in_interval
  insert_nodes-first node nodes o = ground (
    arith,
    proper_differs node o.proper,
    follows-in_interval node local node o.bounded bound o.bounded,
    key-local,
    key_pos node o,
  )

  Differs-key :
      (node : Text) (nodes : List Text)
      → convert_node_id node < m
      → All (IsOther m local) nodes
      → Differs convert_node_id node nodes
      → Differs key node nodes
  Differs-key node [] h o d = tt
  Differs-key node (x ∷ xs) h o d = (key-ne node x h o.0.bounded d.0, Differs-key node xs h o.1 d.1)

  pub Apart-key :
      (nodes : List Text)
      → All (IsOther m local) nodes
      → Apart convert_node_id nodes
      → Apart key nodes
  Apart-key [] o a = tt
  Apart-key (x ∷ xs) o a = (Differs-key x xs o.0.bounded o.1 a.0, Apart-key xs o.1 a.1)

  pub All-key_pos : (nodes : List Text) → All (IsOther m local) nodes → All (λ n. 0 < key n) nodes
  All-key_pos [] o = tt
  All-key_pos (x ∷ xs) o = (key_pos x o.0, All-key_pos xs o.1)

  pub AllDiffer-one :
      (node : Text) (nodes : List Text) → Differs key node nodes → AllDiffer key (node ∷ []) nodes
  AllDiffer-one node [] d = tt
  AllDiffer-one node (x ∷ xs) d = ((λ e. d.0 (sym e), tt), AllDiffer-one node xs d.1)
