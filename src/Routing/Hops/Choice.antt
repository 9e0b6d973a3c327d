-- ===== src/Routing/Hops/Choice.antt =====
-- Which next hops are chosen.
use reloadjs.Base.{
  ◌<◌, ◌≡◌, refl, true, false, List, [], ◌∷◌, Option, none, some, inl, inr, arith, Text, same_iff,
  same_refl, has, All, ap, Option-cases, Bool-cases,
}
use reloadjs.Ids.{convert_node_id, distance, element_of_interval}
use reloadjs.Node.{RTableEntry, Table, Node, returned}
use reloadjs.Routing.Table.{try_get_value, get_node, got_updates_from}
use reloadjs.Routing.Hops.{
  Hop, node, ap_hop, get_closest_preceding_node, connected_to, hop_of, successor_hop, ring_hops,
  entry_hop, get_next_hops,
}

-- If the first entry of the routing table has a number that a double holds exactly, the chosen node
-- is the same for all destinations.
pub closest_ignores_destination :
    (t : Table) (e : RTableEntry) (es : List RTableEntry) (a b : Text)
    → t.rtable ≡ e ∷ es
    → convert_node_id e.id < 9007199254740991
    → get_closest_preceding_node t a ≡ get_closest_preceding_node t b
unfolding get_closest_preceding_node distance
closest_ignores_destination t e es a b h k = ground (arith, h)

-- The entry that is found under an id has that id.
try_get_value-id :
    (es : List RTableEntry) (id : Text) (e : RTableEntry) → try_get_value es id ≡ some e → e.id ≡ id
unfolding try_get_value
try_get_value-id [] id e h = cc
try_get_value-id (x ∷ xs) id e h = ground (arith, same_iff x.id id, try_get_value-id xs id e)

get_node-id : (t : Table) (id : Text) (e : RTableEntry) → get_node t id ≡ some e → e.id ≡ id
unfolding get_node
get_node-id t id e h = try_get_value-id t.rtable id e h

entry_hop-found :
    (t : Table) (dest : Text)
    → got_updates_from t dest ≡ true
    → entry_hop (get_node t dest) ≡ node dest
entry_hop-found t dest h = elim (Option-cases (try_get_value t.rtable dest)) [
  | inl absent ↦ absurd (unfold got_updates_from in ground (arith, absent))
  | inr (e, found) ↦
      unfold get_node entry_hop in
      rw (found, entry_hop) (ap node (try_get_value-id t.rtable dest e found))
]

-- A destination from which updates came is its own next hop, whether or not it is connected.
pub get_next_hops-updated :
    (n : Node) (dest : Text)
    → got_updates_from n.table dest ≡ true
    → get_next_hops n dest ≡ returned (node dest ∷ [])
get_next_hops-updated n dest h = elim (Bool-cases (connected_to dest n.connections)) [
  | inl near ↦ unfold get_next_hops in rw (near, entry_hop-found n.table dest h) refl
  | inr far ↦ unfold get_next_hops in rw (far, h, entry_hop-found n.table dest h) refl
]

-- The successor that the loop takes is one of the successors, and the destination lies on the ring
-- between the local node and it.
pub successor_hop-in_interval :
    (t : Table) (local dest : Text) (succs : List Text) (hop : Text)
    → successor_hop t local dest succs ≡ returned (some hop)
    → (has hop succs ≡ true) × (element_of_interval dest local hop false ≡ true)
unfolding has successor_hop
successor_hop-in_interval t local dest [] hop h = cc
successor_hop-in_interval t local dest (s ∷ ss) hop h =
    elim (Bool-cases (element_of_interval dest local s false)) [
      | inl between ↦ elim (Option-cases (get_node t s)) [
        | inl absent ↦ ground (arith, between, absent)
        | inr (e, found) ↦ ground (arith, between, found, same_refl s, get_node-id t s e found)
      ]
      | inr outside ↦
          let rest = successor_hop-in_interval t local dest ss hop (rw outside at h) in
          (ground (arith, rest), rest.1)
    ]

abbrev pub Known : Table → List Text → Type 0
Known t = All (λ s. (e : RTableEntry) × (get_node t s ≡ some e))

successor_hop-total :
    (t : Table) (local dest : Text) (succs : List Text)
    → Known t succs
    → (hop : Option Text) × (successor_hop t local dest succs ≡ returned hop)
unfolding successor_hop
successor_hop-total t local dest [] k = (none, refl)
successor_hop-total t local dest (s ∷ ss) k =
    elim (Bool-cases (element_of_interval dest local s false)) [
      | inl between ↦ (some k.0.0.id, rw (between, k.0.1) refl)
      | inr outside ↦ rw outside (successor_hop-total t local dest ss k.1)
    ]

ring_hops-total :
    (t : Table) (local dest : Text) (succs : List Text)
    → Known t succs
    → (hop : Hop) × (ring_hops t local dest succs ≡ returned (hop ∷ []))
ring_hops-total t local dest [] k = (node local, unfold ring_hops in refl)
ring_hops-total t local dest (s ∷ ss) k = go (successor_hop-total t local dest (s ∷ ss) k)
  where
    go :
        (hop : Option Text) × (successor_hop t local dest (s ∷ ss) ≡ returned hop)
        → (hop : Hop) × (ring_hops t local dest (s ∷ ss) ≡ returned (hop ∷ []))
    go (none, e) = (hop_of (get_closest_preceding_node t dest), unfold ring_hops in rw e refl)
    go (some hop, e) = (node hop, unfold ring_hops in rw e refl)

-- If every successor has an entry, `getNextHops` throws for no destination, and gives one hop.
pub get_next_hops-total :
    (n : Node) (dest : Text)
    → Known n.table n.table.successors
    → (hop : Hop) × (get_next_hops n dest ≡ returned (hop ∷ []))
get_next_hops-total n dest k =
    let t = n.table in
    elim (Bool-cases (connected_to dest n.connections)) [
      | inl near ↦ (entry_hop (get_node t dest), unfold get_next_hops in rw near refl)
      | inr far ↦ elim (Bool-cases (got_updates_from t dest)) [
        | inl updated ↦
            (entry_hop (get_node t dest), unfold get_next_hops in rw (far, updated) refl)
        | inr silent ↦ elim (Bool-cases n.mode_client) [
          | inl client ↦ (ap_hop n.ap, unfold get_next_hops in rw (far, silent, client) refl)
          | inr peer ↦
              unfold get_next_hops in
              rw (far, silent, peer) (ring_hops-total t n.local dest t.successors k)
        ]
      ]
    ]
