-- ===== src/Router/Sent.antt =====
-- What the router writes, and that it does not fail.
use reloadjs.Base.{
  ℕ, ◌≡◌, ◌≢◌, refl, inl, inr, true, false, List, [], ◌∷◌, ◌++◌, reverse, some, arith, same_iff,
  Bool-cases,
}
use reloadjs.Transport.Header.{RoutableId, id_text, Header, Settings, new_response_message}
use reloadjs.Node.{Node, Body, write, Sockets, returned}
use reloadjs.Node.Connections.{get_connection, is_neighbor, send_message, send, remove_connection}
use reloadjs.Routing.Hops.{Hop, node}
use reloadjs.Routing.Hops.Choice.{Known, get_next_hops-total}
use reloadjs.Router.{
  lookup_id, transmit_over, transmit_to, transmit, transmit_all, router_hops, transmit_hops, route,
  send_answer, unwritable, send_error,
}

-- A message to a connected destination whose socket can be written to is written there, once and
-- nowhere else, with the whole destination list.
pub route_connected :
    (env : Sockets) (body : Body) (dest : RoutableId) (dests : List RoutableId) (s : ℕ) (n : Node)
    → id_text dest ≢ []
    → get_connection n (id_text dest) ≡ some s
    → env.writable s ≡ true
    → route env body (dest ∷ dests) n
      ≡ (returned tt, record n { done = n.done ++ write s body (dest ∷ dests) ∷ [] })
route_connected env body dest dests s n proper near ok =
    unfold route transmit_hops transmit_all in rw (one_hop, sent) refl
  where
    neighbor : is_neighbor n (id_text dest) ≡ true
    neighbor = unfold is_neighbor in rw (near, is_neighbor) refl

    one_hop : router_hops n dest ≡ returned (node (id_text dest) ∷ [])
    one_hop = unfold router_hops in rw neighbor refl

    own_id : lookup_id (id_text dest) ≡ id_text dest
    own_id = unfold lookup_id in ground (arith, same_iff (id_text dest) [], proper)

    sent :
        transmit env body (dest ∷ dests) (node (id_text dest)) n
        ≡ (returned tt, record n { done = n.done ++ write s body (dest ∷ dests) ∷ [] })
    sent = unfold transmit transmit_to transmit_over send_message send in rw (own_id, near, ok) refl

router_hops-total :
    (n : Node) (dest : RoutableId)
    → Known n.table n.table.successors
    → (hop : Hop) × (router_hops n dest ≡ returned (hop ∷ []))
router_hops-total n dest k = elim (Bool-cases (is_neighbor n (id_text dest))) [
  | inl near ↦ (node (id_text dest), unfold router_hops in rw near refl)
  | inr far ↦ unfold router_hops in rw far (get_next_hops-total n (id_text dest) k)
]

-- If every successor has an entry, the router throws for no destination list that is not empty,
-- even where no connection is found or a write fails.
pub route-total :
    (env : Sockets) (body : Body) (dest : RoutableId) (dests : List RoutableId) (n : Node)
    → Known n.table n.table.successors
    → (route env body (dest ∷ dests) n).0 ≡ returned tt
route-total env body dest dests n k = go (router_hops-total n dest k)
  where
    go :
        (hop : Hop) × (router_hops n dest ≡ returned (hop ∷ []))
        → (route env body (dest ∷ dests) n).0 ≡ returned tt
    go (hop, e) = unfold route transmit_hops transmit_all transmit in rw e refl

-- An error answer to a request whose path back begins with a connected node is never written. Instead
-- the connection to that node is removed, and its entries in the tables with it; on a data channel
-- the exception of `destroy` changes nothing more.
pub send_error-removes :
    (env : Sockets) (conf : Settings) (h : Header) (error : Body) (hop : RoutableId)
    (path : List RoutableId) (s : ℕ) (n : Node)
    → reverse h.via_list ≡ hop ∷ path
    → id_text hop ≢ []
    → get_connection n (id_text hop) ≡ some s
    → send_error env conf h error n ≡ (returned tt, remove_connection (some s) n)
send_error-removes env conf h error hop path s n back proper near =
    unfold send_error send_answer new_response_message unwritable in
    rw back (unfold route transmit_hops transmit_all in rw (one_hop, failed) refl)
  where
    neighbor : is_neighbor n (id_text hop) ≡ true
    neighbor = unfold is_neighbor in rw (near, is_neighbor) refl

    one_hop : router_hops n hop ≡ returned (node (id_text hop) ∷ [])
    one_hop = unfold router_hops in rw neighbor refl

    own_id : lookup_id (id_text hop) ≡ id_text hop
    own_id = unfold lookup_id in ground (arith, same_iff (id_text hop) [], proper)

    failed :
        transmit (record env { writable = λ s. false }) error (hop ∷ path) (node (id_text hop)) n
        ≡ (returned tt, remove_connection (some s) n)
    failed =
        unfold transmit transmit_to transmit_over send_message send in
        elim (Bool-cases (env.destroyable s)) [
          | inl tls ↦ rw (own_id, near, tls) refl
          | inr channel ↦ rw (own_id, near, channel) refl
        ]
