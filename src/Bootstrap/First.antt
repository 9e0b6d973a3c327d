-- ===== src/Bootstrap/First.antt =====
-- The first attach request of a peer: the callbacks of `connectTo` of Core/ConnectionManager.js and of
-- `connect` of Core/bootstrap.js together, over the connections and the attach service of the peer.
use reloadjs.Base.{
  ℕ, ◌≡◌, refl, true, false, List, [], ◌∷◌, ◌++◌, append_assoc, Option, none, some, ◌∙◌,
  if◌then◌else◌, arith, Text, same,
}
use reloadjs.Ids.{add_node_id}
use reloadjs.Transport.Header.{RoutableId, node_id, resource_id, Settings}
use reloadjs.Node.{
  Connection, Effect, start_timers, write, attach_request, Sockets, Outcome, returned, thrown,
}
use reloadjs.Node.Connections.{find_connection}
use reloadjs.Peers.{link, new_connection, add_connection}
use reloadjs.Dispatch.{has_request}
use reloadjs.Ice.{StunServers, Description, offer_servers}
use reloadjs.Attach.{Offer, Service, attach_to, find_offer, find_pc, offer_complete}
use reloadjs.Attach.Round.{offer_complete-IsSent}
use reloadjs.Bootstrap.{Bootstrap, call_back}

-- The destinations of the attach request over a connection: the node there, and the id behind the own.
unfoldable pub first_dests : Text → Connection → List RoutableId
first_dests local c = node_id c.id ∷ resource_id (add_node_id local) ∷ []

-- `callBack` with the connection, where none was called before; the address becomes a TURN server
-- first.
unfoldable pub attach_over :
    StunServers → ℕ → Text → Text → Outcome (Option Connection) → Service → Service
unfolding attach_to first_dests
attach_over stun pc own addr thrown s = s
attach_over stun pc own addr (returned none) s = s
attach_over stun pc own addr (returned (some c)) s =
    attach_to stun pc c.socket (first_dests s.node.local c) true
      (record s { turns = if same addr own then s.turns else s.turns ++ addr ∷ [] })

-- The callback of `connectTo`: the connection to the node of the certificate is added, and `callBack`
-- is called with it.
unfoldable pub on_secure :
    StunServers
    → Sockets
    → ℕ
    → Text
    → Text
    → Text
    → ℕ
    → Text
    → Bootstrap × Service
    → Bootstrap × Service
unfolding call_back attach_over add_connection
on_secure stun env pc own addr id socket cert (b, s) =
    let (r, n) = add_connection env id socket cert false s.node in
    let s' : Service = record s { node = n } in
    (call_back own addr b, if b.is_connected then s' else attach_over stun pc own addr r s')

find_offer-append :
    (o : Offer) (os : List Offer)
    → find_offer o.pc os ≡ none
    → find_offer o.pc (os ++ o ∷ []) ≡ some o
unfolding find_offer
find_offer-append o [] h = ground arith
find_offer-append o (x ∷ xs) h = ground (arith, find_offer-append o xs)

-- What an effect says of the first attach request.
abbrev pub first_request : Text → ℕ → Text → Text → List Effect
first_request local socket id sdp =
    start_timers id socket
    ∷ write socket (attach_request sdp true) (node_id id ∷ resource_id (add_node_id local) ∷ [])
    ∷ []

-- The offer of the first attach request, and the service that has made it.
first_offer : StunServers → ℕ → Text → Text → Text → ℕ → Service → Offer
first_offer stun pc own addr id socket s = record {
  pc = pc;
  servers = offer_servers stun (if same addr own then s.turns else s.turns ++ addr ∷ []);
  socket = socket;
  dests = first_dests s.node.local (link id socket);
  asks_update = true;
}

offering : StunServers → Sockets → ℕ → Text → Text → Text → ℕ → Text → Service → Service
offering stun env pc own addr id socket cert s = record s {
  node = new_connection env id socket cert s.node;
  turns = if same addr own then s.turns else s.turns ++ addr ∷ [];
  offers = s.offers ++ first_offer stun pc own addr id socket s ∷ [];
}

on_secure_first :
    (stun : StunServers) (env : Sockets) (pc : ℕ) (own addr id : Text) (socket : ℕ) (cert : Text)
    (b : Bootstrap) (s : Service)
    → b.is_connected ≡ false
    → find_connection id s.node.connections ≡ none
    → on_secure stun env pc own addr id socket cert (b, s)
      ≡ (call_back own addr b, offering stun env pc own addr id socket cert s)
unfolding offering first_offer new_connection
on_secure_first stun env pc own addr id socket cert b s idle absent =
    unfold on_secure add_connection attach_over attach_to first_dests in
    rw (absent, idle, add_connection) refl

on_secure_again :
    (stun : StunServers) (env : Sockets) (pc : ℕ) (own addr id : Text) (socket : ℕ) (cert : Text)
    (b : Bootstrap) (s : Service)
    → b.is_connected ≡ true
    → (on_secure stun env pc own addr id socket cert (b, s)).1.offers ≡ s.offers
on_secure_again stun env pc own addr id socket cert b s connected =
    unfold on_secure in rw connected refl

is_connected-call_back :
    (own addr : Text) (b : Bootstrap) → (call_back own addr b).is_connected ≡ true
is_connected-call_back own addr b = unfold call_back in ground arith

-- A peer that is not connected yet reaches a bootstrap peer, to whose node it has no connection. When
-- the candidates of its offer are gathered, it has started the timers of the connection and written
-- an attach request over it, for the node and for the id behind its own, and asks for an update; the
-- request is pending, with its peer connection. The callback of a second bootstrap peer starts no
-- other offer.
pub on_secure_attaches :
    (stun : StunServers) (env env' : Sockets) (conf : Settings) (t pc pc' : ℕ) (d : Description)
    (own addr addr' id id' : Text) (socket socket' : ℕ) (cert cert' : Text) (b : Bootstrap)
    (s : Service)
    → b.is_connected ≡ false
    → find_connection id s.node.connections ≡ none
    → find_offer pc s.offers ≡ none
    → env'.writable socket ≡ true
    → let (b', s') = on_secure stun env pc own addr id socket cert (b, s) in
      let sent = (offer_complete env' conf t pc d s').1 in
      (b'.is_connected ≡ true)
      × (sent.node.done ≡ s.node.done ++ first_request s.node.local socket id d.sdp)
      × (has_request t sent.node.pending_requests ≡ true)
      × (find_pc t sent.pcs ≡ some pc)
      × ((on_secure stun env pc' own addr' id' socket' cert' (b', s')).1.offers ≡ s'.offers)
unfolding first_offer offering
on_secure_attaches stun env env' conf t pc pc' d own addr addr' id id' socket socket' cert cert' b s
      idle absent fresh ok =
    let made : Offer = first_offer stun pc own addr id socket s in
    let s' : Service = offering stun env pc own addr id socket cert s in
    let sent =
      offer_complete-IsSent env' conf t pc d made s' (find_offer-append made s.offers fresh)
        (unfold first_dests in λ e. cc) ok in
    rw (on_secure_first stun env pc own addr id socket cert b s idle absent) (
      is_connected-call_back own addr b,
      unfold new_connection first_dests in
          (sent.0
            ∙ append_assoc s.node.done (start_timers id socket ∷ [])
                (write socket (attach_request d.sdp true) made.dests ∷ [])),
      sent.1,
      sent.2,
      on_secure_again stun env pc' own addr' id' socket' cert' (call_back own addr b) s'
          (is_connected-call_back own addr b),
    )
