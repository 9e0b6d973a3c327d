-- ===== src/Peers.antt =====
-- Core/ConnectionManager.js: how a connection comes to be, its timers, and the first message on a
-- data channel; `addPeer` of Core/bootstrapCache.js and `addCertificate` of Crypto/Keystore.js.
pub mod Limits
pub mod Disk
pub mod Certificates
use reloadjs.Base.{
  ℕ, zero, suc, ◌+◌, ◌==◌, leb, Bool, true, false, not, ◌&&◌, ◌||◌, List, [], ◌∷◌, ◌++◌, Option,
  none, some, map, if◌then◌else◌, length, head?, drop, keep, Text, object_text, same, has,
}
use reloadjs.Transport.Header.{RoutableId, node_id}
use reloadjs.Node.{
  Node, Connection, Ping, Peer, Body, join_request, leave_request, update_request, ping_request,
  Effect, start_timers, send_close, send_identity, Sockets, Exec, Outcome, returned, thrown, pure,
  modify, ◌>>=◌, ◌>>◌,
}
use reloadjs.Node.Connections.{find_connection, get_connection, remove_connection, send_message}
use reloadjs.Routing.Updates.{add_neighbor}

-- `maxPeerToCache`.
abbrev pub max_peer_to_cache : ℕ
max_peer_to_cache = 10

-- `addPeer`; a full cache stays as it is. The copy of the cache on disk is left out.
unfoldable pub add_peer : Peer → List Peer → List Peer
add_peer peer cache = if leb max_peer_to_cache (length cache) then cache else cache ++ peer ∷ []

unfoldable pub reset_ping : Text → List Ping → List Ping
reset_ping id pings = map (λ p. if same p.id id then record p { cpt = 0 } else p) pings

-- `storedCert[key] = cert`.
unfoldable pub store_certificate : Text → Text → List (Text × Text) → List (Text × Text)
store_certificate key cert [] = (key, cert) ∷ []
store_certificate key cert ((k, c) ∷ rest) =
    if same k key then (key, cert) ∷ rest else (k, c) ∷ store_certificate key cert rest

abbrev pub link : Text → ℕ → Connection
link id socket = record { id = id; socket = socket }

-- The part of `addConnection` for a node that has no connection. The key of the certificate is the
-- text of the `NodeID` object, the same for every node.
unfoldable pub new_connection : Sockets → Text → ℕ → Text → Node → Node
unfolding add_peer reset_ping store_certificate
new_connection env id socket cert n = record n {
  connections = n.connections ++ link id socket ∷ [];
  pending_ping = reset_ping id n.pending_ping ++ record { id = id; cpt = 0 } ∷ [];
  done = n.done ++ start_timers id socket ∷ [];
  key_store = store_certificate object_text cert n.key_store;
  cache = elim (env.remote socket) [ none ↦ n.cache | some peer ↦ add_peer peer n.cache ];
}

-- `addConnection`; `none` is the null that a data channel gets for a node that has a connection.
unfoldable pub add_connection : Sockets → Text → ℕ → Text → Bool → Exec Node (Option Connection)
unfolding new_connection find_connection
add_connection env id socket cert is_ice n = elim (find_connection id n.connections) [
  | some c ↦ (returned (if is_ice then none else some c), n)
  | none ↦ (returned (some (link id socket)), new_connection env id socket cert n)
]

unfoldable pub has_ping : Text → List Ping → Bool
has_ping id [] = false
has_ping id (p ∷ ps) = same p.id id || has_ping id ps

unfoldable pub drop_pings : Text → List Ping → List Ping
drop_pings id pings = keep (λ p. not (same p.id id)) pings

-- What follows the write of a ping.
unfoldable pub after_ping : Text → Bool → Exec Node Bool
unfolding drop_pings
after_ping id true n = (returned true, n)
after_ping id false n = (returned false, record n { pending_ping = drop_pings id n.pending_ping })

-- The callback of the ping interval of a connection; the result says whether the interval goes on.
unfoldable pub ping_tick : Sockets → Text → ℕ → Exec Node Bool
unfolding has_ping after_ping
ping_tick env id socket n =
    if has_ping id n.pending_ping
    then (send_message env (some socket) ping_request (node_id id ∷ []) >>= after_ping id) n
    else (returned false, n)

-- Is this the fifth ping in turn that has no answer?
unfoldable pub timed_out : Text → List Ping → Bool
timed_out id [] = false
timed_out id (p ∷ ps) = (same p.id id && p.cpt + 1 == 5) || timed_out id ps

-- The callback of the timeout behind a ping.
unfoldable pub ping_timeout : Text → ℕ → Node → Node
unfolding timed_out drop_pings remove_connection
ping_timeout id socket n =
    if timed_out id n.pending_ping
    then record (remove_connection (some socket) n) { pending_ping = drop_pings id n.pending_ping }
    else record n {
      pending_ping =
          map (λ p. if same p.id id then record p { cpt = p.cpt + 1 } else p) n.pending_ping;
    }

-- The callback of the update interval of a connection.
unfoldable pub update_tick : Sockets → Text → ℕ → Exec Node Bool
update_tick env id socket = send_message env (some socket) update_request (node_id id ∷ [])

-- The leave request of `removeAll` to a node, with the successors or the predecessors.
unfoldable pub leave_body : Node → Text → Body
leave_body n id =
    if has id n.table.successors
    then leave_request 1 n.local n.table.successors
    else if has id n.table.predecessors
    then leave_request 2 n.local n.table.predecessors
    else leave_request 1 n.local n.table.successors

-- The loop of `removeAll` from one index on, over the connections as they are in each round: a
-- failed write takes one of them out.
unfoldable pub remove_all_from : Sockets → ℕ → ℕ → Exec Node Unit
unfolding leave_body
remove_all_from env zero i n = (returned tt, n)
remove_all_from env (suc rounds) i n =
    let rest = remove_all_from env rounds (suc i) in
    elim (head? (drop i n.connections)) [
      | none ↦ (returned tt, n)
      | some c ↦
          (send_message env (some c.socket) (leave_body n c.id) (node_id c.id ∷ []) >> rest) n
    ]

-- `removeAll`.
unfoldable pub remove_all : Sockets → Exec Node Unit
unfolding remove_all_from
remove_all env n = remove_all_from env (length n.connections) 0 n

-- `ICEonConnect`; what `send` throws is logged. That `write` of a channel is its `send` from then on is
-- left to `writable`.
unfoldable pub ice_on_connect : Sockets → ℕ → Exec Node Unit
ice_on_connect env channel n =
    if env.writable channel
    then (returned tt, record n { done = n.done ++ send_identity channel ∷ [] })
    else (returned tt, n)

-- A message on a data channel that is an object: the first one, with an id and a certificate, the
-- close message, or another one.
pub data IceMessage : Type 0 where
  first_message : Text → Text → IceMessage
  close_message other_object : IceMessage

unfoldable pub ask_to_join : Sockets → Option ℕ → Text → Exec Node Unit
ask_to_join env socket id n =
    if not n.joined && not n.topology_initiator
    then (send_message env socket (join_request n.local) (node_id id ∷ []) >> pure tt) n
    else (returned tt, n)

unfoldable pub remember_ap : Text → Node → Node
remember_ap id n =
    if not n.joined && not n.is_overlay_initiator then record n { ap = some id } else n

-- What follows `addConnection`: a second channel to the same node is closed again.
unfoldable pub after_channel : Sockets → Text → ℕ → Option Connection → Exec Node Unit
unfolding ask_to_join
after_channel env id channel (some c) n = ask_to_join env (some channel) id n
after_channel env id channel none n =
    if env.writable channel
    then ask_to_join env (get_connection n id) id
        (record n { done = n.done ++ send_close channel ∷ [] })
    else (thrown, n)

-- `ICEonMessage` of an object. An exception reaches the handler of text that is no object, which
-- throws on it again.
unfoldable pub ice_on_message : Sockets → ℕ → ℕ → Text → IceMessage → Exec Node Unit
unfolding add_connection after_channel remember_ap
ice_on_message env now channel sdp close_message = pure tt
ice_on_message env now channel sdp other_object = pure tt
ice_on_message env now channel sdp (first_message [] cert) = pure tt
ice_on_message env now channel sdp (first_message (c ∷ cs) cert) =
    add_neighbor (c ∷ cs) (some sdp) now
    >> (add_connection env (c ∷ cs) channel cert true >>= after_channel env (c ∷ cs) channel)
    >> modify (remember_ap (c ∷ cs))
