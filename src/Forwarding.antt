-- ===== src/Forwarding.antt =====
-- Transport/stack/ForwardingHandler.js, `isLocalPeerResponsible` of
-- Topology/DefaultTopologyPlugin.js, and Transport/MessageRouter.js: what a peer does with a message
-- that it receives or sends.
pub mod Kept
pub mod Verdicts
pub mod Hops
pub mod Responsible
use reloadjs.Base.{
  ℕ, suc, ltb, ◌==◌, Bool, true, false, not, ◌&&◌, ◌||◌, List, [], ◌∷◌, Option, none, some,
  if◌then◌else◌, length, head?, Text, same,
}
use reloadjs.Ids.{get_distance}
use reloadjs.Transport.Header.{
  RoutableId, node_id, resource_id, opaque_id, id_text, Header, is_zero_number, to_forward,
}
use reloadjs.Node.{
  Node, Connection, RTableEntry, Effect, forward, Sockets, Exec, Outcome, returned, thrown, pure,
  throw, ◌>>=◌, ◌>>◌, attempt,
}
use reloadjs.Node.Connections.{get_connection, is_neighbor, send}
use reloadjs.Routing.Hops.{Hop, node, plain, nothing, get_next_hops}

-- `processDestination`: the list as it is left. It throws on an empty list and on an opaque id, and
-- the caller only logs that.
unfoldable pub process_destination : Text → List RoutableId → List RoutableId
process_destination local [] = []
process_destination local (node_id id ∷ []) = node_id id ∷ []
process_destination local (node_id id ∷ r ∷ rs) =
    let rest = process_destination local (r ∷ rs) in
    if same id local then rest else node_id id ∷ r ∷ rs
process_destination local (resource_id id ∷ rs) = resource_id id ∷ rs
process_destination local (opaque_id id ∷ rs) = opaque_id id ∷ rs

-- `isValidDestination`; on an empty list it throws.
unfoldable pub is_valid_destination : Node → List RoutableId → Outcome Bool
is_valid_destination n [] = thrown
is_valid_destination n (node_id id ∷ rs) =
    returned (if same id n.local || is_zero_number id then true else is_neighbor n id)
is_valid_destination n (resource_id id ∷ rs) = returned (length rs == 0)
is_valid_destination n (opaque_id id ∷ rs) = returned true

-- The loop over the entries: is one of them connected and nearer than the bound?
unfoldable pub nearer_neighbor : Node → Text → ℕ → List RTableEntry → Bool
nearer_neighbor n dest bound [] = false
nearer_neighbor n dest bound (e ∷ es) =
    (ltb (get_distance e.id dest) bound && is_neighbor n e.id) || nearer_neighbor n dest bound es

unfoldable pub own_distance : Node → Text → ℕ
own_distance n dest =
    if n.topology_joined || n.topology_initiator
    then get_distance dest n.local
    else 9007199254740991

-- `DefaultTopologyPlugin.isLocalPeerResponsible`.
unfoldable pub topology_responsible : Node → Text → Bool
unfolding nearer_neighbor own_distance
topology_responsible n dest = not (nearer_neighbor n dest (own_distance n dest) n.table.rtable)

-- `ForwardingHandler.isLocalPeerResponsible`. The test for the wildcard compares an object with 0
-- and never holds.
unfoldable pub is_local_peer_responsible : Node → RoutableId → Bool
unfolding topology_responsible
is_local_peer_responsible n dest =
    if same (id_text dest) n.local then true else topology_responsible n (id_text dest)

-- `forward(getConnection(nextHop), msg)` for the hops in turn. A plain text has no `id` and finds no
-- connection, so it throws from the write to no socket, as a hop that is undefined does at the
-- latest.
unfoldable pub forward_hops : Sockets → Header → List Hop → Exec Node Unit
unfolding send
forward_hops env h [] n = (returned tt, n)
forward_hops env h (nothing ∷ hops) n = (thrown, n)
forward_hops env h (plain text ∷ hops) n = (thrown, n)
forward_hops env h (node hop ∷ hops) n =
    (send env (get_connection n hop) (λ s. forward s h) >>= λ _. forward_hops env h hops) n

-- The choice of the hops for a next hop with no connection.
unfoldable pub forward_routed : Sockets → Header → Outcome (List Hop) → Exec Node Unit
unfolding forward_hops
forward_routed env h thrown n = (thrown, n)
forward_routed env h (returned hops) n = forward_hops env h hops n

unfoldable pub forward_to : Sockets → Header → Option RoutableId → Exec Node Unit
unfolding forward_routed
forward_to env h none n = (thrown, n)
forward_to env h (some next) n = elim (get_connection n (id_text next)) [
  | some s ↦ (send env (some s) (λ k. forward k h) >> pure tt) n
  | none ↦ forward_routed env h (get_next_hops n (id_text next)) n
]

-- `MessageRouter.forwardMessage`. The effect has the header only: that the message is signed again,
-- and that writing a content that was read can throw, is left to `writable`.
unfoldable pub forward_message : Sockets → Header → Exec Node Unit
unfolding forward_to
forward_message env h n = elim (to_forward n.local h) [
  | none ↦ (thrown, n)
  | some h' ↦ forward_to env h' (head? h'.destination_list) n
]

-- What `handleForwarding` decides: 1 without forwarding, 0, 1 with forwarding, or an exception.
pub data Verdict : Type 0 where
  dropped delivered forwarded failed : Verdict

-- The decision for a list that is processed; over the initial TTL the error answer reads a variable
-- that does not exist.
unfoldable pub verdict_for : ℕ → Node → Header → RoutableId → Verdict
unfolding is_local_peer_responsible
verdict_for initial_ttl n h next =
    if (is_local_peer_responsible n next && length h.destination_list == 1) || h.ttl == 1
    then delivered
    else if h.ttl == 0
    then dropped
    else if ltb initial_ttl h.ttl
    then failed
    else forwarded

unfoldable pub decide_valid : ℕ → Node → Header → Outcome Bool → Option RoutableId → Verdict
unfolding verdict_for
decide_valid initial_ttl n h thrown next = failed
decide_valid initial_ttl n h (returned false) next = dropped
decide_valid initial_ttl n h (returned true) none = failed
decide_valid initial_ttl n h (returned true) (some next) = verdict_for initial_ttl n h next

-- The header after `processDestination`.
unfoldable pub processed : Node → Header → Header
unfolding process_destination
processed n h = record h { destination_list = process_destination n.local h.destination_list }

unfoldable pub verdict : ℕ → Node → Header → Verdict
unfolding processed decide_valid is_valid_destination
verdict initial_ttl n h =
    let h' = processed n h in
    decide_valid initial_ttl n h' (is_valid_destination n h'.destination_list)
      (head? h'.destination_list)

unfoldable pub act : Sockets → Header → Verdict → Exec Node Verdict
unfolding forward_message
act env h dropped n = (returned dropped, n)
act env h delivered n = (returned delivered, n)
act env h failed n = (thrown, n)
act env h forwarded n = (forward_message env h >> pure forwarded) n

unfoldable pub handle_forwarding : ℕ → Sockets → Header → Exec Node Verdict
unfolding act verdict
handle_forwarding initial_ttl env h n = act env (processed n h) (verdict initial_ttl n h) n
