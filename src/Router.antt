-- ===== src/Router.antt =====
-- `sendMessage`, `transmit`, `sendAnswer` and `sendError` of Transport/MessageRouter.js: messages of
-- the peer's own and its answers.
pub mod Kept
pub mod Sent
use reloadjs.Base.{
  ℕ, Bool, true, false, List, [], ◌∷◌, Option, none, some, if◌then◌else◌, Text, object_text, same,
}
use reloadjs.Transport.Header.{RoutableId, id_text, Header, Settings, new_response_message}
use reloadjs.Node.{Node, Body, Sockets, Exec, Outcome, returned, thrown, pure, attempt, ◌>>=◌, ◌>>◌}
use reloadjs.Node.Connections.{get_connection, is_neighbor, send_message}
use reloadjs.Routing.Hops.{Hop, node, plain, nothing, get_next_hops}

-- The id under which the connection of a hop is looked up: an empty one counts as missing, and the
-- hop is wrapped into another `NodeID`.
unfoldable pub lookup_id : Text → Text
lookup_id id = if same id [] then object_text else id

unfoldable pub transmit_over : Sockets → Body → List RoutableId → Option ℕ → Exec Node Unit
transmit_over env body dests none n = (thrown, n)
transmit_over env body dests (some s) n = (send_message env (some s) body dests >> pure tt) n

unfoldable pub transmit_to : Sockets → Body → List RoutableId → Hop → Exec Node Unit
unfolding transmit_over lookup_id
transmit_to env body dests (node id) n =
    transmit_over env body dests (get_connection n (lookup_id id)) n
transmit_to env body dests (plain text) n = transmit_over env body dests (get_connection n text) n
transmit_to env body dests nothing n = (thrown, n)

-- `transmit`; what it throws is logged.
unfoldable pub transmit : Sockets → Body → List RoutableId → Hop → Exec Node Unit
unfolding transmit_to
transmit env body dests hop n = attempt (transmit_to env body dests hop) n

unfoldable pub transmit_all : Sockets → Body → List RoutableId → List Hop → Exec Node Unit
unfolding transmit
transmit_all env body dests [] n = (returned tt, n)
transmit_all env body dests (hop ∷ hops) n =
    (transmit env body dests hop >> transmit_all env body dests hops) n

-- `getNextHops`: a connected destination is its own hop.
unfoldable pub router_hops : Node → RoutableId → Outcome (List Hop)
router_hops n dest =
    if is_neighbor n (id_text dest)
    then returned (node (id_text dest) ∷ [])
    else get_next_hops n (id_text dest)

unfoldable pub transmit_hops :
    Sockets → Body → List RoutableId → Outcome (List Hop) → Exec Node Unit
unfolding transmit_all
transmit_hops env body dests thrown n = (thrown, n)
transmit_hops env body dests (returned hops) n = transmit_all env body dests hops n

-- `sendMessage` of a content to a destination list; without a destination it throws.
unfoldable pub route : Sockets → Body → List RoutableId → Exec Node Unit
unfolding transmit_hops router_hops
route env body [] n = (thrown, n)
route env body (dest ∷ dests) n = transmit_hops env body (dest ∷ dests) (router_hops n dest) n

-- `sendAnswer`.
unfoldable pub send_answer : Sockets → Settings → Header → Body → Exec Node Unit
unfolding route
send_answer env conf h body n =
    route env body (new_response_message conf n.local h).destination_list n

-- The class Error of JavaScript has no method `serialize`, so the write to each socket throws.
unfoldable pub unwritable : Sockets → Sockets
unwritable env = record env { writable = λ s. false }

-- `sendError`, for what the error would hold.
unfoldable pub send_error : Sockets → Settings → Header → Body → Exec Node Unit
unfolding send_answer unwritable
send_error env conf h error n = send_answer (unwritable env) conf h error n
