-- ===== src/Dispatch.antt =====
-- Core/MessageDispatcher.js, Services/AttachService.js, `handleMessage` of
-- Topology/MessageHandler.js and of Transport/stack/ReloadStack.js: what a peer does with a message
-- that comes in. The id in the sender's certificate and the result of the check of the signature,
-- which the X.509 library finds, are parts of what comes in, and so is the time of day.
pub mod Cache
pub mod Kept
pub mod Handled
pub mod Reach
pub mod Attaching
pub mod Join
use reloadjs.Base.{
  ℕ, ◌==◌, Bool, true, false, not, ◌&&◌, ◌||◌, List, [], ◌∷◌, ◌++◌, Option, none, some,
  if◌then◌else◌, head?, keep, take, Text, codes, same, has, add, delete,
}
use reloadjs.Transport.Header.{RoutableId, node_id, id_text, Header}
use reloadjs.Node.{
  Node, Connection, Peer, attached, Effect, ice_answer, ice_connect, join_answer, update_answer,
  ping_answer, attach_request, Body, Sockets, Exec, Outcome, returned, thrown, pure, modify, ◌>>=◌,
  ◌>>◌,
}
use reloadjs.Node.Connections.{get_connection, remove_connection, send_message}
use reloadjs.Peers.{add_peer, reset_ping, add_connection}
use reloadjs.Routing.Table.{is_wait_for_join_ans}
use reloadjs.Routing.Updates.{add_neighbor}
use reloadjs.Routing.States.{set_node_state}
use reloadjs.Routing.Merge.{Update, merge}
use reloadjs.Routing.Leave.{leave}
use reloadjs.Forwarding.{Verdict, dropped, delivered, forwarded, failed, handle_forwarding}

-- The content of a message that comes in, with what its handler reads.
pub data Received : Type 0 where
  attach_asked : Bool → Received
  join_asked update_asked attach_answered join_answered leave_answered ping_answered : Received
  leave_asked : Text → Received
  ping_asked : List Text → ℕ → Received
  update_answered : Update → Received
  other_received : Received

pub record Incoming : Type 0 where
  pub header : Header
  pub dist_id : Text
  pub certificate : Text
  pub signed : Bool
  pub content : Received

unfoldable pub has_request : ℕ → List ℕ → Bool
has_request t [] = false
has_request t (x ∷ xs) = x == t || has_request t xs

-- The answer is computed unless the transaction is one of the own requests.
unfoldable pub answer_attach : ℕ → Node → Node
unfolding has_request
answer_attach t n =
    if has_request t n.pending_requests then n else record n { done = n.done ++ ice_answer t ∷ [] }

-- `handleAttachRequest`; it reads the first entry of the via list where an update is asked for.
unfoldable pub handle_attach_request : Header → Bool → Exec Node Unit
unfolding answer_attach
handle_attach_request h false n = (returned tt, answer_attach h.transaction n)
handle_attach_request h true n = elim (head? h.via_list) [
  | none ↦ (thrown, n)
  | some first ↦ (
    returned tt,
    answer_attach h.transaction
        (record n { update_after_connection = add (id_text first) n.update_after_connection }),
  )
]

-- `processAttachAnswer`.
unfoldable pub process_attach_answer : ℕ → Node → Node
unfolding has_request
process_attach_answer t n =
    if has_request t n.pending_requests
    then record n {
      done = n.done ++ ice_connect t ∷ [];
      pending_requests = keep (λ x. not (x == t)) n.pending_requests;
    }
    else n

-- `sendRequest`, when the candidates of an attach request are there.
unfoldable pub send_request : Sockets → ℕ → ℕ → Text → Bool → List RoutableId → Exec Node Bool
unfolding has_request
send_request env socket t sdp send_update dests n =
    send_message env (some socket) (attach_request sdp send_update) dests (record n {
      pending_requests =
          if has_request t n.pending_requests
          then n.pending_requests
          else n.pending_requests ++ t ∷ [];
    })

-- An answer to the sender over its connection.
unfoldable pub send_back : Sockets → Text → Body → Exec Node Unit
send_back env dist_id body n =
    (send_message env (get_connection n dist_id) body (node_id dist_id ∷ []) >> pure tt) n

unfoldable pub send_tables : Sockets → Text → Exec Node Unit
unfolding send_back
send_tables env dist_id n =
    send_back env dist_id (update_answer n.table.predecessors n.table.successors) n

-- The update for a node that asked for one when it was attached.
unfoldable pub send_requested : Sockets → Text → Exec Node Unit
unfolding send_tables
send_requested env dist_id n =
    if has dist_id n.update_after_connection
    then (send_tables env dist_id
          >> modify (λ n. record n {
            update_after_connection = delete dist_id n.update_after_connection;
          }))
        n
    else (returned tt, n)

unfoldable pub known_address : Text → List Peer → Bool
known_address ip [] = false
known_address ip (p ∷ ps) = same p.address ip || known_address ip ps

-- The loop over the addresses of a ping; addresses of the loopback network are left out.
unfoldable pub remember_ips : ℕ → List Text → List Peer → List Peer
unfolding known_address
remember_ips port [] cache = cache
remember_ips port (ip ∷ ips) cache = remember_ips port ips (
    if known_address ip cache || same (take 4 ip) (codes "127.")
    then cache
    else add_peer (record { address = ip; port = port }) cache)

-- An update answer of the admitting peer completes the joining.
unfoldable pub completes_joining : Text → Node → Bool
completes_joining dist_id n = elim n.ap [
  | none ↦ false
  | some ap ↦
      not (same ap [])
      && same dist_id ap
      && not n.is_overlay_initiator
      && not n.joined
      && not (is_wait_for_join_ans n.table dist_id)
]

-- A node that answers or asks to join becomes a neighbor that is attached.
unfoldable pub attach_node : Sockets → ℕ → Text → Exec Node Unit
attach_node env now dist_id =
    add_neighbor dist_id none now >> set_node_state env now dist_id attached

-- `handleMessageType`.
unfoldable pub handle_message_type : Sockets → ℕ → Header → Text → Received → Exec Node Unit
unfolding handle_attach_request send_back send_requested attach_node send_tables remember_ips
    process_attach_answer completes_joining
handle_message_type env now h dist_id (attach_asked send_update) =
    handle_attach_request h send_update
handle_message_type env now h dist_id join_asked =
    send_back env dist_id join_answer >> send_requested env dist_id >> attach_node env now dist_id
handle_message_type env now h dist_id (leave_asked id) =
    leave env now id >> modify (λ n. remove_connection (get_connection n dist_id) n)
handle_message_type env now h dist_id update_asked = send_tables env dist_id
handle_message_type env now h dist_id (ping_asked ips port) =
    modify (λ n. record n { cache = remember_ips port ips n.cache })
    >> send_back env dist_id ping_answer
handle_message_type env now h dist_id attach_answered = modify (process_attach_answer h.transaction)
handle_message_type env now h dist_id join_answered =
    attach_node env now dist_id >> modify (λ n. record n { topology_joined = true })
handle_message_type env now h dist_id leave_answered = pure tt
handle_message_type env now h dist_id (update_answered u) = λ n.
    if completes_joining dist_id n
    then merge env now dist_id u true false (record n { joined = true })
    else merge env now dist_id u false false n
handle_message_type env now h dist_id ping_answered =
    modify (λ n. record n { pending_ping = reset_ping dist_id n.pending_ping })
handle_message_type env now h dist_id other_received = pure tt

-- The part of `ReloadStack.handleMessage` behind `handleForwarding`.
unfoldable pub dispatch : Sockets → ℕ → Incoming → Verdict → Exec Node Unit
unfolding handle_message_type
dispatch env now m delivered = handle_message_type env now m.header m.dist_id m.content
dispatch env now m dropped = pure tt
dispatch env now m forwarded = pure tt
dispatch env now m failed = pure tt

-- `MessageHandler.handleMessage` of a message that is decoded; one with a bad signature is dropped.
unfoldable pub handle_message : ℕ → Sockets → ℕ → ℕ → Incoming → Exec Node Unit
unfolding dispatch
handle_message initial_ttl env now socket m n =
    if m.signed
    then (add_connection env m.dist_id socket m.certificate false
          >> (handle_forwarding initial_ttl env m.header >>= dispatch env now m))
        n
    else (returned tt, n)
