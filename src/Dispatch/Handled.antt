-- ===== src/Dispatch/Handled.antt =====
-- Every handler of a message leaves the tables tidy.
use reloadjs.Base.{
  ℕ, refl, inl, inr, Bool, true, false, List, [], ◌∷◌, none, some, Text, has, delete, add, head?,
  Bool-cases, Option-cases,
}
use reloadjs.Transport.Header.{RoutableId, node_id, id_text, Header}
use reloadjs.Node.{
  Node, join_answer, ping_answer, update_answer, attached, attach_request, Body, Sockets, modify,
  ◌>>=◌, ◌>>◌,
}
use reloadjs.Node.Keeps.{Keeps, Keeps-bind}
use reloadjs.Node.Connections.{get_connection, remove_connection}
use reloadjs.Node.Tidy.{IsTidy, remove_connection-IsTidy}
use reloadjs.Peers.{add_connection}
use reloadjs.Routing.Updates.{add_neighbor}
use reloadjs.Routing.Updates.Stable.{add_neighbor-Keeps}
use reloadjs.Routing.Updates.Kept.{IsTidy-Stable}
use reloadjs.Routing.States.{set_node_state}
use reloadjs.Routing.States.Progress.{set_node_state-IsTidy}
use reloadjs.Routing.Merge.Known.{merge-IsTidy}
use reloadjs.Routing.Leave.{leave}
use reloadjs.Routing.Leave.Absence.{leave-IsTidy}
use reloadjs.Forwarding.Kept.{handle_forwarding-Keeps}
use reloadjs.Forwarding.{Verdict, dropped, delivered, forwarded, failed, handle_forwarding}
use reloadjs.Dispatch.{
  Received, attach_asked, join_asked, update_asked, attach_answered, join_answered, leave_answered,
  ping_answered, leave_asked, ping_asked, update_answered, other_received, Incoming, answer_attach,
  has_request, handle_attach_request, process_attach_answer, send_request, send_back, send_tables,
  send_requested, completes_joining, attach_node, handle_message_type, dispatch, handle_message,
  remember_ips,
}
use reloadjs.Dispatch.Kept.{
  IsTidy-same, modify-Keeps, pure-Keeps, send_body-Keeps, send_only-Keeps, add_connection-Keeps,
}

answer_attach-IsTidy : (t : ℕ) (n : Node) → IsTidy n → IsTidy (answer_attach t n)
unfolding answer_attach
answer_attach-IsTidy t n k = elim (Bool-cases (has_request t n.pending_requests)) [
  | inl own ↦ rw own k
  | inr other ↦ rw other (IsTidy-same n _ refl refl k)
]

handle_attach_request-Keeps : (h : Header) (b : Bool) → Keeps IsTidy (handle_attach_request h b)
unfolding handle_attach_request
handle_attach_request-Keeps h false = record { at = λ n t. answer_attach-IsTidy h.transaction n t }
handle_attach_request-Keeps h true = record {
  at = λ n t. elim (Option-cases (head? h.via_list)) [
    | inl empty ↦ rw (empty, handle_attach_request) t
    | inr (r, first) ↦
        rw (first, handle_attach_request)
          (answer_attach-IsTidy h.transaction
            (record n { update_after_connection = add (id_text r) n.update_after_connection })
            (IsTidy-same n _ refl refl t))
  ];
}

process_attach_answer-IsTidy : (t : ℕ) (n : Node) → IsTidy n → IsTidy (process_attach_answer t n)
unfolding process_attach_answer
process_attach_answer-IsTidy t n k = elim (Bool-cases (has_request t n.pending_requests)) [
  | inl own ↦ rw own (IsTidy-same n _ refl refl k)
  | inr other ↦ rw other k
]

pub send_request-IsTidy :
    (env : Sockets) (socket t : ℕ) (sdp : Text) (b : Bool) (dests : List RoutableId) (n : Node)
    → IsTidy n
    → IsTidy (send_request env socket t sdp b dests n).1
unfolding send_request
send_request-IsTidy env socket t sdp b dests n k =
    (send_body-Keeps env (some socket) (attach_request sdp b) dests).at _
      (IsTidy-same n _ refl refl k)

send_back-Keeps :
    (env : Sockets) (dist_id : Text) (body : Body) → Keeps IsTidy (send_back env dist_id body)
unfolding send_back
send_back-Keeps env dist_id body = record {
  at = λ n t. (send_only-Keeps env (get_connection n dist_id) body (node_id dist_id ∷ [])).at n t;
}

send_tables-Keeps : (env : Sockets) (dist_id : Text) → Keeps IsTidy (send_tables env dist_id)
unfolding send_tables
send_tables-Keeps env dist_id = record {
  at = λ n t.
      (send_back-Keeps env dist_id (update_answer n.table.predecessors n.table.successors)).at n t;
}

send_requested-Keeps : (env : Sockets) (dist_id : Text) → Keeps IsTidy (send_requested env dist_id)
unfolding send_requested
send_requested-Keeps env dist_id = record {
  at = λ n t. elim (Bool-cases (has dist_id n.update_after_connection)) [
    | inl asked ↦
        rw (asked, send_requested)
          ((Keeps-bind {P = IsTidy} (send_tables env dist_id)
              (λ _. modify (λ m. record m {
                update_after_connection = delete dist_id m.update_after_connection;
              }))
              (send_tables-Keeps env dist_id)
              (λ _. modify-Keeps _ (λ m q. IsTidy-same m _ refl refl q))).at
            n t)
    | inr silent ↦ rw (silent, send_requested) t
  ];
}

attach_node-Keeps :
    (env : Sockets) (now : ℕ) (dist_id : Text) → Keeps IsTidy (attach_node env now dist_id)
unfolding attach_node
attach_node-Keeps env now dist_id =
    Keeps-bind {P = IsTidy} (add_neighbor dist_id none now)
      (λ _. set_node_state env now dist_id attached)
      (add_neighbor-Keeps IsTidy-Stable dist_id none now tt)
      (λ _. record { at = set_node_state-IsTidy env now dist_id attached })

-- Every handler of a message type leaves the tables tidy, whatever fails on the way.
pub handle_message_type-Keeps :
    (env : Sockets) (now : ℕ) (h : Header) (dist_id : Text) (content : Received)
    → Keeps IsTidy (handle_message_type env now h dist_id content)
unfolding handle_message_type
handle_message_type-Keeps env now h dist_id (attach_asked b) = handle_attach_request-Keeps h b
handle_message_type-Keeps env now h dist_id join_asked =
    Keeps-bind {P = IsTidy} (send_back env dist_id join_answer >> send_requested env dist_id)
      (λ _. attach_node env now dist_id)
      (Keeps-bind {P = IsTidy} (send_back env dist_id join_answer) (λ _. send_requested env dist_id)
        (send_back-Keeps env dist_id join_answer) (λ _. send_requested-Keeps env dist_id))
      (λ _. attach_node-Keeps env now dist_id)
handle_message_type-Keeps env now h dist_id (leave_asked id) =
    Keeps-bind {P = IsTidy} (leave env now id)
      (λ _. modify (λ n. remove_connection (get_connection n dist_id) n))
      (record { at = leave-IsTidy env now id })
      (λ _. modify-Keeps _ (λ n t. remove_connection-IsTidy (get_connection n dist_id) n t))
handle_message_type-Keeps env now h dist_id update_asked = send_tables-Keeps env dist_id
handle_message_type-Keeps env now h dist_id (ping_asked ips port) =
    Keeps-bind {P = IsTidy} (modify (λ n. record n { cache = remember_ips port ips n.cache }))
      (λ _. send_back env dist_id ping_answer) (modify-Keeps _ (λ n t. IsTidy-same n _ refl refl t))
      (λ _. send_back-Keeps env dist_id ping_answer)
handle_message_type-Keeps env now h dist_id attach_answered =
    modify-Keeps (process_attach_answer h.transaction) (process_attach_answer-IsTidy h.transaction)
handle_message_type-Keeps env now h dist_id join_answered =
    Keeps-bind {P = IsTidy} (attach_node env now dist_id)
      (λ _. modify (λ n. record n { topology_joined = true })) (attach_node-Keeps env now dist_id)
      (λ _. modify-Keeps _ (λ n t. IsTidy-same n _ refl refl t))
handle_message_type-Keeps env now h dist_id leave_answered = pure-Keeps
handle_message_type-Keeps env now h dist_id (update_answered u) = record {
  at = λ n t. elim (Bool-cases (completes_joining dist_id n)) [
    | inl joins ↦
        rw (joins, handle_message_type)
          (merge-IsTidy env now dist_id u true false (record n { joined = true })
            (IsTidy-same n _ refl refl t))
    | inr other ↦ rw (other, handle_message_type) (merge-IsTidy env now dist_id u false false n t)
  ];
}
handle_message_type-Keeps env now h dist_id ping_answered =
    modify-Keeps _ (λ n t. IsTidy-same n _ refl refl t)
handle_message_type-Keeps env now h dist_id other_received = pure-Keeps

dispatch-Keeps :
    (env : Sockets) (now : ℕ) (m : Incoming) (v : Verdict) → Keeps IsTidy (dispatch env now m v)
unfolding dispatch
dispatch-Keeps env now m delivered = handle_message_type-Keeps env now m.header m.dist_id m.content
dispatch-Keeps env now m dropped = pure-Keeps
dispatch-Keeps env now m forwarded = pure-Keeps
dispatch-Keeps env now m failed = pure-Keeps

pub handle_message-IsTidy :
    (initial_ttl : ℕ) (env : Sockets) (now socket : ℕ) (m : Incoming) (n : Node)
    → IsTidy n
    → IsTidy (handle_message initial_ttl env now socket m n).1
handle_message-IsTidy initial_ttl env now socket m n t = elim (Bool-cases m.signed) [
  | inl ok ↦
      unfold handle_message in
      rw (ok, handle_message)
        ((Keeps-bind {P = IsTidy} (add_connection env m.dist_id socket m.certificate false)
            (λ _. handle_forwarding initial_ttl env m.header >>= dispatch env now m)
            (add_connection-Keeps env m.dist_id socket m.certificate false)
            (λ _.
              Keeps-bind {P = IsTidy} (handle_forwarding initial_ttl env m.header)
                (dispatch env now m) (handle_forwarding-Keeps initial_ttl env m.header)
                (dispatch-Keeps env now m))).at
          n t)
  | inr bad ↦ unfold handle_message in rw (bad, handle_message) t
]
