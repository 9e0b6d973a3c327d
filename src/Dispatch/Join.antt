-- ===== src/Dispatch/Join.antt =====
-- How a peer joins: the join request, its answer, and the update behind it.
use reloadjs.Base.{
  ℕ, ◌≡◌, ◌≢◌, refl, Bool, true, false, List, [], ◌∷◌, ◌++◌, append_assoc, append-nil, Option, none,
  some, if◌then◌else◌, arith, Text, object_text, same_iff, same_refl, has, delete, Bool-cases, inl,
  inr,
}
use reloadjs.Transport.Header.{node_id, Header}
use reloadjs.Node.{Node, Sockets, Effect, write, join_answer, update_answer, Body, returned}
use reloadjs.Node.Connections.{get_connection, send_message, send, remove_connection, remove_found}
use reloadjs.Routing.Table.{is_attached, is_wait_for_join_ans}
use reloadjs.Routing.Updates.Stable.{Stable, send_update_to_all_neighbors-Keeps}
use reloadjs.Routing.Merge.{Update, merged_table, merge}
use reloadjs.Dispatch.{
  join_asked, join_answered, update_answered, send_back, send_tables, send_requested,
  handle_message_type, completes_joining,
}
use reloadjs.Dispatch.Attaching.{
  attached_node, attach_node_lem, is_attached-attached_node, is_wait_for_join_ans-attached_node,
}

-- A node that is not yet a neighbor.
pub record IsNewcomer (id : Text) (n : Node) : Type 0 where
  pub proper : id ≢ object_text
  pub no_fingers : n.table.ftable ≡ []
  pub no_predecessor : has id n.table.predecessors ≡ false
  pub no_successor : has id n.table.successors ≡ false

send_back_lem :
    (env : Sockets) (id : Text) (body : Body) (socket : ℕ) (n : Node)
    → get_connection n id ≡ some socket
    → env.writable socket ≡ true
    → send_back env id body n
      ≡ (returned tt, record n { done = n.done ++ write socket body (node_id id ∷ []) ∷ [] })
send_back_lem env id body socket n linked ok =
    unfold send_back send_message send in rw (linked, ok, send_message, send) refl

-- The update that a node is sent if it asked for one when it was attached.
abbrev pub requested : ℕ → Text → Node → List Effect
requested socket id n =
    if has id n.update_after_connection
    then write socket (update_answer n.table.predecessors n.table.successors) (node_id id ∷ []) ∷ []
    else []

-- The state behind `send_requested`.
after_requested : ℕ → Text → Node → Node
after_requested socket id n = record n {
  done = n.done ++ requested socket id n;
  update_after_connection =
      if has id n.update_after_connection
      then delete id n.update_after_connection
      else n.update_after_connection;
}

send_requested_lem :
    (env : Sockets) (id : Text) (socket : ℕ) (n : Node)
    → get_connection n id ≡ some socket
    → env.writable socket ≡ true
    → send_requested env id n ≡ (returned tt, after_requested socket id n)
send_requested_lem env id socket n linked ok =
    elim (Bool-cases (has id n.update_after_connection)) [
      | inl asked ↦
          unfold send_requested send_tables after_requested in
          rw
            (
              asked,
              send_back_lem env id (update_answer n.table.predecessors n.table.successors) socket n
                  linked ok,
            )
            refl
      | inr silent ↦ unfold send_requested after_requested in rw (silent, append-nil n.done) refl
    ]

-- The state behind a join request.
join_asked_lem :
    (env : Sockets) (now : ℕ) (h : Header) (id : Text) (socket : ℕ) (n : Node)
    → IsNewcomer id n
    → get_connection n id ≡ some socket
    → env.writable socket ≡ true
    → handle_message_type env now h id join_asked n ≡ (
      returned tt,
      attached_node now id (
          after_requested socket id
            (record n { done = n.done ++ write socket join_answer (node_id id ∷ []) ∷ [] })),
    )
join_asked_lem env now h id socket n k linked ok =
    unfold handle_message_type in
    rw
      (
        send_back_lem env id join_answer socket n linked ok,
        send_requested_lem env id socket answered (unfold get_connection in linked) ok,
      )
      (unfold after_requested in
        attach_node_lem env now id (after_requested socket id answered) k.proper k.no_fingers
          k.no_predecessor k.no_successor)
  where
    answered : Node
    answered = record n { done = n.done ++ write socket join_answer (node_id id ∷ []) ∷ [] }

-- The state behind the answer to a join request.
joined_node : ℕ → Text → Node → Node
joined_node now id n = record (attached_node now id n) { topology_joined = true }

join_answered_lem :
    (env : Sockets) (now : ℕ) (h : Header) (id : Text) (n : Node)
    → IsNewcomer id n
    → handle_message_type env now h id join_answered n ≡ (returned tt, joined_node now id n)
unfolding joined_node
join_answered_lem env now h id n k =
    unfold handle_message_type in
    rw (attach_node_lem env now id n k.proper k.no_fingers k.no_predecessor k.no_successor) refl

-- A peer that has no place in the overlay yet, and whose admitting peer is the node.
pub record IsJoining (id : Text) (n : Node) : Type 0 where
  pub named : id ≢ []
  pub admitting : n.ap ≡ some id
  pub no_initiator : n.is_overlay_initiator ≡ false
  pub not_joined : n.joined ≡ false
  pub silent : is_wait_for_join_ans n.table id ≡ false

completes_joining-joined_node :
    (now : ℕ) (id : Text) (n : Node)
    → id ≢ object_text
    → IsJoining id n
    → completes_joining id (joined_node now id n) ≡ true
completes_joining-joined_node now id n proper k =
    unfold completes_joining in
    rw (admitted, completes_joining)
      (ground (arith, same_iff id [], k.named, same_refl id, no_initiator, not_joined, silent))
  where
    admitted : (joined_node now id n).ap ≡ some id
    admitted = unfold joined_node attached_node in k.admitting

    no_initiator : (joined_node now id n).is_overlay_initiator ≡ false
    no_initiator = unfold joined_node attached_node in k.no_initiator

    not_joined : (joined_node now id n).joined ≡ false
    not_joined = unfold joined_node attached_node in k.not_joined

    silent : is_wait_for_join_ans (joined_node now id n).table id ≡ false
    silent = unfold joined_node in is_wait_for_join_ans-attached_node now id n proper k.silent

-- What the updates to the neighbors leave alone.
abbrev HasJoined : Node → Type 0
HasJoined n = (n.joined ≡ true) × (n.topology_joined ≡ true)

removed-HasJoined : (s : Option ℕ) (n : Node) → HasJoined n → HasJoined (remove_connection s n)
unfolding remove_connection remove_found
removed-HasJoined none n h = h
removed-HasJoined (some s) n h = ground (arith, h.0, h.1)

HasJoined-Stable : Stable HasJoined (λ (x : Text). Unit {0})
HasJoined-Stable = record {
  written = λ n d h. h;
  removed = removed-HasJoined;
  added = λ id sdp now n okay h. h;
  known = λ id n h k. tt;
}

merge-HasJoined :
    (env : Sockets) (now : ℕ) (id : Text) (u : Update) (force no_update : Bool) (n : Node)
    → HasJoined n
    → HasJoined (merge env now id u force no_update n).1
unfolding merge
merge-HasJoined env now id u force no_update n h = ground (
  arith,
  h.0,
  h.1,
  (send_update_to_all_neighbors-Keeps HasJoined-Stable env now).at
      (record n { table = merged_table n id u }) h,
)

update_answered-HasJoined :
    (env : Sockets) (now : ℕ) (h : Header) (id : Text) (u : Update) (n : Node)
    → completes_joining id n ≡ true
    → n.topology_joined ≡ true
    → HasJoined (handle_message_type env now h id (update_answered u) n).1
update_answered-HasJoined env now h id u n completes accepted =
    unfold handle_message_type in
    rw (completes, handle_message_type)
      (merge-HasJoined env now id u true false (record n { joined = true }) (refl, accepted))

-- A peer that is connected to the overlay's node `id` asks it to join, and neither has the other as
-- a neighbor. The node writes the join answer to the peer's connection, and behind it an update with
-- its neighbors if the peer has asked for one, and nothing else; then it counts the peer as attached.
-- The peer counts the node as attached when the join answer comes, and when an update comes from the
-- node, its admitting peer, it has joined, whatever becomes of its own updates.
pub join_round :
    (env env' : Sockets) (now now' now'' : ℕ) (h h' h'' : Header) (id peer : Text) (socket : ℕ)
    (u : Update) (n n' : Node)
    → IsNewcomer peer n
    → get_connection n peer ≡ some socket
    → env.writable socket ≡ true
    → IsNewcomer id n'
    → IsJoining id n'
    → let asked = handle_message_type env now h peer join_asked n in
      let accepted = handle_message_type env' now' h' id join_answered n' in
      let updated = handle_message_type env' now'' h'' id (update_answered u) accepted.1 in
      (asked.0 ≡ returned tt)
      × (asked.1.done
          ≡ n.done ++ (write socket join_answer (node_id peer ∷ []) ∷ requested socket peer n))
      × (is_attached asked.1.table peer ≡ true)
      × (accepted.0 ≡ returned tt)
      × (is_attached accepted.1.table id ≡ true)
      × (updated.1.joined ≡ true)
      × (updated.1.topology_joined ≡ true)
join_round env env' now now' now'' h h' h'' id peer socket u n n' new linked ok new' joining =
    rw
      (
        join_asked_lem env now h peer socket n new linked ok,
        join_answered_lem env' now' h' id n' new',
      )
      (
        refl,
        unfold attached_node after_requested in
            append_assoc n.done (write socket join_answer (node_id peer ∷ []) ∷ [])
              (requested socket peer n),
        is_attached-attached_node now peer _ new.proper,
        refl,
        unfold joined_node in is_attached-attached_node now' id n' new'.proper,
        (update_answered-HasJoined env' now'' h'' id u (joined_node now' id n')
            (completes_joining-joined_node now' id n' new'.proper joining)
            (unfold joined_node in refl)).0,
        (update_answered-HasJoined env' now'' h'' id u (joined_node now' id n')
            (completes_joining-joined_node now' id n' new'.proper joining)
            (unfold joined_node in refl)).1,
      )
