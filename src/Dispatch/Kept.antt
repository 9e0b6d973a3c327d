-- ===== src/Dispatch/Kept.antt =====
-- What the handlers of connections and messages leave tidy.
use mathlib.Core.Path.{subst}
use reloadjs.Base.{
  ℕ, zero, suc, ◌≤◌, ◌≡◌, refl, sym, inl, inr, Bool, true, false, not, ◌&&◌, List, [], ◌∷◌, ◌++◌,
  Option, none, some, arith, Text, same, same_iff, head?, drop, length, Bool-cases, Option-cases,
}
use reloadjs.Base.Unique.{Lacks, Unique, Unique-append}
use reloadjs.Transport.Header.{RoutableId, node_id}
use reloadjs.Node.{
  Node, Table, Connection, Body, ping_request, join_request, update_request, send_close, Sockets,
  pure, modify, ◌>>=◌, ◌>>◌,
}
use reloadjs.Node.Keeps.{Keeps, Keeps-bind}
use reloadjs.Node.Tidy.{IsTidy, entry_id, connection_id, remove_connection-IsTidy}
use reloadjs.Node.Connections.{find_connection, get_connection, send_message, remove_connection}
use reloadjs.Peers.{
  link, new_connection, add_connection, after_ping, ping_tick, timed_out, ping_timeout, update_tick,
  leave_body, remove_all_from, remove_all, IceMessage, first_message, close_message, other_object,
  ask_to_join, remember_ap, after_channel, ice_on_message, ice_on_connect,
}
use reloadjs.Routing.Updates.{add_neighbor}
use reloadjs.Routing.Updates.Stable.{send_message-Keeps, add_neighbor-Keeps}
use reloadjs.Routing.Updates.Kept.{IsTidy-Stable}

-- Being tidy is a matter of the tables and the connections.
pub IsTidy-same :
    (n n' : Node) → n'.table ≡ n.table → n'.connections ≡ n.connections → IsTidy n → IsTidy n'
IsTidy-same n n' p q t = record {
  entries = subst (λ (x : Table). Unique entry_id x.rtable) (sym p) t.entries;
  connected = subst (Unique connection_id) (sym q) t.connected;
  few_successors = subst (λ (x : Table). length x.successors ≤ 3) (sym p) t.few_successors;
  few_predecessors = subst (λ (x : Table). length x.predecessors ≤ 3) (sym p) t.few_predecessors;
}

pub modify-Keeps :
    (f : Node → Node) → ((n : Node) → IsTidy n → IsTidy (f n)) → Keeps IsTidy (modify f)
modify-Keeps f k = record { at = k }

pub pure-Keeps : Keeps IsTidy (pure (tt {0}))
pure-Keeps = record { at = λ n t. t }

pub send_body-Keeps :
    (env : Sockets) (s : Option ℕ) (body : Body) (dests : List RoutableId)
    → Keeps IsTidy (send_message env s body dests)
send_body-Keeps env s body dests = send_message-Keeps IsTidy-Stable env s body dests

pub send_only-Keeps :
    (env : Sockets) (s : Option ℕ) (body : Body) (dests : List RoutableId)
    → Keeps IsTidy (send_message env s body dests >> pure (tt {0}))
send_only-Keeps env s body dests =
    Keeps-bind {P = IsTidy} (send_message env s body dests) (λ _. pure tt)
      (send_body-Keeps env s body dests) (λ _. pure-Keeps)

find_connection-none :
    (id : Text) (cs : List Connection) → find_connection id cs ≡ none → Lacks connection_id id cs
unfolding find_connection
find_connection-none id [] h = tt
find_connection-none id (c ∷ cs) h = elim (Bool-cases (same c.id id)) [
  | inl hit ↦ absurd (ground (arith, hit))
  | inr miss ↦
      ((λ e. ground (arith, miss, same_iff c.id id)), find_connection-none id cs (rw miss at h))
]

new_connection-IsTidy :
    (env : Sockets) (id : Text) (socket : ℕ) (cert : Text) (n : Node)
    → find_connection id n.connections ≡ none
    → IsTidy n
    → IsTidy (new_connection env id socket cert n)
unfolding new_connection
new_connection-IsTidy env id socket cert n absent t = record {
  entries = t.entries;
  connected =
      Unique-append connection_id n.connections (link id socket) t.connected
        (find_connection-none id n.connections absent);
  few_successors = t.few_successors;
  few_predecessors = t.few_predecessors;
}

pub add_connection-Keeps :
    (env : Sockets) (id : Text) (socket : ℕ) (cert : Text) (is_ice : Bool)
    → Keeps IsTidy (add_connection env id socket cert is_ice)
add_connection-Keeps env id socket cert is_ice = record {
  at = λ n t. elim (Option-cases (find_connection id n.connections)) [
    | inl absent ↦
        unfold add_connection in
        rw (absent, add_connection) (new_connection-IsTidy env id socket cert n absent t)
    | inr (c, found) ↦ unfold add_connection in rw (found, add_connection) t
  ];
}

after_ping-Keeps : (id : Text) (sent : Bool) → Keeps IsTidy (after_ping id sent)
unfolding after_ping
after_ping-Keeps id true = record { at = λ n t. t }
after_ping-Keeps id false = record { at = λ n t. IsTidy-same n _ refl refl t }

pub ping_tick-Keeps :
    (env : Sockets) (id : Text) (socket : ℕ) → Keeps IsTidy (ping_tick env id socket)
unfolding ping_tick
ping_tick-Keeps env id socket = record {
  at = λ n t. ground (
    arith,
    (Keeps-bind {P = IsTidy} (send_message env (some socket) ping_request (node_id id ∷ []))
          (after_ping id) (send_body-Keeps env (some socket) ping_request (node_id id ∷ []))
          (after_ping-Keeps id)).at
        n t,
    t,
  );
}

pub ping_timeout-IsTidy :
    (id : Text) (socket : ℕ) (n : Node) → IsTidy n → IsTidy (ping_timeout id socket n)
unfolding ping_timeout
ping_timeout-IsTidy id socket n t = elim (Bool-cases (timed_out id n.pending_ping)) [
  | inl late ↦ rw late (
      IsTidy-same (remove_connection (some socket) n) _ refl refl
        (remove_connection-IsTidy (some socket) n t))
  | inr waiting ↦ rw waiting (IsTidy-same n _ refl refl t)
]

pub update_tick-Keeps :
    (env : Sockets) (id : Text) (socket : ℕ) → Keeps IsTidy (update_tick env id socket)
unfolding update_tick
update_tick-Keeps env id socket = send_body-Keeps env (some socket) update_request (node_id id ∷ [])

remove_all_from-Keeps : (env : Sockets) (rounds i : ℕ) → Keeps IsTidy (remove_all_from env rounds i)
unfolding remove_all_from
remove_all_from-Keeps env zero i = record { at = λ n t. t }
remove_all_from-Keeps env (suc rounds) i = record {
  at = λ n t. elim (Option-cases (head? (drop i n.connections))) [
    | inl over ↦ rw (over, remove_all_from) t
    | inr (c, more) ↦
        rw (more, remove_all_from)
          ((Keeps-bind {P = IsTidy}
              (send_message env (some c.socket) (leave_body n c.id) (node_id c.id ∷ []))
              (λ _. remove_all_from env rounds (suc i))
              (send_body-Keeps env (some c.socket) (leave_body n c.id) (node_id c.id ∷ []))
              (λ _. remove_all_from-Keeps env rounds (suc i))).at
            n t)
  ];
}

pub remove_all-Keeps : (env : Sockets) → Keeps IsTidy (remove_all env)
unfolding remove_all
remove_all-Keeps env = record {
  at = λ n t. (remove_all_from-Keeps env (length n.connections) 0).at n t;
}

ask_to_join-Keeps : (env : Sockets) (s : Option ℕ) (id : Text) → Keeps IsTidy (ask_to_join env s id)
ask_to_join-Keeps env s id = record {
  at = λ n t. elim (Bool-cases (not n.joined && not n.topology_initiator)) [
    | inl asks ↦
        unfold ask_to_join in
        rw asks ((send_only-Keeps env s (join_request n.local) (node_id id ∷ [])).at n t)
    | inr silent ↦ unfold ask_to_join in rw silent t
  ];
}

after_channel-Keeps :
    (env : Sockets) (id : Text) (channel : ℕ) (c : Option Connection)
    → Keeps IsTidy (after_channel env id channel c)
unfolding after_channel
after_channel-Keeps env id channel (some c) = record {
  at = λ n t. (ask_to_join-Keeps env (some channel) id).at n t;
}
after_channel-Keeps env id channel none = record {
  at = λ n t. elim (Bool-cases (env.writable channel)) [
    | inl ok ↦ rw ok (
        (ask_to_join-Keeps env (get_connection n id) id).at
          (record n { done = n.done ++ send_close channel ∷ [] })
          (IsTidy-same n (record n { done = n.done ++ send_close channel ∷ [] }) refl refl t))
    | inr failed ↦ rw failed t
  ];
}

remember_ap-IsTidy : (id : Text) (n : Node) → IsTidy n → IsTidy (remember_ap id n)
unfolding remember_ap
remember_ap-IsTidy id n t = ground (arith, t, IsTidy-same n (record n { ap = some id }) refl refl t)

pub ice_on_message-Keeps :
    (env : Sockets) (now channel : ℕ) (sdp : Text) (m : IceMessage)
    → Keeps IsTidy (ice_on_message env now channel sdp m)
unfolding ice_on_message
ice_on_message-Keeps env now channel sdp close_message = pure-Keeps
ice_on_message-Keeps env now channel sdp other_object = pure-Keeps
ice_on_message-Keeps env now channel sdp (first_message [] cert) = pure-Keeps
ice_on_message-Keeps env now channel sdp (first_message (c ∷ cs) cert) =
    let id = c ∷ cs in
    Keeps-bind {P = IsTidy}
      (add_neighbor id (some sdp) now
        >> (add_connection env id channel cert true >>= after_channel env id channel))
      (λ _. modify (remember_ap id))
      (Keeps-bind {P = IsTidy} (add_neighbor id (some sdp) now)
        (λ _. add_connection env id channel cert true >>= after_channel env id channel)
        (add_neighbor-Keeps IsTidy-Stable id (some sdp) now tt)
        (λ _.
          Keeps-bind {P = IsTidy} (add_connection env id channel cert true)
            (after_channel env id channel) (add_connection-Keeps env id channel cert true)
            (after_channel-Keeps env id channel)))
      (λ _. modify-Keeps (remember_ap id) (remember_ap-IsTidy id))

pub ice_on_connect-Keeps : (env : Sockets) (channel : ℕ) → Keeps IsTidy (ice_on_connect env channel)
unfolding ice_on_connect
ice_on_connect-Keeps env channel = record {
  at = λ n t. elim (Bool-cases (env.writable channel)) [
    | inl ok ↦ rw ok (IsTidy-same n _ refl refl t)
    | inr failed ↦ rw failed t
  ];
}
