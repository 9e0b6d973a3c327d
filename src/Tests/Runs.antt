-- ===== src/Tests/Runs.antt =====
-- Handlers and timers.
use reloadjs.Base.{◌≡◌, refl, [], ◌∷◌, arith, same}
use reloadjs.Transport.Header.{node_id}
use reloadjs.Node.{attached, Node, returned}
use reloadjs.Node.Tidy.{IsTidy, IsGone}
use reloadjs.Node.Connections.{get_connection, find_connection, find_socket, drop_socket, forget}
use reloadjs.Routing.Table.{get_node}
use reloadjs.Routing.Leave.{leave}
use reloadjs.Routing.Leave.Absence.{leave-IsGone}
use reloadjs.Peers.{ping_timeout, has_ping, drop_pings, remove_all_from, remove_all}
use reloadjs.Peers.Limits.{remove_all_rounds, ping_timeout_fifth}
use reloadjs.Node.{write, update_request}
use reloadjs.Router.{route}
use reloadjs.Router.Sent.{route_connected, route-total}
use reloadjs.Dispatch.{handle_message}
use reloadjs.Dispatch.Reach.{Reach, here, further, received, waited, Reach-IsTidy}
use reloadjs.Tests.Data.{
  lower, upper, entry_of, small_node, one_broken, leaving, answered, two_pings,
}
use reloadjs.Tests.Tables.{found_upper}

small_node-IsTidy : IsTidy small_node
small_node-IsTidy = record {
  entries = (((λ e. ground (arith, e)), tt), (tt, tt));
  connected = (((λ e. ground (arith, e)), tt), (tt, tt));
  few_successors = omega arith;
  few_predecessors = omega arith;
}

leave-IsGone_example : IsGone upper (leave one_broken 9 upper small_node).1
leave-IsGone_example = leave-IsGone one_broken 9 upper small_node

upper_left :
    Reach 100 small_node
      (ping_timeout lower 1 (handle_message 100 one_broken 9 2 leaving small_node).1)
upper_left = further (further here (received one_broken 9 2 leaving)) (waited lower 1)

Reach-IsTidy_example :
    IsTidy (ping_timeout lower 1 (handle_message 100 one_broken 9 2 leaving small_node).1)
Reach-IsTidy_example = Reach-IsTidy upper_left small_node-IsTidy

remove_all_rounds_example :
    remove_all_from one_broken 7 0 small_node ≡ remove_all one_broken small_node
remove_all_rounds_example = remove_all_rounds one_broken 7 small_node (omega arith)

ping_timeout_fifth_example :
    (let wait : Node → Node = ping_timeout upper 2 in
      let four : Node = wait (wait (wait (wait answered))) in
      (four ≡ record answered { pending_ping = four.pending_ping })
      × (drop_pings upper four.pending_ping ≡ drop_pings upper two_pings)
      × (wait four ≡ record answered {
        table = forget upper answered.table;
        connections = drop_socket 2 answered.connections;
        pending_ping = drop_pings upper two_pings;
      }))
ping_timeout_fifth_example =
    ping_timeout_fifth upper 2 two_pings answered refl (unfold has_ping same in refl)
      (unfold find_socket in refl)

route_connected_example :
    route one_broken update_request (node_id upper ∷ []) small_node
    ≡ (returned tt, record small_node { done = write 2 update_request (node_id upper ∷ []) ∷ [] })
route_connected_example =
    route_connected one_broken update_request (node_id upper) [] 2 small_node
      (λ e. ground (arith, e)) (unfold get_connection find_connection same in refl) refl

route-total_example :
    (route one_broken update_request (node_id lower ∷ []) small_node).0 ≡ returned tt
route-total_example =
    route-total one_broken update_request (node_id lower) [] small_node
      ((entry_of upper attached, unfold get_node in found_upper), tt)
