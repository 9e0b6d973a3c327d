-- ===== src/Tests/Offers.antt =====
-- An attach request with its answer, a join request with its own, and the first attach request.
use reloadjs.Base.{◌≡◌, refl, true, false, [], ◌∷◌, ◌++◌, none, some, Text, codes, same, has}
use reloadjs.Transport.Header.{node_id, Header, new_response_message}
use reloadjs.Node.{Node, write, attach_request, attach_answer, join_answer, Outcome, returned}
use reloadjs.Node.Connections.{get_connection, find_connection}
use reloadjs.Dispatch.{has_request, handle_message_type, join_asked, join_answered, update_answered}
use reloadjs.Dispatch.Join.{IsNewcomer, IsJoining, requested, join_round}
use reloadjs.Routing.Table.{is_attached, is_wait_for_join_ans, try_get_value}
use reloadjs.Ice.{StunServers, offer_servers, Description}
use reloadjs.Attach.{
  Offer, Service, find_offer, find_pc, offer_complete, find_answer, handle_request, answer_complete,
  process_answer,
}
use reloadjs.Bootstrap.{Bootstrap, connect}
use reloadjs.Bootstrap.First.{on_secure, first_request, on_secure_attaches}
use reloadjs.Attach.Once.{IsOnce}
use reloadjs.Attach.Callbacks.{here, further, offered, answered, Reach-answers}
use reloadjs.Attach.Round.{attach_round}
use reloadjs.Tests.Data.{
  update, local_id, lower, upper, small_table, small_node, one_broken, five_left, settings, link,
}

abbrev stun : StunServers
stun = record { first = codes "stun:a"; second = codes "stun:b" }

-- A service with nothing to do, at the node of these tests or at another one.
abbrev service_of : Node → Service
service_of n = record {
  node = n;
  offers = [];
  answers = [];
  pcs = [];
  connects = [];
  turns = codes "10.0.0.1" ∷ [];
  ips = [];
}

abbrev described : Description
described = record { sdp = codes "offer"; origin = codes "10.0.0.5"; candidates = some [] }

-- The offer goes over socket 2 to `upper`.
abbrev own_offer : Offer
own_offer = record {
  pc = 7;
  servers = offer_servers stun (codes "10.0.0.1" ∷ []);
  socket = 2;
  dests = node_id upper ∷ [];
  asks_update = true;
}

abbrev asking : Service
asking = record (service_of small_node) { offers = own_offer ∷ [] }

-- `upper` has the request from the local node, over its own connection.
abbrev request : Header
request = record five_left { via_list = node_id local_id ∷ [] }

abbrev asked_node : Node
asked_node = record small_node { local = upper; connections = link local_id 2 ∷ [] }

-- The service behind the gathering, and the one behind the answer.
abbrev sent_service : Service
sent_service = (offer_complete one_broken settings 42 7 described asking).1

abbrev asked_service : Service
asked_service = (handle_request 9 request true (codes "offer") (service_of asked_node)).1

abbrev finished : Service
finished =
    (process_answer (new_response_message settings upper request).transaction (codes "answer")
      sent_service).1

found_offer : find_offer 7 asking.offers ≡ some own_offer
unfolding find_offer
found_offer = refl

no_request : has_request 42 (service_of asked_node).node.pending_requests ≡ false
unfolding has_request
no_request = refl

no_answer : find_answer 9 (service_of asked_node).answers ≡ none
unfolding find_answer
no_answer = refl

local_link : get_connection asked_node local_id ≡ some 2
unfolding get_connection find_connection same
local_link = refl

attach_round_example :
    (sent_service.node.done
      ≡ [] ++ write 2 (attach_request (codes "offer") true) (node_id upper ∷ []) ∷ [])
    × ((answer_complete one_broken settings 9 (codes "answer") asked_service).1.node.done
        ≡ asked_service.node.done
          ++ write 2 (attach_answer (codes "answer")) (node_id local_id ∷ []) ∷ [])
    × ((new_response_message settings upper request).destination_list ≡ node_id local_id ∷ [])
    × (finished.connects ≡ [] ++ record { transaction = 42; pc = 7; sdp = codes "answer" } ∷ [])
    × (has_request 42 finished.node.pending_requests ≡ false)
attach_round_example =
    attach_round one_broken one_broken settings settings 42 7 9 described (codes "answer") own_offer
      request (node_id local_id) (node_id local_id) [] 2 asking (service_of asked_node) found_offer
      (λ e. cc) refl refl refl refl no_request no_answer (λ e. cc) local_link refl

no_pc : find_pc 42 asking.pcs ≡ none
unfolding find_pc
no_pc = refl

abbrev finished' : Service
finished' = (process_answer 42 (codes "answer") sent_service).1

-- The offer is gathered, and its answer comes.
Reach-answers_example :
    IsOnce finished' × ((process_answer 42 (codes "again") finished').0 ≡ returned tt)
Reach-answers_example =
    Reach-answers 42 (codes "again")
      (further (further here (offered one_broken settings 42 7 described no_pc))
        (answered 42 (codes "answer")))
      refl refl

-- A peer whose table is empty asks the local node to join, over socket 2.
abbrev newcomer : Text
newcomer = codes "9"

abbrev admitting_node : Node
admitting_node = record small_node {
  connections = link newcomer 2 ∷ [];
  update_after_connection = newcomer ∷ [];
}

abbrev joining_node : Node
joining_node = record small_node {
  local = newcomer;
  joined = false;
  topology_joined = false;
  ap = some local_id;
  table = record small_table {
    rtable = [];
    update_received = [];
    predecessors = [];
    successors = [];
  };
  connections = link local_id 2 ∷ [];
}

newcomer-IsNewcomer : IsNewcomer newcomer admitting_node
unfolding has same
newcomer-IsNewcomer = record {
  proper = λ e. cc;
  no_fingers = refl;
  no_predecessor = refl;
  no_successor = refl;
}

local-IsNewcomer : IsNewcomer local_id joining_node
unfolding has same
local-IsNewcomer = record {
  proper = λ e. cc;
  no_fingers = refl;
  no_predecessor = refl;
  no_successor = refl;
}

joining_node-IsJoining : IsJoining local_id joining_node
unfolding is_wait_for_join_ans try_get_value
joining_node-IsJoining = record {
  named = λ e. cc;
  admitting = refl;
  no_initiator = refl;
  not_joined = refl;
  silent = refl;
}

newcomer_link : get_connection admitting_node newcomer ≡ some 2
unfolding get_connection find_connection same
newcomer_link = refl

abbrev asked_to_join : Outcome (Unit {0}) × Node
asked_to_join = handle_message_type one_broken 9 five_left newcomer join_asked admitting_node

abbrev let_in : Outcome (Unit {0}) × Node
let_in = handle_message_type one_broken 9 five_left local_id join_answered joining_node

abbrev joined_peer : Outcome (Unit {0}) × Node
joined_peer = handle_message_type one_broken 9 five_left local_id (update_answered update) let_in.1

join_round_example :
    (asked_to_join.0 ≡ returned tt)
    × (asked_to_join.1.done
        ≡ [] ++ (write 2 join_answer (node_id newcomer ∷ []) ∷ requested 2 newcomer admitting_node))
    × (is_attached asked_to_join.1.table newcomer ≡ true)
    × (let_in.0 ≡ returned tt)
    × (is_attached let_in.1.table local_id ≡ true)
    × (joined_peer.1.joined ≡ true)
    × (joined_peer.1.topology_joined ≡ true)
join_round_example =
    join_round one_broken one_broken 9 9 9 five_left five_left five_left local_id newcomer 2 update
      admitting_node joining_node newcomer-IsNewcomer newcomer_link refl local-IsNewcomer
      joining_node-IsJoining

-- The bootstrap peer `newcomer`, over socket 2, when a second one has no connection yet.
abbrev first_step : Bootstrap × Service
first_step =
    on_secure stun one_broken 7 (codes "10.0.0.5") (codes "10.0.0.1") newcomer 2 []
      (connect [], service_of small_node)

abbrev second_step : Bootstrap × Service
second_step =
    on_secure stun one_broken 8 (codes "10.0.0.5") (codes "10.0.0.2") lower 1 [] first_step

abbrev first_sent : Service
first_sent = (offer_complete one_broken settings 42 7 described first_step.1).1

no_connection : find_connection newcomer small_node.connections ≡ none
unfolding find_connection same
no_connection = refl

no_offer : find_offer 7 (service_of small_node).offers ≡ none
unfolding find_offer
no_offer = refl

idle_bootstrap : (connect []).is_connected ≡ false
unfolding connect
idle_bootstrap = refl

on_secure_attaches_example :
    (first_step.0.is_connected ≡ true)
    × (first_sent.node.done ≡ [] ++ first_request local_id 2 newcomer (codes "offer"))
    × (has_request 42 first_sent.node.pending_requests ≡ true)
    × (find_pc 42 first_sent.pcs ≡ some 7)
    × (second_step.1.offers ≡ first_step.1.offers)
on_secure_attaches_example =
    on_secure_attaches stun one_broken one_broken settings 42 7 8 described (codes "10.0.0.5")
      (codes "10.0.0.1") (codes "10.0.0.2") newcomer lower 2 1 [] [] (connect [])
      (service_of small_node) idle_bootstrap no_connection no_offer refl
