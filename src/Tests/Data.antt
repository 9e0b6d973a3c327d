-- ===== src/Tests/Data.antt =====
-- A small overlay: the data of the concrete runs.
use reloadjs.Base.{List, ℕ, true, false, [], ◌∷◌, none, some, ◌==◌, Text, codes}
use reloadjs.Transport.Header.{node_id, Header, Settings}
use reloadjs.Peers.{reset_ping}
use reloadjs.Node.{Ping, NodeState, attached, RTableEntry, Table, Connection, Node, Sockets}
use reloadjs.Routing.Merge.{Update}
use reloadjs.Dispatch.{Incoming, leave_asked}

abbrev pub local_id : Text
local_id = codes "5"

abbrev pub lower : Text
lower = codes "1"

abbrev pub upper : Text
upper = codes "7"

abbrev pub entry_of : Text → NodeState → RTableEntry
entry_of id state = record {
  id = id;
  ice_candidates = none;
  last_successful_ping = some 0;
  node_state = state;
  pinging = false;
  wait_for_join_answer = false;
}

abbrev pub small_table : Table
small_table = record {
  rtable = entry_of lower attached ∷ entry_of upper attached ∷ [];
  learned_from = [];
  ftable = [];
  update_received = upper ∷ [];
  leaved_nodes = [];
  predecessors = lower ∷ [];
  successors = upper ∷ [];
  finger_successors = [];
}

abbrev pub link : Text → ℕ → Connection
link id socket = record { id = id; socket = socket }

abbrev pub small_node : Node
small_node = record {
  local = local_id;
  joined = true;
  topology_joined = true;
  is_overlay_initiator = false;
  topology_initiator = false;
  mode_client = false;
  client_mode = false;
  user_mode_client = false;
  ap = some lower;
  table = small_table;
  connections = link lower 1 ∷ link upper 2 ∷ [];
  pending_ping = [];
  update_after_connection = [];
  pending_requests = [];
  cache = [];
  key_store = [];
  done = [];
}

-- Socket 1 is broken.
abbrev pub one_broken : Sockets
one_broken = record { writable = λ s. s == 2; destroyable = λ s. true; remote = λ s. none }

abbrev pub five_left : Header
five_left = record {
  relo_token = 0xd2454c4f;
  overlay = codes "overlay";
  configuration_sequence = codes "1";
  version = 1;
  ttl = 5;
  fragment_head_value = 0x8000;
  fragment_offset = 0;
  message_length = 0;
  transaction = 42;
  max_response_length = 5000;
  via_list_length = 0;
  destination_list_length = 0;
  options_length = 0;
  via_list = node_id lower ∷ [];
  destination_list = node_id local_id ∷ node_id upper ∷ [];
  options = record {
    is_forward_critical = false;
    is_destination_critical = false;
    is_response_copy = false;
  };
}

abbrev pub update : Update
update = record { successors = upper ∷ []; predecessors = local_id ∷ [] }

-- What `five_left` becomes at `small_node`.
abbrev pub four_left : Header
four_left = record five_left {
  ttl = 4;
  via_list = node_id lower ∷ node_id local_id ∷ [];
  destination_list = node_id upper ∷ [];
}

abbrev pub settings : Settings
settings = record {
  overlay = codes "overlay";
  sequence = codes "1";
  initial_ttl = 100;
  max_message_size = 5000;
}

-- `upper` asks to leave, over its own connection.
abbrev pub leaving : Incoming
leaving = record {
  header = record five_left { destination_list = node_id local_id ∷ [] };
  dist_id = upper;
  certificate = [];
  signed = true;
  content = leave_asked upper;
}

-- Pings of two nodes.
abbrev pub two_pings : List Ping
two_pings = record { id = lower; cpt = 3 } ∷ record { id = upper; cpt = 2 } ∷ []

-- A connection to `upper` whose last ping was answered.
abbrev pub answered : Node
answered = record small_node { pending_ping = reset_ping upper two_pings }
