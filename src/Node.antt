-- ===== src/Node.antt =====
-- The state of one peer: its routing table (the fields of Routing/CHORDRoutingTable.js), its
-- connections (Core/ConnectionManager.js) and the globals that the handlers read and write.
-- What the program gives to its sockets is kept in the order in which it was given.
mod Effects
pub mod Keeps
pub mod Tidy
pub mod Connections
unfoldable pub use Effects.*
use reloadjs.Base.{ℕ, Bool, List, Option, Text}
use reloadjs.Transport.Header.{RoutableId, Header}

-- `NodeState` of Routing/CHORDRoutingTable.js and Transport/messages/message.js.
pub data NodeState : Type 0 where
  unknown attaching attached updates_received : NodeState

-- The number of a state.
abbrev pub rank : NodeState → ℕ
rank unknown = 0
rank attaching = 1
rank attached = 2
rank updates_received = 3

pub record RTableEntry : Type 0 where
  pub id : Text
  pub ice_candidates : Option Text
  pub last_successful_ping : Option ℕ
  pub node_state : NodeState
  pub pinging : Bool
  pub wait_for_join_answer : Bool

-- The constructor writes `nodestate`, and all readers read `nodeState`, which is undefined (`none`)
-- until `addFinger` writes it.
pub record FTableEntry : Type 0 where
  pub id : Text
  pub successor : Option Text
  pub node_state : Option NodeState
  pub valid : Bool

pub record Learned : Type 0 where
  pub id : Text
  pub originator : Text

-- The sets are lists in insertion order. `neighborInfoTable` is never used.
pub record Table : Type 0 where
  pub rtable : List RTableEntry
  pub learned_from : List Learned
  pub ftable : List FTableEntry
  pub update_received : List Text
  pub leaved_nodes : List Text
  pub predecessors : List Text
  pub successors : List Text
  pub finger_successors : List (Option Text)

-- The content of a message that a peer sends.
pub data Body : Type 0 where
  join_request : Text → Body
  join_answer : Body
  leave_request : ℕ → Text → List Text → Body
  update_request : Body
  update_answer : List Text → List Text → Body
  ping_request : Body
  ping_answer : Body
  attach_request : Text → Bool → Body
  attach_answer : Text → Body

-- A written message, a forwarded one, the start of an ICE offer for an attach request, of the ICE
-- answer to the request of a transaction or of the connection to its answer, the start of the timers
-- of a connection, the close object of a data channel, or the object with the own id and certificate
-- on it. The closing of sockets is not kept.
pub data Effect : Type 0 where
  write : ℕ → Body → List RoutableId → Effect
  forward : ℕ → Header → Effect
  attach : ℕ → List RoutableId → Effect
  start_timers : Text → ℕ → Effect
  send_close : ℕ → Effect
  send_identity : ℕ → Effect
  ice_answer : ℕ → Effect
  ice_connect : ℕ → Effect

pub record Connection : Type 0 where
  pub id : Text
  pub socket : ℕ

pub record Ping : Type 0 where
  pub id : Text
  pub cpt : ℕ

-- An entry of the bootstrap cache.
pub record Peer : Type 0 where
  pub address : Text
  pub port : ℕ

-- `joined`, `is_overlay_initiator`, `mode_client`, `client_mode` and `ap` are globals;
-- `pending_requests` and `update_after_connection` belong to the `AttachService`, and
-- `topology_joined` and `topology_initiator` are fields of `global.topology`.
pub record Node : Type 0 where
  pub local : Text
  pub joined : Bool
  pub topology_joined : Bool
  pub is_overlay_initiator : Bool
  pub topology_initiator : Bool
  pub mode_client : Bool
  pub client_mode : Bool
  pub user_mode_client : Bool
  pub ap : Option Text
  pub table : Table
  pub connections : List Connection
  pub pending_ping : List Ping
  pub update_after_connection : List Text
  pub pending_requests : List ℕ
  pub cache : List Peer
  pub key_store : List (Text × Text)
  pub done : List Effect

-- What the program finds out of a socket: whether a write succeeds, and whether it is a TLS socket,
-- which has `destroy`, or an ICE data channel, which has not, and its
-- remote address and port, if it has both.
pub record Sockets : Type 0 where
  pub writable : ℕ → Bool
  pub destroyable : ℕ → Bool
  pub remote : ℕ → Option Peer
