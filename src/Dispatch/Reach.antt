-- ===== src/Dispatch/Reach.antt =====
-- The states that a peer can reach, by any sequence of the callbacks of its sockets and timers.
use reloadjs.Base.{ℕ, Bool, List, some, Text}
use reloadjs.Transport.Header.{RoutableId, Header, Settings}
use reloadjs.Node.{Node, Sockets, attach_answer}
use reloadjs.Node.Connections.{remove_connection}
use reloadjs.Node.Tidy.{IsTidy, remove_connection-IsTidy}
use reloadjs.Peers.{
  add_connection, ping_tick, ping_timeout, update_tick, remove_all, IceMessage, ice_on_message,
  ice_on_connect,
}
use reloadjs.Dispatch.{Incoming, send_request, handle_message}
use reloadjs.Dispatch.Kept.{
  add_connection-Keeps, ping_tick-Keeps, ping_timeout-IsTidy, update_tick-Keeps, remove_all-Keeps,
  ice_on_message-Keeps, ice_on_connect-Keeps,
}
use reloadjs.Dispatch.Handled.{send_request-IsTidy, handle_message-IsTidy}
use reloadjs.Listener.{Setup, SocketEvent, on_event, ChannelEvent, on_channel_event}
use reloadjs.Listener.Kept.{on_event-IsTidy, on_channel_event-IsTidy}
use reloadjs.Routing.Updates.Kept.{IsTidy-Stable}
use reloadjs.Router.{send_answer}
use reloadjs.Router.Kept.{send_answer-Keeps}

-- One callback: an event of a TLS socket or of a data channel, bytes that come in among them, a
-- message that was decoded and checked, a new connection, the timers of a connection, an open data
-- channel, an object on a data channel, candidates for an attach request or for its answer, a closed
-- socket, or the shutdown. Each may find the sockets in another condition, and may end in an
-- exception.
pub data Step (initial_ttl : ℕ) (n : Node) : Node → Type 0 where
  received :
      (env : Sockets) (now socket : ℕ) (m : Incoming)
      → Step initial_ttl n (handle_message initial_ttl env now socket m n).1
  heard :
      (setup : Setup) (env : Sockets) (now socket : ℕ) (event : SocketEvent)
      → Step initial_ttl n (on_event setup env now socket event n).1
  channel_heard :
      (setup : Setup) (env : Sockets) (now channel : ℕ) (event : ChannelEvent)
      → Step initial_ttl n (on_channel_event setup env now channel event n).1
  connected :
      (env : Sockets) (id : Text) (socket : ℕ) (cert : Text) (is_ice : Bool)
      → Step initial_ttl n (add_connection env id socket cert is_ice n).1
  pinged :
      (env : Sockets) (id : Text) (socket : ℕ) → Step initial_ttl n (ping_tick env id socket n).1
  waited : (id : Text) (socket : ℕ) → Step initial_ttl n (ping_timeout id socket n)
  updated :
      (env : Sockets) (id : Text) (socket : ℕ) → Step initial_ttl n (update_tick env id socket n).1
  opened : (env : Sockets) (channel : ℕ) → Step initial_ttl n (ice_on_connect env channel n).1
  messaged :
      (env : Sockets) (now channel : ℕ) (sdp : Text) (m : IceMessage)
      → Step initial_ttl n (ice_on_message env now channel sdp m n).1
  gathered :
      (env : Sockets) (socket t : ℕ) (sdp : Text) (b : Bool) (dests : List RoutableId)
      → Step initial_ttl n (send_request env socket t sdp b dests n).1
  answered :
      (env : Sockets) (conf : Settings) (h : Header) (sdp : Text)
      → Step initial_ttl n (send_answer env conf h (attach_answer sdp) n).1
  closed : (socket : ℕ) → Step initial_ttl n (remove_connection (some socket) n)
  stopped : (env : Sockets) → Step initial_ttl n (remove_all env n).1

pub data Reach (initial_ttl : ℕ) (start : Node) : Node → Type 0 where
  here : Reach initial_ttl start start
  further :
      {n n' : Node} → Reach initial_ttl start n → Step initial_ttl n n' → Reach initial_ttl start n'

Step-IsTidy : {initial_ttl : ℕ} {n n' : Node} → Step initial_ttl n n' → IsTidy n → IsTidy n'
Step-IsTidy {initial_ttl} {n} (received env now socket m) t =
    handle_message-IsTidy initial_ttl env now socket m n t
Step-IsTidy {n = n} (heard setup env now socket event) t =
    on_event-IsTidy setup env now socket event n t
Step-IsTidy {n = n} (channel_heard setup env now channel event) t =
    on_channel_event-IsTidy setup env now channel event n t
Step-IsTidy {n = n} (connected env id socket cert is_ice) t =
    (add_connection-Keeps env id socket cert is_ice).at n t
Step-IsTidy {n = n} (pinged env id socket) t = (ping_tick-Keeps env id socket).at n t
Step-IsTidy {n = n} (waited id socket) t = ping_timeout-IsTidy id socket n t
Step-IsTidy {n = n} (updated env id socket) t = (update_tick-Keeps env id socket).at n t
Step-IsTidy {n = n} (opened env channel) t = (ice_on_connect-Keeps env channel).at n t
Step-IsTidy {n = n} (messaged env now channel sdp m) t =
    (ice_on_message-Keeps env now channel sdp m).at n t
Step-IsTidy {n = n} (gathered env socket t sdp b dests) k =
    send_request-IsTidy env socket t sdp b dests n k
Step-IsTidy {n = n} (answered env conf h sdp) t =
    (send_answer-Keeps IsTidy-Stable env (attach_answer sdp) conf h).at n t
Step-IsTidy {n = n} (closed socket) t = remove_connection-IsTidy (some socket) n t
Step-IsTidy {n = n} (stopped env) t = (remove_all-Keeps env).at n t

-- From a tidy state (no two entries or connections for one node, at most three successors and three
-- predecessors), such as that of a peer that starts with empty tables, every state that the
-- callbacks reach in any order is tidy, also after exceptions and failed writes.
pub Reach-IsTidy :
    {initial_ttl : ℕ} {start n : Node} → Reach initial_ttl start n → IsTidy start → IsTidy n
Reach-IsTidy here t = t
Reach-IsTidy (further r s) t = Step-IsTidy s (Reach-IsTidy r t)
