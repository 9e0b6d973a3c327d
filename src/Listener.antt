-- ===== src/Listener.antt =====
-- The handlers of sockets: `init` of Core/NodeListener.js, `connectTo`, `ICEonClose` and the bytes of
-- `ICEonMessage` of Core/ConnectionManager.js, with the whole of `handleMessage` of
-- Topology/MessageHandler.js; and the contents that a peer makes for the messages it sends.
pub mod Kept
pub mod Heard
pub mod Addressed
use reloadjs.Base.{
  ℕ, Bool, true, false, List, Option, none, some, if◌then◌else◌, Text, codes, same, head?,
}
use reloadjs.Transport.Header.{RoutableId, Settings, new_message}
use reloadjs.Transport.Wire.{SmartBuffer, given}
use reloadjs.Transport.Content.{Content, built, value}
use reloadjs.Transport.Signing.{
  Crypto, Local, Message, Judgment, dropped, accepted, receive, write_message,
}
use reloadjs.Node.{Node, Body, Sockets, Exec, returned, thrown, pure, modify}
use reloadjs.Node.Connections.{remove_connection}
use reloadjs.Dispatch.{
  Received, attach_asked, join_asked, update_asked, attach_answered, join_answered, leave_answered,
  ping_answered, leave_asked, ping_asked, update_answered, other_received, Incoming, handle_message,
}

-- What the handler of its type reads of a content.
unfoldable pub of_content : Content → Received
of_content (Content.attach_request sdp update) = attach_asked update
of_content (Content.attach_answer sdp update) = attach_answered
of_content (Content.join_request id) = join_asked
of_content Content.join_answer = join_answered
of_content Content.leave_answer = leave_answered
of_content Content.update_request = update_asked
of_content (Content.leave_request type id set) = leave_asked id
of_content (Content.update_answer predecessors successors start) =
    update_answered (record { successors = value successors; predecessors = value predecessors })
of_content (Content.ping_request ips port) = ping_asked (value ips) port
of_content (Content.ping_answer number time) = ping_answered
of_content (Content.error_response type info code) = other_received

-- A message with a good signature, from the holder of its first certificate.
unfoldable pub incoming : Message → Text → Text → Incoming
unfolding of_content
incoming m id certificate = record {
  header = m.header;
  dist_id = id;
  certificate = certificate;
  signed = true;
  content = of_content m.content;
}

-- What a peer is set up with: the libraries, the configuration sequence of its overlay and the initial
-- TTL.
pub record Setup : Type 0 where
  pub buffers : SmartBuffer
  pub crypto : Crypto
  pub sequence : Text
  pub initial_ttl : ℕ

unfoldable pub handle_from : Setup → Sockets → ℕ → ℕ → Message → Option Text → Exec Node Unit
unfolding incoming
handle_from setup env now socket m none n = (thrown, n)
handle_from setup env now socket m (some certificate) n =
    elim (setup.crypto.certificate_id certificate) [
      | none ↦ (thrown, n)
      | some id ↦ handle_message setup.initial_ttl env now socket (incoming m id certificate) n
    ]

unfoldable pub handle_judgment : Setup → Sockets → ℕ → ℕ → Option Judgment → Exec Node Unit
unfolding handle_from
handle_judgment setup env now socket none n = (thrown, n)
handle_judgment setup env now socket (some dropped) n = (returned tt, n)
handle_judgment setup env now socket (some (accepted m)) n =
    handle_from setup env now socket m (head? m.block.certificates) n

-- `handleMessage` of bytes.
unfoldable pub handle_bytes : Setup → Sockets → ℕ → ℕ → List ℕ → Exec Node Unit
unfolding handle_judgment
handle_bytes setup env now socket bytes =
    handle_judgment setup env now socket (receive setup.buffers setup.crypto setup.sequence bytes)

-- What a TLS socket or a data channel tells its owner.
pub data SocketEvent : Type 0 where
  came : List ℕ → SocketEvent
  closed failed ended : SocketEvent

-- The handlers of a TLS socket. Its destruction is not kept.
unfoldable pub on_event : Setup → Sockets → ℕ → ℕ → SocketEvent → Exec Node Unit
unfolding handle_bytes
on_event setup env now socket (came bytes) n =
    if same bytes (codes "close")
    then (returned tt, remove_connection (some socket) n)
    else handle_bytes setup env now socket bytes n
on_event setup env now socket closed n = (returned tt, remove_connection (some socket) n)
on_event setup env now socket failed n = (returned tt, remove_connection (some socket) n)
on_event setup env now socket ended n = (returned tt, n)

-- What a data channel tells: bytes, a string that is no JSON, or that it is closed.
pub data ChannelEvent : Type 0 where
  bytes_came : List ℕ → ChannelEvent
  text_came : Text → ChannelEvent
  channel_closed : ChannelEvent

-- `ICEonMessage` behind the exception of `JSON.parse`, where `toBuffer` throws on a string; and
-- `ICEonClose`. The closing of the channel is not kept.
unfoldable pub on_channel_event : Setup → Sockets → ℕ → ℕ → ChannelEvent → Exec Node Unit
unfolding handle_bytes
on_channel_event setup env now channel (bytes_came bytes) n =
    handle_bytes setup env now channel bytes n
on_channel_event setup env now channel (text_came text) n =
    if same text (codes "close") then (returned tt, n) else (thrown, n)
on_channel_event setup env now channel channel_closed n =
    (returned tt, remove_connection (some channel) n)

-- What a peer draws when it makes a content: its addresses, its port, a number and two texts of the
-- time.
pub record Drawn : Type 0 where
  pub ips : List Text
  pub port : ℕ
  pub number : ℕ
  pub time : Text
  pub start : Text

-- The content of a message that a peer sends.
unfoldable pub content_of : Drawn → Body → Content
content_of d (Body.join_request id) = Content.join_request (built id)
content_of d Body.join_answer = Content.join_answer
content_of d (Body.leave_request type id set) = Content.leave_request type id (built set)
content_of d Body.update_request = Content.update_request
content_of d (Body.update_answer predecessors successors) =
    Content.update_answer (built predecessors) (built successors) d.start
content_of d Body.ping_request = Content.ping_request (built d.ips) d.port
content_of d Body.ping_answer = Content.ping_answer d.number (built d.time)
content_of d (Body.attach_request sdp update) = Content.attach_request sdp update
content_of d (Body.attach_answer sdp) = Content.attach_answer sdp false

-- The bytes of a message to these destinations: `newMessage`, then `serialize`.
unfoldable pub sent_bytes :
    SmartBuffer
    → Crypto
    → Local
    → Settings
    → Text
    → ℕ
    → Drawn
    → Body
    → List RoutableId
    → Option (List ℕ)
unfolding content_of
sent_bytes b crypto me conf local transaction drawn body dests =
    given (new_message conf local transaction dests)
      (λ h. write_message b crypto me h (content_of drawn body))
