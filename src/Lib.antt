-- ===== src/Lib.antt =====
-- RELOAD.js: the core of a RELOAD (RFC 6940) peer in JavaScript, with Chord as its overlay.
--
-- A peer keeps connections to other peers, a routing table with its nearest neighbors on a ring of
-- identifiers, and sends messages over them. A message that comes in has its signature checked, its
-- sender's connection added, is forwarded or passed up by the forwarding handler, and is handled by
-- the dispatcher, which changes the routing table and answers. Timers ping each connection.
--
-- What the files are about:
--   Ids            utils/utils.js: the number of an identifier, intervals of the ring, the next
--                  identifier. Ids/Interval, Ids/Bounds and Ids/Increment prove about it.
--   Transport      Transport/messages: Header has header.js, header/ and messageBuilder.js; Wire has
--                  their serialize and deSerialize (header.js serialize is `serialize`, deSerialize
--                  is `deserialize`), Codes has MessageCode of message.js and content/ContentType.js,
--                  Json the texts of arrays, Content the classes of content/, Security those of
--                  secBlock/, and Signing MessageEncoder.js, Crypto/Signer.js, Crypto/CryptoHelper.js
--                  and the check of a message in Topology/MessageHandler.js.
--   Node           the state of a peer, and Node/Connections with getConnection, removeConnection
--                  and sendMessage of Core/ConnectionManager.js. Node/Effects is state with
--                  exceptions, Node/Keeps and Node/Tidy what a computation keeps.
--   Routing        Routing/CHORDRoutingTable.js: Table has the queries, Neighbors neighborsFromTotal,
--                  Updates addNeighbor and sendUpdateToAllNeighbors, States setNodeState, Merge merge,
--                  Leave leave and reset, Hops getNextHops, Fingers addFinger; Default is
--                  Routing/DefaultRoutingTable.js.
--   Peers          Core/ConnectionManager.js addConnection, its timers, removeAll and ICEonMessage,
--                  Peers/Disk has Core/bootstrapCache.js with its file, and Peers/Certificates
--                  the lookup in Crypto/Keystore.js.
--   Forwarding     Transport/stack/ForwardingHandler.js, isLocalPeerResponsible of
--                  Topology/DefaultTopologyPlugin.js, forwardMessage of Transport/MessageRouter.js.
--   Router         sendMessage, transmit, sendAnswer and sendError of Transport/MessageRouter.js.
--   Dispatch       Core/MessageDispatcher.js, Services/AttachService.js, Topology/MessageHandler.js
--                  and Transport/stack/ReloadStack.js. Dispatch/Reach has all callbacks as steps,
--                  Dispatch/Join is about two peers.
--   Attach         Services/AttachService.js with its callbacks: Attach/Callbacks has all of them as
--                  steps, Attach/Round is about two peers. Ice has the servers and addresses of
--                  Transport/ice/ICE.js.
--   Listener       the handlers of sockets of Core/NodeListener.js and Core/ConnectionManager.js, from
--                  the bytes to the dispatcher, and the contents that a peer makes (constructors of
--                  Transport/messages/content).
--   Bootstrap      connect of Core/bootstrap.js with its callbacks, initBootstrap of Core/peer.js;
--                  Bootstrap/First follows it to the first attach request.
--   Config         Core/instance.js: the elements of the file, the values they set (Config/Settings is
--                  about them), and the loading of an overlay (Config/Loaded).
--   Identity       the node ids and the certificate of Crypto/X509Utils.js, and their file.
--   Start          reload.js, run, checkOverlay and startServices of Core/peer.js: Start/Fetched is
--                  about the requests for the configuration.
--   Tests          concrete runs.
-- Names are those of the source in another spelling: getNextHops is `get_next_hops`.
--
-- Conventions. Texts are lists of UTF-16 code units, and a Set of texts is the list of its members
-- in insertion order. A handler is a function from the state to an outcome and a state; what was
-- changed before an exception stays changed. Where `deSerialize` stores another type than the
-- constructor (an array for its JSON text), the field says whether it is built or stored. Whether a
-- write succeeds is a parameter (`Sockets`), and so are the time, transaction numbers and the
-- session descriptions of WebRTC. The library smart-buffer is a record of its writes and reads with
-- laws that it reads back what it wrote, and the libraries crypto and node-forge are records of
-- what the program calls, with the laws that SHA-1 exists, that a key checks what its partner has
-- signed, and that a certificate gives back its extension. Numbers are exact; Ids/Bounds is about
-- the identifiers for which doubles are too.
-- Loops are structural recursion but three: the reading of a destination list has one round for each
-- byte that is left and one more, that of an array of strings one for each character, and `removeAll`
-- as many as there are connections.
--
-- Not modelled: cryptography, the WebRTC and TLS libraries, the parser of XML, the subject and
-- dates of certificates, JSON other than arrays of strings, what `Date` makes of a text, and the web
-- page. connectToRoute, which does nothing, is left out, and so are the closing of sockets and
-- traces. The effect of a forwarded message has its header only.
mod Base
pub mod Ids
pub mod Transport
pub mod Node
pub mod Routing
pub mod Peers
pub mod Forwarding
pub mod Router
pub mod Dispatch
pub mod Ice
pub mod Attach
pub mod Listener
pub mod Bootstrap
pub mod Config
pub mod Identity
pub mod Start
mod Tests
