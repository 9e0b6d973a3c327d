-- ===== src/Listener/Addressed.antt =====
-- A message that is addressed to the peer that hears it: Topology/MessageHandler.js,
-- Transport/stack/ReloadStack.js and Core/MessageDispatcher.js behind one another.
use reloadjs.Base.{
  ℕ, ◌≡◌, refl, sym, ap, ◌∙◌, inl, inr, true, false, List, [], ◌∷◌, some, Text, same_refl,
  Option-cases, some_inv,
}
use reloadjs.Transport.Header.{RoutableId, node_id, Header, Settings, new_message}
use reloadjs.Transport.Wire.{SmartBuffer, IsSmartBuffer, IsPlain}
use reloadjs.Transport.Wire.RoundTrip.{read_back}
use reloadjs.Transport.Signing.{IsCrypto, IsKeyPair, Local}
use reloadjs.Transport.Signing.Accepted.{IsSendable}
use reloadjs.Node.{Node, Body, Sockets, returned, ◌>>◌}
use reloadjs.Node.Connections.{find_connection}
use reloadjs.Peers.{add_connection, new_connection}
use reloadjs.Forwarding.{
  process_destination, is_valid_destination, is_local_peer_responsible, verdict_for, decide_valid,
  processed, verdict, delivered, act, handle_forwarding,
}
use reloadjs.Dispatch.{Incoming, handle_message_type, dispatch, handle_message}
use reloadjs.Listener.{of_content, Setup, came, on_event, Drawn, content_of, sent_bytes}
use reloadjs.Listener.Heard.{IsDrawn, on_event-sent_bytes}

local_responsible : (n : Node) → is_local_peer_responsible n (node_id n.local) ≡ true
unfolding is_local_peer_responsible
local_responsible n = rw (same_refl n.local) refl

verdict-local :
    (initial_ttl : ℕ) (n : Node) (h : Header)
    → h.destination_list ≡ node_id n.local ∷ []
    → verdict initial_ttl n h ≡ delivered
unfolding verdict processed
verdict-local initial_ttl n h e = rw e (
    unfold process_destination is_valid_destination decide_valid in
    rw (same_refl n.local) (rw (local_responsible n, verdict_for) refl))

handle_forwarding-local :
    (initial_ttl : ℕ) (env : Sockets) (h : Header) (n : Node)
    → h.destination_list ≡ node_id n.local ∷ []
    → handle_forwarding initial_ttl env h n ≡ (returned delivered, n)
unfolding handle_forwarding act
handle_forwarding-local initial_ttl env h n e = rw (verdict-local initial_ttl n h e) refl

handle_message-local :
    (initial_ttl : ℕ) (env : Sockets) (now socket : ℕ) (m : Incoming) (n : Node)
    → m.signed ≡ true
    → m.header.destination_list ≡ node_id n.local ∷ []
    → handle_message initial_ttl env now socket m n
      ≡ (add_connection env m.dist_id socket m.certificate false
            >> handle_message_type env now m.header m.dist_id m.content)
          n
unfolding handle_message dispatch add_connection
handle_message-local initial_ttl env now socket m n signed e =
    elim (Option-cases (find_connection m.dist_id n.connections)) [
      | inl new ↦
          rw (signed, new, add_connection)
            (rw
              (handle_forwarding-local initial_ttl env m.header
                (new_connection env m.dist_id socket m.certificate n) (unfold new_connection in e))
              refl)
      | inr (c, old) ↦
          rw (signed, old, add_connection)
            (rw (handle_forwarding-local initial_ttl env m.header n e) refl)
    ]

read_back-destination_list :
    (conf : Settings) (local : Text) (transaction : ℕ) (dest : RoutableId) (h : Header)
    (b : SmartBuffer)
    → new_message conf local transaction (dest ∷ []) ≡ some h
    → (read_back b h).destination_list ≡ dest ∷ []
unfolding new_message read_back
read_back-destination_list conf local transaction dest h b e =
    ap (λ (x : Header). x.destination_list) (sym (some_inv e))

module _ (setup : Setup) (law : IsSmartBuffer setup.buffers) (works : IsCrypto setup.crypto)
    (me : Local) (plain : IsPlain me.certificate)
    (pair : IsKeyPair setup.crypto me.private_key me.certificate) (id : Text)
    (has_id : setup.crypto.certificate_id me.certificate ≡ some id) where
  -- Over a buffer library that reads back what it wrote and a crypto library with SHA-1, let a sender
  -- have an ASCII certificate with an id and a key pair that checks, let the numbers that it draws and
  -- those of the header be in range, the texts ASCII, a leave request of the type 1 or 2, and the
  -- sequences the same. Then a message that it makes for the node id of the other peer comes out as
  -- bytes, and the peer that hears them adds the connection of the sender and runs the handler of the
  -- content, without forwarding.
  pub on_event-addressed :
      (conf : Settings) (local : Text) (transaction : ℕ) (drawn : Drawn) (body : Body) (h : Header)
      (env : Sockets) (now socket : ℕ) (n : Node)
      → new_message conf local transaction (node_id n.local ∷ []) ≡ some h
      → conf.sequence ≡ setup.sequence
      → IsDrawn drawn
      → IsSendable setup.buffers h (content_of drawn body)
      → (bytes : List ℕ) × (sent_bytes setup.buffers setup.crypto me conf local transaction drawn
            body
            (node_id n.local ∷ [])
          ≡ some bytes)
        × (on_event setup env now socket (came bytes) n
            ≡ (add_connection env id socket me.certificate false
                  >> handle_message_type env now
                      (read_back setup.buffers h)
                      id
                      (of_content (content_of drawn body)))
                n)
  on_event-addressed conf local transaction drawn body h env now socket n made same_sequence fits
        sound =
      let (bytes, sent, heard) =
        on_event-sent_bytes setup law works me plain pair id has_id conf local transaction drawn
          body (node_id n.local ∷ []) h env now socket n made same_sequence fits sound in
      (
        bytes,
        sent,
        heard
            ∙ handle_message-local setup.initial_ttl env now socket _ n refl (
                read_back-destination_list conf local transaction (node_id n.local) h setup.buffers
                  made),
      )
