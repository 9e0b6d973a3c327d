-- ===== src/Listener/Heard.antt =====
-- From the message that one peer sends to the handler of the other, through Transport/messages,
-- Core/NodeListener.js and Topology/MessageHandler.js.
use mathlib.Core.Path.{subst}
use reloadjs.Base.{
  some_inv, ℕ, ◌+◌, ◌<◌, ◌≤◌, ◌^◌, ◌≡◌, refl, sym, ap, ◌∙◌, inl, inr, true, false, List, [], ◌∷◌,
  ◌++◌, some, arith, Text, codes, same, same_iff, length, length-append, head?, Bool-cases, lt→ltb,
}
use reloadjs.Transport.Header.{RoutableId, Header, Settings, new_message}
use reloadjs.Transport.Wire.{
  SmartBuffer, IsSmartBuffer, IsPlain, given-some, given_inv, checked_inv, fits, serialize, checked,
  header_bytes,
}
use reloadjs.Transport.Wire.RoundTrip.{read_back}
use reloadjs.Transport.Content.{Content, write_content, as_read}
use reloadjs.Transport.Content.RoundTrip.{IsSound, built_set}
use reloadjs.Transport.Security.{SecurityBlock, write_block}
use reloadjs.Transport.Signing.{
  compute_sec_block, receive, Crypto, IsCrypto, IsKeyPair, Local, accepted, write_message,
}
use reloadjs.Transport.Signing.Accepted.{IsSendable, receive-write_message}
use reloadjs.Node.{Node, Body, Sockets}
use reloadjs.Dispatch.{handle_message}
use reloadjs.Listener.{
  of_content, incoming, Setup, handle_from, handle_judgment, handle_bytes, came, on_event, Drawn,
  content_of, sent_bytes,
}

-- The numbers that a peer draws fit into 32 bits.
pub record IsDrawn (d : Drawn) : Type 0 where
  pub port : d.port < 2 ^ 32
  pub number : d.number < 2 ^ 32

module _ (b : SmartBuffer) where
  -- The content of each message that a peer sends is written without an exception.
  content_of_written :
      (d : Drawn) (body : Body)
      → IsDrawn d
      → IsSound (content_of d body)
      → (w : List ℕ) × (write_content b (content_of d body) [] ≡ some w)
  unfolding write_content content_of
  content_of_written d (Body.join_request id) f s = (_, refl)
  content_of_written d Body.join_answer f s = (_, refl)
  content_of_written d (Body.leave_request type id set) f s = (
    _,
    given-some _ (built_set type set s.0) ∙ checked _ (lt→ltb type (2 ^ 8) (ground (arith, s.0))),
  )
  content_of_written d Body.update_request f s = (_, refl)
  content_of_written d (Body.update_answer predecessors successors) f s = (_, refl)
  content_of_written d Body.ping_request f s = (_, checked _ (lt→ltb d.port (2 ^ 32) f.port))
  content_of_written d Body.ping_answer f s = (_, checked _ (lt→ltb d.number (2 ^ 32) f.number))
  content_of_written d (Body.attach_request sdp update) f s = (_, refl)
  content_of_written d (Body.attach_answer sdp) f s = (_, refl)

in_front : (x y : List ℕ) (m k : ℕ) → m ≤ length x → k ≤ length y → m + k ≤ length (x ++ y)
in_front x y m k h l = omega (arith, h, l, length-append x y)

-- The handlers read the same of a content that was read as of the one that was written.
of_content-as_read : (c : Content) → of_content (as_read c) ≡ of_content c
unfolding of_content
of_content-as_read (Content.attach_request sdp update) = refl
of_content-as_read (Content.attach_answer sdp update) = refl
of_content-as_read (Content.join_request id) = refl
of_content-as_read Content.join_answer = refl
of_content-as_read Content.leave_answer = refl
of_content-as_read Content.update_request = refl
of_content-as_read (Content.leave_request type id set) = refl
of_content-as_read (Content.update_answer predecessors successors start) = refl
of_content-as_read (Content.ping_request ips port) = refl
of_content-as_read (Content.ping_answer number time) = refl
of_content-as_read (Content.error_response type info code) = refl

not_close : (bytes : List ℕ) → 5 < length bytes → same bytes (codes "close") ≡ false
not_close bytes long = elim (Bool-cases (same bytes (codes "close"))) [
  | inl close ↦ absurd (
      omega (arith, long, ap (λ (x : List ℕ). length x) ((same_iff bytes (codes "close")).0 close)))
  | inr other ↦ other
]

module _ (b : SmartBuffer) (law : IsSmartBuffer b) where
  -- A message is longer than the text that closes a connection.
  header_bytes-long : (h : Header) (rest : List ℕ) → 5 < length (header_bytes b h rest)
  unfolding header_bytes
  header_bytes-long h rest =
      in_front (b.u32 h.relo_token) _ 4 2 (omega (arith, law.u32_width h.relo_token)) (
        in_front (b.string_nt h.overlay) _ 0 2 (omega arith) (
          in_front (b.string_nt h.configuration_sequence) _ 0 2 (omega arith) (
            in_front (b.u8 h.version) _ 1 1 (omega (arith, law.u8_width h.version))
              (in_front (b.u8 h.ttl) _ 1 0 (omega (arith, law.u8_width h.ttl)) (omega arith)))))

  write_message-long :
      (crypto : Crypto) (me : Local) (h : Header) (c : Content) (bytes : List ℕ)
      → write_message b crypto me h c ≡ some bytes
      → 5 < length bytes
  unfolding write_message serialize
  write_message-long crypto me h c bytes e =
      let (content, e0, e1) = given_inv (write_content b c []) e in
      let (block, e2, e3) = given_inv (compute_sec_block b crypto me h content) e1 in
      let (tail, e4, e5) = given_inv (write_block b block []) e3 in
      let (body, e6, e7) = given_inv (write_content b c tail) e5 in
      let (fit, made) = checked_inv (fits b h) e7 in
      subst (λ (x : List ℕ). 5 < length x) (some_inv made) (header_bytes-long h body)

new_message-sequence :
    (conf : Settings) (local : Text) (transaction : ℕ) (dests : List RoutableId) (h : Header)
    → new_message conf local transaction dests ≡ some h
    → h.configuration_sequence ≡ conf.sequence
unfolding new_message
new_message-sequence conf local transaction [] h e = cc
new_message-sequence conf local transaction (d ∷ ds) h e =
    ap (λ (x : Header). x.configuration_sequence) (sym (some_inv e))

module _ (setup : Setup) (law : IsSmartBuffer setup.buffers) (works : IsCrypto setup.crypto)
    (me : Local) (plain : IsPlain me.certificate)
    (pair : IsKeyPair setup.crypto me.private_key me.certificate) (id : Text)
    (has_id : setup.crypto.certificate_id me.certificate ≡ some id) where
  hears :
      (env : Sockets) (now socket : ℕ) (n : Node) (h : Header) (c : Content) (k : SecurityBlock)
      (bytes : List ℕ)
      → same bytes (codes "close") ≡ false
      → receive setup.buffers setup.crypto setup.sequence bytes
        ≡ some (accepted (record { header = h; content = c; block = k }))
      → head? k.certificates ≡ some me.certificate
      → on_event setup env now socket (came bytes) n
        ≡ handle_message setup.initial_ttl env now socket
            (incoming (record { header = h; content = c; block = k }) id me.certificate)
            n
  unfolding on_event handle_bytes handle_judgment handle_from
  hears env now socket n h c k bytes message got first =
      rw (message, got, first) (rw (has_id, handle_from) refl)

  -- Over a buffer library that reads back what it wrote and a crypto library with SHA-1, let a sender
  -- have an ASCII certificate with an id and a key pair that checks, let the numbers that it draws and
  -- those of the header be in range, the texts ASCII, a leave request of the type 1 or 2, and the
  -- sequences the same. Then the message that it makes comes out as bytes, and the peer that hears them
  -- does what its handler of messages does with the content, the header as it is read, and the id in the
  -- certificate of the sender.
  pub on_event-sent_bytes :
      (conf : Settings) (local : Text) (transaction : ℕ) (drawn : Drawn) (body : Body)
      (dests : List RoutableId) (h : Header) (env : Sockets) (now socket : ℕ) (n : Node)
      → new_message conf local transaction dests ≡ some h
      → conf.sequence ≡ setup.sequence
      → IsDrawn drawn
      → IsSendable setup.buffers h (content_of drawn body)
      → (bytes : List ℕ) × (sent_bytes setup.buffers setup.crypto me conf local transaction drawn
            body dests
          ≡ some bytes)
        × (on_event setup env now socket (came bytes) n
            ≡ handle_message setup.initial_ttl env now socket
                (record {
                  header = read_back setup.buffers h;
                  dist_id = id;
                  certificate = me.certificate;
                  signed = true;
                  content = of_content (content_of drawn body);
                })
                n)
  unfolding sent_bytes incoming
  on_event-sent_bytes conf local transaction drawn body dests h env now socket n made same_sequence
        fits sound =
      let (w, writes) = content_of_written setup.buffers drawn body fits sound.content in
      let (bytes, k, written, got, first) =
        receive-write_message setup.buffers law setup.crypto works me plain h
          (content_of drawn body) w id writes sound pair has_id in
      let same_handled =
        ap
          (λ received.
            handle_message setup.initial_ttl env now socket
              (record {
                header = read_back setup.buffers h;
                dist_id = id;
                certificate = me.certificate;
                signed = true;
                content = received;
              })
              n)
          (of_content-as_read (content_of drawn body)) in
      (
        bytes,
        given-some _ made ∙ written,
        hears env now socket n (read_back setup.buffers h) (as_read (content_of drawn body)) k bytes
              (not_close bytes (
                write_message-long setup.buffers law setup.crypto me h (content_of drawn body) bytes
                  written))
              (ap (λ (s : Text). receive setup.buffers setup.crypto s bytes)
                  (sym (new_message-sequence conf local transaction dests h made ∙ same_sequence))
                ∙ got)
              first
            ∙ same_handled,
      )
