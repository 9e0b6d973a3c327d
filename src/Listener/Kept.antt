-- ===== src/Listener/Kept.antt =====
-- The handlers of sockets, of Listener, leave the tables tidy.
use reloadjs.Base.{
  ℕ, inl, inr, Option, none, some, Text, codes, same, head?, Bool-cases, Option-cases,
}
use reloadjs.Node.{Node, Sockets}
use reloadjs.Node.Tidy.{IsTidy, remove_connection-IsTidy}
use reloadjs.Transport.Signing.{Message, Judgment, dropped, accepted, receive}
use reloadjs.Dispatch.Handled.{handle_message-IsTidy}
use reloadjs.Listener.{
  Setup, incoming, handle_from, handle_judgment, handle_bytes, SocketEvent, came, closed, failed,
  ended, on_event, ChannelEvent, bytes_came, text_came, channel_closed, on_channel_event,
}

module _ (setup : Setup) (env : Sockets) (now socket : ℕ) where
  handle_from-IsTidy :
      (m : Message) (certificate : Option Text) (n : Node)
      → IsTidy n
      → IsTidy (handle_from setup env now socket m certificate n).1
  unfolding handle_from
  handle_from-IsTidy m none n t = t
  handle_from-IsTidy m (some certificate) n t =
      elim (Option-cases (setup.crypto.certificate_id certificate)) [
        | inl bad ↦ rw (bad, handle_from) t
        | inr (id, found) ↦
            rw (found, handle_from)
              (handle_message-IsTidy setup.initial_ttl env now socket (incoming m id certificate) n
                t)
      ]

  handle_judgment-IsTidy :
      (v : Option Judgment) (n : Node)
      → IsTidy n
      → IsTidy (handle_judgment setup env now socket v n).1
  unfolding handle_judgment
  handle_judgment-IsTidy none n t = t
  handle_judgment-IsTidy (some dropped) n t = t
  handle_judgment-IsTidy (some (accepted m)) n t =
      handle_from-IsTidy m (head? m.block.certificates) n t

  -- Whatever a socket tells, also bytes that are no message, the tables stay tidy.
  pub on_event-IsTidy :
      (event : SocketEvent) (n : Node) → IsTidy n → IsTidy (on_event setup env now socket event n).1
  unfolding on_event handle_bytes
  on_event-IsTidy (came bytes) n t = elim (Bool-cases (same bytes (codes "close"))) [
    | inl close ↦ rw (close, on_event) (remove_connection-IsTidy (some socket) n t)
    | inr message ↦
        rw (message, on_event)
          (handle_judgment-IsTidy (receive setup.buffers setup.crypto setup.sequence bytes) n t)
  ]
  on_event-IsTidy closed n t = remove_connection-IsTidy (some socket) n t
  on_event-IsTidy failed n t = remove_connection-IsTidy (some socket) n t
  on_event-IsTidy ended n t = t

  pub on_channel_event-IsTidy :
      (event : ChannelEvent) (n : Node)
      → IsTidy n
      → IsTidy (on_channel_event setup env now socket event n).1
  unfolding on_channel_event handle_bytes
  on_channel_event-IsTidy (bytes_came bytes) n t =
      handle_judgment-IsTidy (receive setup.buffers setup.crypto setup.sequence bytes) n t
  on_channel_event-IsTidy (text_came text) n t = elim (Bool-cases (same text (codes "close"))) [
    | inl close ↦ rw (close, on_channel_event) t
    | inr other ↦ rw (other, on_channel_event) t
  ]
  on_channel_event-IsTidy channel_closed n t = remove_connection-IsTidy (some socket) n t
