-- ===== src/Tests/Events.antt =====
-- A message of one peer at the socket of another.
use reloadjs.Base.{ℕ, ◌≡◌, refl, true, false, List, [], ◌∷◌, some, arith, codes}
use reloadjs.Transport.Header.{node_id, Header, new_message}
use reloadjs.Transport.Wire.{fits}
use reloadjs.Transport.Wire.RoundTrip.{read_back}
use reloadjs.Transport.Signing.Accepted.{IsSendable}
use reloadjs.Node.{◌>>◌, update_answer}
use reloadjs.Peers.{add_connection}
use reloadjs.Listener.Addressed.{on_event-addressed}
use reloadjs.Dispatch.{handle_message_type, handle_message}
use reloadjs.Listener.{Setup, came, on_event, Drawn, content_of, of_content, sent_bytes}
use reloadjs.Listener.Heard.{IsDrawn, on_event-sent_bytes}
use reloadjs.Tests.Buffer.{octets, octets-IsSmartBuffer}
use reloadjs.Tests.Data.{upper, lower, local_id, settings, small_node, one_broken}
use reloadjs.Tests.Sealed.{toy_crypto, toy_crypto-IsCrypto, me, me-IsPlain, me-IsKeyPair, me_known}

abbrev setup : Setup
setup = record { buffers = octets; crypto = toy_crypto; sequence = codes "1"; initial_ttl = 100 }

abbrev drawn : Drawn
drawn = record {
  ips = codes "10.0.0.1" ∷ [];
  port = 6084;
  number = 7;
  time = codes "12";
  start = codes "13";
}

drawn-IsDrawn : IsDrawn drawn
drawn-IsDrawn = record { port = omega arith; number = omega arith }

-- The header of a message from `upper` to the small node.
abbrev head : Header
head = record {
  relo_token = 0xd2454c4f;
  overlay = codes "overlay";
  configuration_sequence = codes "1";
  version = 1;
  ttl = 100;
  fragment_head_value = 0x8000;
  fragment_offset = 0;
  message_length = 0;
  transaction = 42;
  max_response_length = 5000;
  via_list_length = 0;
  destination_list_length = 0;
  options_length = 0;
  via_list = node_id upper ∷ [];
  destination_list = node_id local_id ∷ [];
  options = record {
    is_forward_critical = false;
    is_destination_critical = false;
    is_response_copy = false;
  };
}

head_made : new_message settings upper 42 (node_id local_id ∷ []) ≡ some head
unfolding new_message
head_made = refl

head-IsSendable :
    IsSendable octets head (content_of drawn (update_answer (lower ∷ []) (upper ∷ [])))
unfolding fits content_of
head-IsSendable = record {
  fit = refl;
  overlay = ground arith;
  sequence = ground arith;
  via_list = ground arith;
  destination_list = ground arith;
  content = ground arith;
}

on_event-sent_bytes_example :
    (bytes : List ℕ) × (sent_bytes octets toy_crypto me settings upper 42 drawn
        (update_answer (lower ∷ []) (upper ∷ []))
        (node_id local_id ∷ [])
      ≡ some bytes)
    × (on_event setup one_broken 9 2 (came bytes) small_node
        ≡ handle_message 100 one_broken 9 2
            (record {
              header = read_back octets head;
              dist_id = upper;
              certificate = me.certificate;
              signed = true;
              content = of_content (content_of drawn (update_answer (lower ∷ []) (upper ∷ [])));
            })
            small_node)
on_event-sent_bytes_example =
    on_event-sent_bytes setup octets-IsSmartBuffer toy_crypto-IsCrypto me me-IsPlain me-IsKeyPair
      upper me_known settings upper 42 drawn (update_answer (lower ∷ []) (upper ∷ []))
      (node_id local_id ∷ []) head one_broken 9 2 small_node head_made refl drawn-IsDrawn
      head-IsSendable

on_event-addressed_example :
    (bytes : List ℕ) × (sent_bytes octets toy_crypto me settings upper 42 drawn
        (update_answer (lower ∷ []) (upper ∷ []))
        (node_id local_id ∷ [])
      ≡ some bytes)
    × (on_event setup one_broken 9 2 (came bytes) small_node
        ≡ (add_connection one_broken upper 2 me.certificate false
              >> handle_message_type one_broken 9
                  (read_back octets head)
                  upper
                  (of_content (content_of drawn (update_answer (lower ∷ []) (upper ∷ [])))))
            small_node)
on_event-addressed_example =
    on_event-addressed setup octets-IsSmartBuffer toy_crypto-IsCrypto me me-IsPlain me-IsKeyPair
      upper me_known settings upper 42 drawn (update_answer (lower ∷ []) (upper ∷ [])) head
      one_broken 9 2 small_node head_made refl drawn-IsDrawn head-IsSendable
