-- ===== src/Tests/Messages.antt =====
-- Messages on their way, and their headers.
use reloadjs.Base.{◌≤◌, ◌+◌, ◌≡◌, ◌⊎◌, refl, inl, [], ◌∷◌, ◌++◌, reverse, some, arith, same}
use reloadjs.Ids.{convert_node_id, get_distance, distance}
use reloadjs.Transport.Header.{node_id, new_response_message, to_forward, is_zero_number}
use reloadjs.Node.{forward}
use reloadjs.Node.Connections.{is_neighbor, get_connection, find_connection, send}
use reloadjs.Forwarding.{
  process_destination, decide_valid, verdict_for, is_valid_destination, is_local_peer_responsible,
  nearer_neighbor, act, forward_message, forward_to, own_distance, topology_responsible, forwarded,
  processed, verdict, handle_forwarding,
}
use reloadjs.Forwarding.Verdicts.{
  IsNextOf, to_forward-IsNextOf, OnlyForwards, handle_forwarding-OnlyForwards,
}
use reloadjs.Forwarding.Hops.{Travel, arrived, passed, Travel-ttl, response_returns}
use reloadjs.Transport.Wire.{serialize, deserialize, fits, header_bytes}
use reloadjs.Transport.Wire.RoundTrip.{read_back, deserialize-serialize}
use reloadjs.Tests.Buffer.{octets, octets-IsSmartBuffer}
use reloadjs.Tests.Data.{local_id, upper, small_node, one_broken, five_left, four_left, settings}

five_left_forwarded : verdict 100 small_node five_left ≡ forwarded
unfolding verdict decide_valid verdict_for processed process_destination is_valid_destination
    is_local_peer_responsible topology_responsible nearer_neighbor own_distance get_distance
    distance convert_node_id is_neighbor get_connection find_connection same is_zero_number
five_left_forwarded = refl

five_left_done :
    (handle_forwarding 100 one_broken five_left small_node).1.done ≡ forward 2 four_left ∷ []
unfolding handle_forwarding act forward_message forward_to to_forward processed process_destination
    get_connection find_connection send same is_zero_number
five_left_done = rw five_left_forwarded refl

handle_forwarding-OnlyForwards_example :
    OnlyForwards local_id
      (processed small_node five_left)
      []
      (handle_forwarding 100 one_broken five_left small_node).1
handle_forwarding-OnlyForwards_example =
    handle_forwarding-OnlyForwards 100 one_broken five_left small_node

to_forward_four :
    to_forward local_id (record five_left { destination_list = node_id upper ∷ [] })
    ≡ some four_left
unfolding to_forward is_zero_number
to_forward_four = refl

to_forward-IsNextOf_example :
    IsNextOf local_id (record five_left { destination_list = node_id upper ∷ [] }) four_left
to_forward-IsNextOf_example =
    to_forward-IsNextOf local_id (record five_left { destination_list = node_id upper ∷ [] })
      four_left to_forward_four

one_hop : Travel 100 (local_id ∷ []) five_left four_left
one_hop = passed four_left one_broken small_node 2 refl (rw five_left_done (inl refl)) arrived

Travel-ttl_example :
    (four_left.ttl + 1 ≡ five_left.ttl)
    × ((local_id ∷ [] ≡ []) ⊎ ((1 ≤ four_left.ttl) × (five_left.ttl ≤ 100)))
Travel-ttl_example = Travel-ttl one_hop

response_returns_example :
    (new_response_message settings upper four_left).destination_list
    ≡ reverse (node_id local_id ∷ []) ++ reverse five_left.via_list
response_returns_example = response_returns settings upper one_hop

five_left_fits : serialize octets five_left (7 ∷ []) ≡ some (header_bytes octets five_left (7 ∷ []))
unfolding serialize fits header_bytes
five_left_fits = refl

deserialize-serialize_example :
    deserialize octets (header_bytes octets five_left (7 ∷ []))
    ≡ some (read_back octets five_left, 7 ∷ [])
deserialize-serialize_example =
    deserialize-serialize octets octets-IsSmartBuffer five_left (7 ∷ [])
      (header_bytes octets five_left (7 ∷ [])) five_left_fits (ground arith) (ground arith)
      (ground arith) (ground arith)
