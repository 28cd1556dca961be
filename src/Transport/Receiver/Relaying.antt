-- ===== src/Transport/Receiver/Relaying.antt =====
-- Packets for other nodes and for all nodes.
use networking_project_chat.Prelude.{
  ℕ, ◌≡◌, ◌≢◌, refl, ◌∙◌, List, [], ◌∷◌, ◌++◌, some, true, false, length, arith, not, ◌==◌,
  if◌then◌else◌,
}
use networking_project_chat.Prelude.Assoc.{find}
use networking_project_chat.Packet.{Header, add_header_to_payload}
use networking_project_chat.Packet.Fields.{Fits}
use networking_project_chat.Packet.RoundTrip.{
  drop-add_header_to_payload, length-add_header_to_payload,
}
use networking_project_chat.Fragmentation.Reassembler.{Reassembler, insert_fragment, is_empty}
use networking_project_chat.MultihopRelay.{prepare_header_to_forward}
use networking_project_chat.Routing.Route.{Route}
use networking_project_chat.Routing.State.{Node}
use networking_project_chat.Transport.Receiver.{
  Effect, send, message_ready, Receiver, accept_fragment, send_broadcast, already_received,
  receive_broadcast, on_packet_received,
}
use networking_project_chat.Transport.Receiver.Unicast.{
  extract_header_of_Fits, payload_of-add_header_to_payload,
}

prepare_header_to_forward_lem :
    (h : Header) (payload : List ℕ) (n : Node) (r : Route)
    → Fits h
    → find h.dest_address n.routing_table ≡ some r
    → prepare_header_to_forward (add_header_to_payload h payload) n.routing_table
      ≡ some (add_header_to_payload (record h { next_hop_address = r.next_hop }) payload)
unfolding prepare_header_to_forward
prepare_header_to_forward_lem h payload n r f e =
    rw (extract_header_of_Fits h payload f, e, drop-add_header_to_payload h payload)

-- At a node with an address, a packet whose header's fields fit their bits and give the length of
-- its payload, that names this node as its next hop and is for one other node, to which there is a
-- route, is passed on once: with the route's next hop in place of this node, and every other field
-- and the payload as they were. The node and the receiver do not change.
pub on_packet_received_forwards :
    (h : Header) (payload : List ℕ) (me : ℕ) (n : Node) (rcv : Receiver) (r : Route)
    → Fits h
    → h.payload_length ≡ length payload
    → n.addressing.addr_file ≡ some me
    → h.next_hop_address ≡ me
    → h.dest_address ≢ me
    → h.dest_address ≢ 0
    → find h.dest_address n.routing_table ≡ some r
    → on_packet_received (add_header_to_payload h payload) n rcv
      ≡ some (
        send (add_header_to_payload (record h { next_hop_address = r.next_hop }) payload) ∷ [],
        n,
        rcv,
      )
unfolding on_packet_received
on_packet_received_forwards h payload me n rcv r f e file hop dest one route = ground (
  arith,
  length-add_header_to_payload h payload,
  extract_header_of_Fits h payload f,
  payload_of-add_header_to_payload h payload e,
  prepare_header_to_forward_lem h payload n r f route,
)

-- At a node with an address, a packet whose header's fields fit their bits and give the length of
-- its payload, and that is for one other node and of which this node is not the next hop, changes
-- nothing and nothing is sent.
pub on_packet_received_overhears :
    (h : Header) (payload : List ℕ) (me : ℕ) (n : Node) (rcv : Receiver)
    → Fits h
    → h.payload_length ≡ length payload
    → n.addressing.addr_file ≡ some me
    → h.next_hop_address ≢ me
    → h.dest_address ≢ me
    → h.dest_address ≢ 0
    → on_packet_received (add_header_to_payload h payload) n rcv ≡ some ([], n, rcv)
unfolding on_packet_received
on_packet_received_overhears h payload me n rcv f e file hop dest one = ground (
  arith,
  length-add_header_to_payload h payload,
  extract_header_of_Fits h payload f,
  payload_of-add_header_to_payload h payload e,
)

pub on_packet_received_broadcast :
    (h : Header) (payload : List ℕ) (me : ℕ) (n : Node) (rcv : Receiver)
    → Fits h
    → h.payload_length ≡ length payload
    → n.addressing.addr_file ≡ some me
    → h.dest_address ≡ 0
    → on_packet_received (add_header_to_payload h payload) n rcv
      ≡ some ((receive_broadcast h payload rcv).0, n, (receive_broadcast h payload rcv).1)
unfolding on_packet_received
on_packet_received_broadcast h payload me n rcv f e file all = ground (
  arith,
  length-add_header_to_payload h payload,
  extract_header_of_Fits h payload f,
  payload_of-add_header_to_payload h payload e,
)

-- A receiver that has a broadcast fragment among those seen.
abbrev pub seen_after : Header → Receiver → Receiver
seen_after h rcv = record rcv {
  seen_broadcasts = (h.message_id, h.fragment_id) ∷ rcv.seen_broadcasts;
}

pub receive_broadcast_first :
    (h : Header) (payload : List ℕ) (rcv : Receiver)
    → already_received h.message_id h.fragment_id rcv.seen_broadcasts ≡ false
    → receive_broadcast h payload rcv ≡ (
      send_broadcast h payload ++ (accept_fragment h payload true (seen_after h rcv)).0,
      (accept_fragment h payload true (seen_after h rcv)).1,
    )
unfolding receive_broadcast
receive_broadcast_first h payload rcv e = rw e

pub receive_broadcast_again :
    (h : Header) (payload : List ℕ) (rcv : Receiver)
    → already_received h.message_id h.fragment_id rcv.seen_broadcasts ≡ true
    → receive_broadcast h payload rcv ≡ ([], rcv)
unfolding receive_broadcast
receive_broadcast_again h payload rcv e = rw e

-- The fragment in the reassembler, as a packet brings it.
abbrev inserted : Header → List ℕ → Receiver → List ℕ × Reassembler
inserted h payload rcv =
    insert_fragment rcv.reassembler h.message_id h.fragment_id (not (h.more_fragments == 0)) payload

-- The message that the fragment completes, if it completes one.
abbrev pub completed : Header → List ℕ → Receiver → List Effect
completed h payload rcv =
    if is_empty (inserted h payload rcv).0
    then []
    else message_ready h.source_address (inserted h payload rcv).0 true ∷ []

-- The receiver with the fragment in its reassembler, and its numbers among those seen.
abbrev pub taken : Header → List ℕ → Receiver → Receiver
taken h payload rcv = record {
  reassembler = (inserted h payload rcv).1;
  seen_broadcasts = (h.message_id, h.fragment_id) ∷ rcv.seen_broadcasts;
}

accepted_lem :
    (h : Header) (payload : List ℕ) (rcv : Receiver)
    → accept_fragment h payload true (seen_after h rcv)
      ≡ (completed h payload rcv, taken h payload rcv)
unfolding accept_fragment
accepted_lem h payload rcv = refl

already_received_after :
    (h : Header) (payload : List ℕ) (rcv : Receiver)
    → already_received h.message_id h.fragment_id (taken h payload rcv).seen_broadcasts ≡ true
unfolding already_received
already_received_after h payload rcv = ground arith

-- At a node with an address, two broadcast packets whose headers' fields fit their bits and give
-- the length of their payloads, with the same message and fragment number, which have not been
-- seen: the first is sent on, as often as the node tries, its payload goes into the reassembler, the
-- message that it completes, if any, is delivered after that, and its numbers are seen. When the second comes next, from whatever node and with whatever payload, nothing is
-- sent or delivered, and nothing changes.
pub on_packet_received_floods_once :
    (h h' : Header) (payload payload' : List ℕ) (me : ℕ) (n : Node) (rcv : Receiver)
    → Fits h
    → Fits h'
    → h.payload_length ≡ length payload
    → h'.payload_length ≡ length payload'
    → n.addressing.addr_file ≡ some me
    → h.dest_address ≡ 0
    → h'.dest_address ≡ 0
    → h'.message_id ≡ h.message_id
    → h'.fragment_id ≡ h.fragment_id
    → already_received h.message_id h.fragment_id rcv.seen_broadcasts ≡ false
    → (on_packet_received (add_header_to_payload h payload) n rcv
        ≡ some (send_broadcast h payload ++ completed h payload rcv, n, taken h payload rcv))
      × (on_packet_received (add_header_to_payload h' payload') n (taken h payload rcv)
          ≡ some ([], n, taken h payload rcv))
on_packet_received_floods_once h h' payload payload' me n rcv f f' e e' file all all' same same'
      new =
    (
      on_packet_received_broadcast h payload me n rcv f e file all
          ∙ rw (receive_broadcast_first h payload rcv new, accepted_lem h payload rcv),
      on_packet_received_broadcast h' payload' me n (taken h payload rcv) f' e' file all'
          ∙ rw (
              receive_broadcast_again h' payload' (taken h payload rcv)
                (rw (same, same') (already_received_after h payload rcv))),
    )
