-- ===== src/Transport/Receiver/Unicast.antt =====
-- The fragments of a message at their destination: from packets to the message.
use networking_project_chat.Prelude.{
  ℕ, ◌<◌, ◌≡◌, ap, ◌∙◌, List, ◌++◌, some, false, length, arith, take_all,
}
use networking_project_chat.Packet.{Header, extract_header, add_header_to_payload}
use networking_project_chat.Packet.Fields.{Fits}
use networking_project_chat.Packet.RoundTrip.{
  extract_header-add_header_to_payload, truncate_of_Fits, drop-add_header_to_payload,
  length-add_header_to_payload,
}
use networking_project_chat.Routing.State.{Node}
use networking_project_chat.Transport.Receiver.{
  Receiver, on_packet_received, send_ack, accept_fragment, payload_of,
}

-- A packet with a header that fits and the payload that it announces is parsed back.
pub extract_header_of_Fits :
    (h : Header) (payload : List ℕ)
    → Fits h
    → extract_header (add_header_to_payload h payload) ≡ some h
extract_header_of_Fits h payload f =
    extract_header-add_header_to_payload h payload ∙ ap some (truncate_of_Fits h f)

pub payload_of-add_header_to_payload :
    (h : Header) (payload : List ℕ)
    → h.payload_length ≡ length payload
    → payload_of h (add_header_to_payload h payload) ≡ some payload
unfolding payload_of
payload_of-add_header_to_payload h payload e =
    rw
      (
        length-add_header_to_payload h payload,
        drop-add_header_to_payload h payload,
        take_all h.payload_length payload (omega arith),
      )
      (ground arith)

-- A fragment for this node is acknowledged to its source and handed to the reassembler.
pub on_packet_received_here :
    (h : Header) (payload : List ℕ) (me : ℕ) (n : Node) (rcv : Receiver)
    → Fits h
    → h.payload_length ≡ length payload
    → 0 < me
    → n.addressing.addr_file ≡ some me
    → h.dest_address ≡ me
    → on_packet_received (add_header_to_payload h payload) n rcv
      ≡ some (
        (send_ack h.message_id h.fragment_id h.source_address n).0
            ++ (accept_fragment h payload false rcv).0,
        n,
        (accept_fragment h payload false rcv).1,
      )
unfolding on_packet_received
on_packet_received_here h payload me n rcv f e pos file dest = ground (
  arith,
  length-add_header_to_payload h payload,
  extract_header_of_Fits h payload f,
  payload_of-add_header_to_payload h payload e,
)
