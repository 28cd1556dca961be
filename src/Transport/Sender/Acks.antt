-- ===== src/Transport/Sender/Acks.antt =====
-- Which packets `handleAck` takes for the acknowledgement that the sender waits for.
use networking_project_chat.Prelude.{
  ℕ, ◌%◌, ◌<◌, ◌≡◌, ap, sym, ◌∙◌, [], some, true, ◌&&◌, ◌==◌, arith, if◌then◌else◌,
}
use networking_project_chat.Packet.{Header, build_header, extract_header, add_header_to_payload}
use networking_project_chat.Packet.Fields.{truncate}
use networking_project_chat.Packet.RoundTrip.{extract_header-add_header_to_payload}
use networking_project_chat.Routing.State.{Node}
use networking_project_chat.Transport.Receiver.{ack_header}
use networking_project_chat.Transport.Sender.{Sender, handle_ack}
use mathlib.Core.List.{append-nil}

extract_header-build_header : (h : Header) → extract_header (build_header h) ≡ some (truncate h)
extract_header-build_header h =
    ap extract_header (sym same) ∙ extract_header-add_header_to_payload h []
  where
    same : add_header_to_payload h [] ≡ build_header h
    same = unfold add_header_to_payload in append-nil (build_header h)

-- The acknowledgement that a receiver builds for a fragment, when it reaches the node that it is
-- for, whose address is from 1 to 7: it is taken for the one that the sender waits for exactly when
-- the sender's numbers are those that the acknowledgement carries, which are cut to 3 and 11 bits.
-- Nothing is sent.
pub handle_ack-ack_header :
    (other hop msg_id frag_id me : ℕ) (s : Sender) (n : Node)
    → 0 < me
    → me < 8
    → n.addressing.addr_file ≡ some me
    → handle_ack (build_header (ack_header other hop msg_id frag_id me)) s n
      ≡ some (record {
        effects = [];
        sender =
            if msg_id % 8 == s.current_msg_id && frag_id % 2048 == s.current_fragment_id
            then record s { ack_received = true }
            else s;
        node = n;
      })
unfolding handle_ack ack_header truncate
handle_ack-ack_header other hop msg_id frag_id me s n pos fits file =
    ground (arith, extract_header-build_header (ack_header other hop msg_id frag_id me))
