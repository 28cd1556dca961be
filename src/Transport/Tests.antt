-- ===== src/Transport/Tests.antt =====
-- Sending and receiving at concrete nodes.
mod EndToEnd
mod Flooding
mod ToAll
use networking_project_chat.Prelude.{
  ℕ, ◌≡◌, ◌≢◌, refl, List, [], ◌∷◌, ◌++◌, none, some, true, false, ◌==◌, if◌then◌else◌, arith, ◌<◌,
  map, replicate, elem,
}
use networking_project_chat.Prelude.Assoc.{find}
use networking_project_chat.Packet.{Header, build_header}
use networking_project_chat.Fragmentation.Fragmenter.{total_fragments, fragment_message}
use networking_project_chat.Routing.Route.{Route}
use networking_project_chat.Routing.State.{Node, resume_protocol}
use networking_project_chat.Transport.Receiver.{
  Receiver, new_receiver, send, message_ready, on_packet_received, ack_header, send_ack,
}
use networking_project_chat.Transport.Receiver.Rounds.{received, receive_all_rounds}
use networking_project_chat.Transport.Receiver.Delivery.{packet_nth, receive_all}
use networking_project_chat.Transport.Sender.{Sender, handle_ack, send_with_retry}
use networking_project_chat.Transport.Sender.Acks.{handle_ack-ack_header}
use networking_project_chat.Transport.Sender.Retries.{
  packet_of, paused, send_with_retry-ack_header, send_with_retry_ninth,
}
use networking_project_chat.MessageQueue.Seen.{messages_of}
use networking_project_chat.Transport.Manager.{TransportManager, run_callbacks}
use networking_project_chat.Transport.Manager.Numbers.{
  Outgoing, send_messages, next_msg_id-send_messages, delivered, queued, messages_of-run_callbacks,
}
use networking_project_chat.Packet.{add_header_to_payload}
use networking_project_chat.Packet.Fields.{Fits}
use networking_project_chat.Transport.Receiver.{Effect, send_broadcast, already_received}
use networking_project_chat.Transport.Receiver.Relaying.{
  on_packet_received_forwards, on_packet_received_overhears, on_packet_received_floods_once,
  completed, taken,
}

abbrev pub route_to_two : Route
route_to_two = record { next_hop = 3; cost = 2; destination_node = 2; ttl = 40 }

abbrev pub node_with_address : ℕ → Node
node_with_address me = record {
  addressing = record { addr_file = some me; addr_in_use = []; reachable_nodes = [] };
  routing_table = (2, route_to_two) ∷ [];
  neighbors = [];
  pause_flag = false;
  broadcast_to = 10;
  first_table_received = true;
  wait_first_echo_recv_to = 0;
  update_broadcast_pending = false;
  broadcast_threads = 0;
  resume_timers = 0;
}

abbrev pub thirty : List ℕ
thirty = replicate 30 65

all_come : (j : ℕ) → j < total_fragments thirty → elem j (0 ∷ 1 ∷ 1 ∷ []) ≡ true
unfolding total_fragments
all_come j h = grind arith

pub thirty_fragments : total_fragments thirty ≡ 2
unfolding total_fragments
thirty_fragments = refl

-- The second fragment comes twice, then the first, twice, and the second again.
receive_all_rounds_example :
    (end : Receiver) × (receive_all
        (fragment_message thirty 1 2 3 5 1)
        (1 ∷ 1 ∷ 0 ∷ 0 ∷ 1 ∷ [])
        (node_with_address 2)
        new_receiver
      ≡ some (
        received
            (total_fragments thirty)
            (λ i. (send_ack 5 i 1 (node_with_address 2)).0)
            (message_ready 1 thirty false ∷ [])
            []
            (1 ∷ 1 ∷ 0 ∷ 0 ∷ 1 ∷ []),
        node_with_address 2,
        end,
      ))
    × (end.seen_broadcasts ≡ [])
    × ((k : ℕ) → k ≢ 5 → find k end.reassembler.buffers ≡ find k [])
receive_all_rounds_example =
    receive_all_rounds thirty 1 2 3 5 1 (node_with_address 2) (omega (arith, thirty_fragments))
      (omega arith) (omega arith) (omega arith) (omega arith) (omega arith) (omega arith) refl
      new_receiver (1 ∷ 1 ∷ 0 ∷ 0 ∷ 1 ∷ []) (omega (arith, thirty_fragments)) (unfold find in refl)
      (omega (arith, thirty_fragments))

abbrev header_to_two : Header
header_to_two = record {
  fragment_id = 0;
  source_address = 0;
  next_hop_address = 0;
  dest_address = 2;
  more_fragments = 0;
  message_id = 4;
  type = 1;
  payload_length = 0;
}

abbrev pub sender_of : ℕ → Sender
sender_of msg_id = record { ack_received = false; current_msg_id = msg_id; current_fragment_id = 0 }

abbrev answer_to : ℕ → List ℕ
answer_to msg_id = build_header (ack_header 2 3 msg_id 0 1)

send_with_retry_ninth_example :
    send_with_retry
      (λ i. answer_to 8 ∷ [])
      header_to_two
      (72 ∷ 105 ∷ [])
      (sender_of 8)
      (node_with_address 1)
    ≡ some (record {
      effects = replicate 7 (send (packet_of 1 route_to_two header_to_two (72 ∷ 105 ∷ [])));
      sender = sender_of 8;
      node = resume_protocol (paused (node_with_address 1));
    })
send_with_retry_ninth_example =
    send_with_retry_ninth (λ i. answer_to 8 ∷ []) header_to_two (72 ∷ 105 ∷ []) (sender_of 8)
      (node_with_address 1) 1 route_to_two refl refl (unfold find in refl) 2 3 (omega arith)
      (omega arith) (omega arith) (λ j. refl)

abbrev manager : TransportManager
manager = record {
  sender = sender_of 0;
  receiver = new_receiver;
  next_msg_id = 254;
  msg_queue = record { message_queue = [] };
}

-- A message of node 3, delivered at node 2, is queued under 2.
messages_of-run_callbacks_example :
    messages_of 2
      (run_callbacks
        (message_ready 3 (72 ∷ []) false ∷ [])
        (node_with_address 2)
        manager).2.msg_queue
    ≡ messages_of 2 manager.msg_queue ++ queued 2 (72 ∷ []) ∷ []
unfolding delivered
messages_of-run_callbacks_example =
    messages_of-run_callbacks (message_ready 3 (72 ∷ []) false ∷ []) (node_with_address 2) manager 2
      2 refl

-- The header of a packet of node 3, with two bytes of payload.
abbrev header_of_three : ℕ → ℕ → Header
header_of_three next_hop dest = record {
  fragment_id = 0;
  source_address = 3;
  next_hop_address = next_hop;
  dest_address = dest;
  more_fragments = 0;
  message_id = 4;
  type = 1;
  payload_length = 2;
}

header_of_three-Fits :
    (next_hop dest : ℕ) → next_hop < 8 → dest < 8 → Fits (header_of_three next_hop dest)
header_of_three-Fits next_hop dest p q = ground arith

on_packet_received_forwards_example :
    on_packet_received
      (add_header_to_payload (header_of_three 1 2) (72 ∷ 105 ∷ []))
      (node_with_address 1)
      new_receiver
    ≡ some (
      send (add_header_to_payload (header_of_three 3 2) (72 ∷ 105 ∷ [])) ∷ [],
      node_with_address 1,
      new_receiver,
    )
on_packet_received_forwards_example =
    on_packet_received_forwards (header_of_three 1 2) (72 ∷ 105 ∷ []) 1 (node_with_address 1)
      new_receiver route_to_two (header_of_three-Fits 1 2 (omega arith) (omega arith)) refl refl
      refl (omega arith) (omega arith) (unfold find in refl)

-- The second broadcast is another node's.
on_packet_received_floods_once_example :
    (on_packet_received
        (add_header_to_payload (header_of_three 0 0) (72 ∷ 105 ∷ []))
        (node_with_address 1)
        new_receiver
      ≡ some (
        send_broadcast (header_of_three 0 0) (72 ∷ 105 ∷ [])
            ++ completed (header_of_three 0 0) (72 ∷ 105 ∷ []) new_receiver,
        node_with_address 1,
        taken (header_of_three 0 0) (72 ∷ 105 ∷ []) new_receiver,
      ))
    × (on_packet_received
          (add_header_to_payload (record (header_of_three 0 0) { source_address = 2 }) (7 ∷ 8 ∷ []))
          (node_with_address 1)
          (taken (header_of_three 0 0) (72 ∷ 105 ∷ []) new_receiver)
        ≡ some ([], node_with_address 1, taken (header_of_three 0 0) (72 ∷ 105 ∷ []) new_receiver))
on_packet_received_floods_once_example =
    on_packet_received_floods_once (header_of_three 0 0)
      (record (header_of_three 0 0) { source_address = 2 }) (72 ∷ 105 ∷ []) (7 ∷ 8 ∷ []) 1
      (node_with_address 1) new_receiver (header_of_three-Fits 0 0 (omega arith) (omega arith))
      (ground arith) refl refl refl refl refl refl refl (unfold already_received in refl)
