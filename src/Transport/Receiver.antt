-- ===== src/Transport/Receiver.antt =====
-- src/backend/transport/StopAndWaitReceiver.cpp. A packet handed to `sendFunc` and a message handed
-- to `onMessageReady` are effects. Sleeps and output are left out; `none` is undefined behaviour.
pub mod Unicast
pub mod Delivery
pub mod Rounds
pub mod Relaying
pub mod Firsts
pub mod FloodOnce
pub mod Flooding
use networking_project_chat.Prelude.{
  ℕ, zero, suc, ◌+◌, ◌-◌, List, [], ◌∷◌, ◌++◌, Option, none, some, Bool, true, false, not, ◌&&◌,
  ◌||◌, ◌==◌, ltb, leb, u8, length, take, drop, map, ◌>>=◌, if◌then◌else◌,
}
use networking_project_chat.Prelude.Assoc.{find, contains}
use networking_project_chat.Packet.{
  Header, ack, build_header, extract_header, add_header_to_payload,
}
use networking_project_chat.MultihopRelay.{prepare_header_to_forward}
use networking_project_chat.Fragmentation.Reassembler.{
  Reassembler, no_buffers, is_empty, insert_fragment,
}
use networking_project_chat.Addressing.{Addressing, get_my_addr}
use networking_project_chat.Routing.Route.{Route, Table}
use networking_project_chat.Routing.State.{Node}

pub data Effect : Type 0 where
  send : List ℕ → Effect
  message_ready : ℕ → List ℕ → Bool → Effect

pub record Receiver : Type 0 where
  pub reassembler : Reassembler
  pub seen_broadcasts : List (ℕ × ℕ)

abbrev pub new_receiver : Receiver
new_receiver = record { reassembler = no_buffers; seen_broadcasts = [] }

abbrev pub max_bcast_tries : ℕ
max_bcast_tries = 5

-- `seenBroadcasts.count(id) > 0`.
unfoldable pub already_received : ℕ → ℕ → List (ℕ × ℕ) → Bool
already_received msg_id frag_id [] = false
already_received msg_id frag_id ((m, f) ∷ seen) =
    m == msg_id && f == frag_id || already_received msg_id frag_id seen

-- The loop of `sendBroadcast`, with that many tries left.
unfoldable pub broadcast_tries : ℕ → Header → List ℕ → List Effect
broadcast_tries zero header payload = []
broadcast_tries (suc left) header payload =
    send (
      add_header_to_payload
        (record header { next_hop_address = 0; payload_length = u8 (length payload) }) payload)
    ∷ broadcast_tries left header payload

-- `tries_count` runs from 1 to below `MAX_BCAST_TRIES`.
unfoldable pub send_broadcast : Header → List ℕ → List Effect
unfolding broadcast_tries
send_broadcast header payload = broadcast_tries (max_bcast_tries - 1) header payload

unfoldable pub ack_header : ℕ → ℕ → ℕ → ℕ → ℕ → Header
ack_header my_addr next_hop msg_id frag_id dest = record {
  message_id = msg_id;
  fragment_id = frag_id;
  type = ack;
  source_address = my_addr;
  dest_address = dest;
  next_hop_address = next_hop;
  more_fragments = 0;
  payload_length = 0;
}

-- With no route to the source of the fragment, no acknowledgement is sent.
unfoldable pub send_ack : ℕ → ℕ → ℕ → Node → List Effect × Node
unfolding get_my_addr ack_header
send_ack msg_id frag_id dest n =
    let (my_addr, a) = get_my_addr n.addressing in
    (
      elim (find dest n.routing_table) [
        | none ↦ []
        | some r ↦ send (build_header (ack_header my_addr r.next_hop msg_id frag_id dest)) ∷ []
      ],
      record n { addressing = a },
    )

-- `payload(packet.begin() + 4, packet.begin() + payload_length + 4)`.
unfoldable pub payload_of : Header → List ℕ → Option (List ℕ)
payload_of h packet =
    if leb (h.payload_length + 4) (length packet)
    then some (take h.payload_length (drop 4 packet))
    else none

-- The end of `onPacketReceived`: the fragment goes to the reassembler.
unfoldable pub accept_fragment : Header → List ℕ → Bool → Receiver → List Effect × Receiver
accept_fragment h payload is_broadcast rcv =
    let (full, r) =
      insert_fragment rcv.reassembler h.message_id h.fragment_id (not (h.more_fragments == 0))
        payload in
    (
      if is_empty full then [] else message_ready h.source_address full is_broadcast ∷ [],
      record rcv { reassembler = r },
    )

-- A packet for all nodes.
unfoldable pub receive_broadcast : Header → List ℕ → Receiver → List Effect × Receiver
unfolding already_received send_broadcast accept_fragment
receive_broadcast h payload rcv =
    if already_received h.message_id h.fragment_id rcv.seen_broadcasts
    then ([], rcv)
    else (let seen = record rcv {
      seen_broadcasts = (h.message_id, h.fragment_id) ∷ rcv.seen_broadcasts;
    } in
        let (ready, rcv') = accept_fragment h payload true seen in
        (send_broadcast h payload ++ ready, rcv'))

-- A packet for one node, which may be another.
unfoldable pub receive_unicast :
    ℕ → Header → List ℕ → List ℕ → Node → Receiver → Option (List Effect × Node × Receiver)
unfolding send_ack accept_fragment
receive_unicast me h packet payload n rcv =
    if h.next_hop_address == me && not (h.dest_address == me)
    then (do
      forwarded ← prepare_header_to_forward packet n.routing_table
      some (send forwarded ∷ [], n, rcv))
    else if not (h.next_hop_address == me) && not (h.dest_address == me)
    then some ([], n, rcv)
    else (let (acks, n') = send_ack h.message_id h.fragment_id h.source_address n in
        let (ready, rcv') = accept_fragment h payload false rcv in some (acks ++ ready, n', rcv'))

unfoldable pub on_packet_received :
    List ℕ → Node → Receiver → Option (List Effect × Node × Receiver)
unfolding get_my_addr payload_of receive_broadcast receive_unicast
on_packet_received packet n rcv = if ltb (length packet) 4 then some ([], n, rcv) else (do
  h ← extract_header packet
  let (me, a) = get_my_addr n.addressing
  let n : Node = record n { addressing = a }
  payload ← payload_of h packet
  if h.dest_address == 0
      then (let (effects, rcv') = receive_broadcast h payload rcv in some (effects, n, rcv'))
      else receive_unicast me h packet payload n rcv)
