-- ===== src/Transport/Sender.antt =====
-- src/backend/transport/StopAndWaitSender.cpp. `arrivals i k` are the packets that reach `handleAck`
-- during the k-th wait for fragment number i; a wait ends when `ackReceived` holds, or after
-- 25 seconds. `none` is undefined behaviour.
pub mod Acks
pub mod Fragments
pub mod Retries
pub mod Broadcasts
use networking_project_chat.Prelude.{
  ℕ, zero, suc, ◌+◌, ◌-◌, List, [], ◌∷◌, ◌++◌, Option, none, some, Bool, true, false, not, ◌&&◌,
  ◌==◌, u8, length, ◌>>=◌, if◌then◌else◌,
}
use networking_project_chat.Prelude.Assoc.{find}
use networking_project_chat.Packet.{Header, extract_header, add_header_to_payload}
use networking_project_chat.MultihopRelay.{prepare_header_to_forward}
use networking_project_chat.Addressing.{get_my_addr}
use networking_project_chat.Routing.Route.{Route, Table}
use networking_project_chat.Routing.State.{Node, pause_protocol, resume_protocol}
use networking_project_chat.Transport.Receiver.{max_bcast_tries, Effect, send}

pub record Sender : Type 0 where
  pub ack_received : Bool
  pub current_msg_id : ℕ
  pub current_fragment_id : ℕ

-- The constructor does not set the two numbers: they are what the memory holds.
unfoldable pub stop_and_wait_sender : ℕ → ℕ → Sender
stop_and_wait_sender msg_id fragment_id = record {
  ack_received = false;
  current_msg_id = msg_id;
  current_fragment_id = fragment_id;
}

-- What a call sends, and the state after it.
pub record Sent : Type 0 where
  pub effects : List Effect
  pub sender : Sender
  pub node : Node

unfoldable pub handle_ack : List ℕ → Sender → Node → Option Sent
unfolding get_my_addr
handle_ack packet s n = do
  h ← extract_header packet
  let (my_addr, a) = get_my_addr n.addressing
  let n : Node = record n { addressing = a }
  effects ←
      if not (h.dest_address == my_addr) && h.next_hop_address == my_addr
      then (do
        forwarded ← prepare_header_to_forward packet n.routing_table
        some (send forwarded ∷ []))
      else some []
  let s : Sender =
      if h.message_id == s.current_msg_id && h.fragment_id == s.current_fragment_id
      then record s { ack_received = true }
      else s
  some (record { effects = effects; sender = s; node = n })

-- The packets that arrive during one wait, in turn.
unfoldable pub handle_acks : List (List ℕ) → Sender → Node → Option Sent
unfolding handle_ack
handle_acks [] s n = some (record { effects = []; sender = s; node = n })
handle_acks (packet ∷ packets) s n = do
  first ← handle_ack packet s n
  rest ← handle_acks packets first.sender first.node
  some (record rest { effects = first.effects ++ rest.effects })

abbrev pub max_retries : ℕ
max_retries = 7

-- The loop of `sendWithRetry`, with that many attempts left.
unfoldable pub attempts_from : ℕ → ℕ → (ℕ → List (List ℕ)) → List ℕ → Sender → Node → Option Sent
unfolding handle_acks resume_protocol
attempts_from zero k arrivals packet s n =
    some (record { effects = []; sender = s; node = resume_protocol n })
attempts_from (suc left) k arrivals packet s n = do
  waited ← handle_acks (arrivals k) s n
  let again = attempts_from left (k + 1) arrivals packet waited.sender waited.node
  let effects : List Effect = send packet ∷ waited.effects
  if waited.sender.ack_received
      then some (record waited { effects = effects })
      else (do rest ← again; some (record rest { effects = effects ++ rest.effects }))

-- Sending one fragment, once the header carries the node's address.
unfoldable pub send_unicast : (ℕ → List (List ℕ)) → Header → List ℕ → Sender → Node → Option Sent
send_unicast arrivals h payload s n = elim (find h.dest_address n.routing_table) [
  | none ↦ some (record { effects = []; sender = s; node = n })
  | some r ↦
      attempts_from max_retries 0 arrivals
        (add_header_to_payload
          (record h { next_hop_address = r.next_hop; payload_length = u8 (length payload) })
          payload)
        (record s { ack_received = false }) n
]

-- The loop of the sender's own `sendBroadcast`, with that many tries left.
unfoldable pub sender_broadcast_tries : ℕ → Header → List ℕ → List Effect
sender_broadcast_tries zero header payload = []
sender_broadcast_tries (suc left) header payload =
    send (
      add_header_to_payload
        (record header { next_hop_address = 0; payload_length = u8 (length payload) }) payload)
    ∷ sender_broadcast_tries left header payload

unfoldable pub sender_send_broadcast : Header → List ℕ → List Effect
unfolding sender_broadcast_tries
sender_send_broadcast header payload = sender_broadcast_tries (max_bcast_tries - 1) header payload

unfoldable pub send_with_retry : (ℕ → List (List ℕ)) → Header → List ℕ → Sender → Node → Option Sent
unfolding get_my_addr send_unicast sender_send_broadcast pause_protocol
send_with_retry arrivals h payload s n =
    let n : Node = if n.pause_flag then n else pause_protocol n in
    let (my_addr, a) = get_my_addr n.addressing in
    let n : Node = record n { addressing = a } in
    let h : Header = record h { source_address = my_addr } in
    if h.dest_address == 0
    then some (record { effects = sender_send_broadcast h payload; sender = s; node = n })
    else send_unicast arrivals h payload s n

unfoldable pub send_fragments :
    ℕ → (ℕ → ℕ → List (List ℕ)) → List (Header × List ℕ) → Sender → Node → Option Sent
unfolding send_with_retry
send_fragments i arrivals [] s n = some (record { effects = []; sender = s; node = n })
send_fragments i arrivals ((h, payload) ∷ fragments) s n = do
  let s : Sender = record s { current_msg_id = h.message_id; current_fragment_id = h.fragment_id }
  first ← send_with_retry (arrivals i) h payload s n
  rest ← send_fragments (i + 1) arrivals fragments first.sender first.node
  some (record rest { effects = first.effects ++ rest.effects })
