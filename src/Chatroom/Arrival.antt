-- ===== src/Chatroom/Arrival.antt =====
-- From a data frame to the message queue (src/frontend/Chatroom/main.cpp, src/backend/transport).
use networking_project_chat.Prelude.{
  ℕ, ◌<◌, ◌≤◌, ◌≡◌, refl, ap, ◌∙◌, ◌⊎◌, inl, inr, Option-cases, List, [], ◌∷◌, ◌++◌, none, some,
  true, false, ◌==◌, arith, if◌then◌else◌, map, All, elem, ==_refl,
}
use networking_project_chat.Prelude.Assoc.{find}
use networking_project_chat.Addressing.{get_my_addr}
use networking_project_chat.Packet.{Header, build_header, extract_header, echo, data_packet}
use networking_project_chat.Packet.Fields.{truncate}
use networking_project_chat.Packet.RoundTrip.{extract_header-add_header_to_payload}
use networking_project_chat.Network.Messages.{data_frame, Message}
use networking_project_chat.Fragmentation.Fragmenter.{total_fragments, fragment_message}
use networking_project_chat.Fragmentation.Chunks.{chunk, header_at, get_elem?-fragment_message}
use networking_project_chat.MessageQueue.Seen.{messages_of}
use networking_project_chat.Routing.State.{Node, pause_protocol}
use networking_project_chat.Transport.Receiver.{
  Receiver, Effect, ack_header, send, message_ready, send_ack, on_packet_received,
}
use networking_project_chat.Transport.Receiver.Delivery.{
  packet_nth, receive_all, receive_all_delivers,
}
use networking_project_chat.Transport.Manager.{
  TransportManager, run_callbacks, manager_on_packet_received,
}
use networking_project_chat.Transport.Manager.Numbers.{delivered, queued, messages_of-run_callbacks}
use networking_project_chat.Chatroom.{App, show_messages, handle_data, handle_message}

-- The frame that carries a packet.
abbrev pub frame_of : List ℕ → Message
frame_of packet = record { type = data_frame; content = packet }

packet_type :
    (message : List ℕ) (src me next_hop msg_id type i : ℕ)
    → i < total_fragments message
    → type < 8
    → (h : Header) × (extract_header
          (packet_nth (fragment_message message src me next_hop msg_id type) i)
        ≡ some h)
      × (h.type ≡ type)
unfolding packet_nth
packet_type message src me next_hop msg_id type i below fits =
    let h = header_at message src me next_hop msg_id type (total_fragments message) i in
    (
      truncate h,
      rw (get_elem?-fragment_message message src me next_hop msg_id type i below, packet_nth)
          (extract_header-add_header_to_payload h (chunk message i)),
      (unfold truncate header_at in omega arith),
    )

-- A data frame at a node whose routing protocol is paused.
handle_data_frame :
    (fuel : ℕ) (rand : ℕ → ℕ) (packet : List ℕ) (app : App) (h : Header) (effects : List Effect)
    (done : Receiver)
    → extract_header packet ≡ some h
    → h.type ≡ data_packet
    → app.node.pause_flag ≡ true
    → on_packet_received packet app.node app.manager.receiver ≡ some (effects, app.node, done)
    → handle_message fuel rand (frame_of packet) app
      ≡ some (
        (run_callbacks effects app.node (record app.manager { receiver = done })).0,
        record app {
          node =
              show_messages
                (run_callbacks effects app.node (record app.manager { receiver = done })).0
                (run_callbacks effects app.node (record app.manager { receiver = done })).1;
          manager = (run_callbacks effects app.node (record app.manager { receiver = done })).2;
        },
      )
unfolding handle_message handle_data manager_on_packet_received
handle_data_frame fuel rand packet app h effects done header type paused received =
    rw (header, not_echo, is_data, kept, received) refl
  where
    not_echo : (h.type == echo) ≡ false
    not_echo = ground (arith, type)

    is_data : (h.type == data_packet) ≡ true
    is_data = ground (arith, type)

    kept : (if app.node.pause_flag then app.node else pause_protocol app.node) ≡ app.node
    kept = ap (λ b. if b then app.node else pause_protocol app.node) paused

send_ack-cases :
    (msg_id i src : ℕ) (n : Node)
    → ((send_ack msg_id i src n).0 ≡ [])
      ⊎ ((packet : List ℕ) × ((send_ack msg_id i src n).0 ≡ send packet ∷ []))
unfolding send_ack
send_ack-cases msg_id i src n = elim (Option-cases (find src n.routing_table)) [
  | inl none_known ↦ inl (rw (none_known, send_ack) refl)
  | inr (r, route) ↦ inr (
    build_header (ack_header (get_my_addr n.addressing).0 r.next_hop msg_id i src),
    rw (route, send_ack) (unfold get_my_addr in refl),
  )
]

-- What becomes of a message behind at most one packet.
record Arrived (me : ℕ) (message : List ℕ) (effects : List Effect) (n : Node) (m : TransportManager)
    : Type 0 where
  one : delivered effects ≡ message ∷ []
  goes_on :
      (show_messages (run_callbacks effects n m).0 (run_callbacks effects n m).1).pause_flag ≡ false

acked-Arrived :
    (me src msg_id i : ℕ) (message : List ℕ) (n0 n : Node) (m : TransportManager)
    → Arrived me message ((send_ack msg_id i src n0).0 ++ message_ready src message false ∷ []) n m
unfolding delivered run_callbacks show_messages
acked-Arrived me src msg_id i message n0 n m = elim (send_ack-cases msg_id i src n0) [
  | inl silent ↦ rw silent (record { one = refl; goes_on = refl })
  | inr (packet, answers) ↦ rw answers (record { one = refl; goes_on = refl })
]

-- A message reaches the message queue: at the node that a data message is for, whose address is from 1 to
-- 7, and whose routing protocol is paused, take a message of 1 to 256 fragments, whose other addresses and
-- number are below 8, and no buffer under its number. When the packets of all its fragments but one have
-- come, in any order and any number of times, and then the frame with the packet of that one comes from the
-- audio framework, `real_main` handles it without a fault, the whole message stands at the end of those
-- queued under the node's own address, and the routing protocol goes on.
pub handle_message-queued :
    (message : List ℕ) (src me next_hop msg_id : ℕ) (fuel : ℕ) (rand : ℕ → ℕ) (app : App)
    (ids : List ℕ) (last : ℕ)
    → total_fragments message ≤ 256
    → src < 8
    → (0 < me) × (me < 8)
    → next_hop < 8
    → msg_id < 8
    → app.node.addressing.addr_file ≡ some me
    → app.node.pause_flag ≡ true
    → find msg_id app.manager.receiver.reassembler.buffers ≡ none
    → All (λ i. i < total_fragments message) ids
    → last < total_fragments message
    → elem last ids ≡ false
    → ((j : ℕ) → j < total_fragments message → elem j (last ∷ ids) ≡ true)
    → (mid : Receiver) × (effects : List Effect) × (app' : App) × (receive_all
          (fragment_message message src me next_hop msg_id data_packet)
          ids
          app.node
          app.manager.receiver
        ≡ some (map (λ i. (send_ack msg_id i src app.node).0) ids, app.node, mid))
      × (handle_message fuel rand
            (frame_of
              (packet_nth (fragment_message message src me next_hop msg_id data_packet) last))
            (record app { manager = record app.manager { receiver = mid } })
          ≡ some (effects, app'))
      × (messages_of me app'.manager.msg_queue
          ≡ messages_of me app.manager.msg_queue ++ queued me message ∷ [])
      × (app'.node.pause_flag ≡ false)
handle_message-queued message src me next_hop msg_id fuel rand app ids last short src_fits me_range
      hop_fits id_fits file paused fresh below k e all =
    let (mid, done, run, completes, seen, others) =
      receive_all_delivers message src me next_hop msg_id data_packet app.node short src_fits
        me_range.0 me_range.1 hop_fits id_fits (omega arith) file app.manager.receiver ids last
        fresh below k e all in
    let (h, header, type) =
      packet_type message src me next_hop msg_id data_packet last k (omega arith) in
    let effects = (send_ack msg_id last src app.node).0 ++ message_ready src message false ∷ [] in
    let m : TransportManager = record app.manager { receiver = done } in
    let arrived = acked-Arrived me src msg_id last message app.node app.node m in
    (
      mid,
      _,
      _,
      run,
      handle_data_frame fuel rand
          (packet_nth (fragment_message message src me next_hop msg_id data_packet) last)
          (record app { manager = record app.manager { receiver = mid } }) h effects done header
          type paused completes,
      messages_of-run_callbacks effects app.node m me me file ∙ rw (==_refl me, arrived.one) refl,
      arrived.goes_on,
    )
