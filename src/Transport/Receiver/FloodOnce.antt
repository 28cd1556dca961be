-- ===== src/Transport/Receiver/FloodOnce.antt =====
-- A packet of a message for all nodes, when it comes for the first time and when it comes again.
use networking_project_chat.Prelude.{
  ℕ, ◌%◌, ◌^◌, ◌<◌, ◌≤◌, ◌≡◌, refl, ap, sym, ◌∙◌, List, [], ◌∷◌, ◌++◌, some, true, false, length,
  arith, if◌then◌else◌, replicate,
}
use mathlib.Core.Path.{subst}
use networking_project_chat.Packet.{Header}
use networking_project_chat.Packet.Fields.{Fits}
use networking_project_chat.Fragmentation.Fragmenter.{total_fragments, fragment_message}
use networking_project_chat.Fragmentation.Reassembler.{Reassembler, is_empty}
use networking_project_chat.Fragmentation.Chunks.{
  chunk, header_at, length-chunk-le, get_elem?-fragment_message,
}
use networking_project_chat.Fragmentation.AnyOrder.{insert_nth}
use networking_project_chat.Routing.State.{Node}
use networking_project_chat.Transport.Receiver.{
  Receiver, Effect, send, message_ready, broadcast_tries, on_packet_received, send_broadcast,
  accept_fragment, already_received,
}
use networking_project_chat.Transport.Receiver.Delivery.{packet_nth}
use networking_project_chat.Transport.Receiver.Relaying.{
  on_packet_received_broadcast, receive_broadcast_first, receive_broadcast_again,
}

-- What a node sends on when a fragment comes for the first time: four times its packet.
abbrev pub relays : List (Header × List ℕ) → ℕ → List Effect
relays fragments i = replicate 4 (send (packet_nth fragments i))

module _ (message : List ℕ) (src me msg_id type : ℕ) (n : Node)
    (short : total_fragments message ≤ 256) (src_fits : src < 8) (id_fits : msg_id < 8)
    (type_fits : type < 8) (file : n.addressing.addr_file ≡ some me) where
  abbrev fragments : List (Header × List ℕ)
  fragments = fragment_message message src 0 0 msg_id type

  abbrev insert : Reassembler → ℕ → List ℕ × Reassembler
  insert = insert_nth message src 0 0 msg_id type

  abbrev header : ℕ → Header
  header = header_at message src 0 0 msg_id type (total_fragments message)

  send_broadcast-relays :
      (i : ℕ)
      → i < total_fragments message
      → send_broadcast (header i) (chunk message i) ≡ relays fragments i
  unfolding send_broadcast broadcast_tries packet_nth header_at
  send_broadcast-relays i h =
      rw (get_elem?-fragment_message message src 0 0 msg_id type i h, packet_nth, same_length) refl
    where
      same_length : length (chunk message i) % 2 ^ 8 ≡ length (chunk message i)
      same_length = omega (arith, length-chunk-le message i)

  abbrev ready : List ℕ → List Effect
  ready full = if is_empty full then [] else message_ready src full true ∷ []

  header-Fits : (i : ℕ) → i < total_fragments message → Fits (header i)
  unfolding header_at
  header-Fits i h = ground (arith, length-chunk-le message i)

  accept_first :
      (rcv : Receiver) (i : ℕ)
      → i < total_fragments message
      → already_received msg_id i rcv.seen_broadcasts ≡ false
      → on_packet_received (packet_nth fragments i) n rcv
        ≡ some (
          send_broadcast (header i) (chunk message i) ++ ready (insert rcv.reassembler i).0,
          n,
          record {
            reassembler = (insert rcv.reassembler i).1;
            seen_broadcasts = (msg_id, i) ∷ rcv.seen_broadcasts;
          },
        )
  unfolding packet_nth insert_nth header_at accept_fragment
  accept_first rcv i h new =
      rw (get_elem?-fragment_message message src 0 0 msg_id type i h, packet_nth, insert_nth)
        (on_packet_received_broadcast _ (chunk message i) me n rcv (header-Fits i h) refl file refl
          ∙ ap (λ (p : List Effect × Receiver). some (p.0, n, p.1))
              (receive_broadcast_first (header i) (chunk message i) rcv (
                subst (λ k. already_received msg_id k rcv.seen_broadcasts ≡ false) (sym same_id)
                  new))
          ∙ rw same_id refl)
    where
      same_id : i % 2 ^ 16 ≡ i
      same_id = omega arith

  pub receive_first :
      (rcv : Receiver) (i : ℕ)
      → i < total_fragments message
      → already_received msg_id i rcv.seen_broadcasts ≡ false
      → on_packet_received (packet_nth fragments i) n rcv
        ≡ some (
          relays fragments i ++ ready (insert rcv.reassembler i).0,
          n,
          record {
            reassembler = (insert rcv.reassembler i).1;
            seen_broadcasts = (msg_id, i) ∷ rcv.seen_broadcasts;
          },
        )
  receive_first rcv i h new =
      accept_first rcv i h new
      ∙ ap
          (λ sent. some (
            sent ++ ready (insert rcv.reassembler i).0,
            n,
            record {
              reassembler = (insert rcv.reassembler i).1;
              seen_broadcasts = (msg_id, i) ∷ rcv.seen_broadcasts;
            },
          ))
          (send_broadcast-relays i h)

  pub receive_again :
      (rcv : Receiver) (i : ℕ)
      → i < total_fragments message
      → already_received msg_id i rcv.seen_broadcasts ≡ true
      → on_packet_received (packet_nth fragments i) n rcv ≡ some ([], n, rcv)
  unfolding packet_nth header_at
  receive_again rcv i h old =
      rw (get_elem?-fragment_message message src 0 0 msg_id type i h, packet_nth)
        (on_packet_received_broadcast _ (chunk message i) me n rcv (header-Fits i h) refl file refl
          ∙ ap (λ (p : List Effect × Receiver). some (p.0, n, p.1))
              (receive_broadcast_again (header i) (chunk message i) rcv (
                subst (λ k. already_received msg_id k rcv.seen_broadcasts ≡ true) (sym same_id)
                  old)))
    where
      same_id : i % 2 ^ 16 ≡ i
      same_id = omega arith
