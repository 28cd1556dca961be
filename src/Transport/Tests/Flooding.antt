-- ===== src/Transport/Tests/Flooding.antt =====
-- A message for all nodes that comes with repeats.
use networking_project_chat.Prelude.{ℕ, ◌<◌, ◌≡◌, refl, [], ◌∷◌, ◌++◌, some, true, arith}
use networking_project_chat.Prelude.Assoc.{find}
use networking_project_chat.Fragmentation.Fragmenter.{total_fragments, fragment_message}
use networking_project_chat.Transport.Receiver.{
  Receiver, new_receiver, message_ready, on_packet_received, already_received,
}
use networking_project_chat.Transport.Receiver.Delivery.{packet_nth, receive_all}
use networking_project_chat.Transport.Receiver.Flooding.{flooded, receive_all_floods}
use networking_project_chat.Transport.Receiver.FloodOnce.{relays}
use networking_project_chat.Transport.Tests.{node_with_address, thirty, thirty_fragments, all_come}

-- The second fragment comes twice before the first.
receive_all_floods_example :
    (mid : Receiver) × (done : Receiver) × (receive_all
        (fragment_message thirty 1 0 0 5 1)
        (1 ∷ 1 ∷ [])
        (node_with_address 2)
        new_receiver
      ≡ some
          (flooded (fragment_message thirty 1 0 0 5 1) (1 ∷ 1 ∷ []) [], node_with_address 2, mid))
    × (on_packet_received
          (packet_nth (fragment_message thirty 1 0 0 5 1) 0)
          (node_with_address 2)
          mid
        ≡ some (
          relays (fragment_message thirty 1 0 0 5 1) 0 ++ message_ready 1 thirty true ∷ [],
          node_with_address 2,
          done,
        ))
    × ((j : ℕ)
        → j < total_fragments thirty
        → on_packet_received
            (packet_nth (fragment_message thirty 1 0 0 5 1) j)
            (node_with_address 2)
            done
          ≡ some ([], node_with_address 2, done))
receive_all_floods_example =
    receive_all_floods thirty 1 2 5 1 (node_with_address 2) (omega (arith, thirty_fragments))
      (omega arith) (omega arith) (omega arith) refl new_receiver (1 ∷ 1 ∷ []) 0
      (unfold find in refl) (λ j h. unfold already_received in refl)
      (omega (arith, thirty_fragments)) (omega (arith, thirty_fragments)) refl all_come
