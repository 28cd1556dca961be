-- ===== src/Transport/Tests/ToAll.antt =====
-- A message of two fragments from node 1 to all nodes, at its neighbour, node 2.
use mathlib.Core.List.{flatten}
use networking_project_chat.Prelude.{
  ℕ, ◌<◌, ◌≡◌, refl, List, [], ◌∷◌, ◌++◌, some, true, arith, replicate,
}
use networking_project_chat.Prelude.Assoc.{find}
use networking_project_chat.Fragmentation.Fragmenter.{total_fragments, fragment_message}
use networking_project_chat.Transport.Receiver.{
  Receiver, Effect, new_receiver, message_ready, on_packet_received, already_received,
}
use networking_project_chat.Transport.Receiver.Delivery.{packet_nth, receive_all}
use networking_project_chat.Transport.Receiver.FloodOnce.{relays}
use networking_project_chat.Transport.Sender.{Sent}
use networking_project_chat.Transport.Manager.{wait_to_send}
use networking_project_chat.Transport.ToAll.{sent, last, before, wait_to_send-receive_all}
use networking_project_chat.Transport.Tests.{node_with_address, thirty, thirty_fragments, sender_of}

wait_to_send-receive_all_example :
    (out : Sent) × (relayed : List (List Effect)) × (mid : Receiver) × (done : Receiver)
    × (wait_to_send 1
          (λ i. [])
          (λ i k. [])
          (record { message = thirty; dest = 0; type = 1; msg_id = 5 })
          (sender_of 4)
          (node_with_address 1)
        ≡ some out)
    × (out.effects
        ≡ sent
            (fragment_message thirty 1 0 0 5 1)
            (before thirty 1 2 5 1 ++ replicate 4 (last thirty 1 2 5 1)))
    × (receive_all
          (fragment_message thirty 1 0 0 5 1)
          (before thirty 1 2 5 1)
          (node_with_address 2)
          new_receiver
        ≡ some (relayed, node_with_address 2, mid))
    × (on_packet_received
          (packet_nth (fragment_message thirty 1 0 0 5 1) (last thirty 1 2 5 1))
          (node_with_address 2)
          mid
        ≡ some (
          relays (fragment_message thirty 1 0 0 5 1) (last thirty 1 2 5 1)
              ++ message_ready 1 thirty true ∷ [],
          node_with_address 2,
          done,
        ))
    × ((j : ℕ)
        → j < total_fragments thirty
        → on_packet_received
            (packet_nth (fragment_message thirty 1 0 0 5 1) j)
            (node_with_address 2)
            done
          ≡ some ([], node_with_address 2, done))
    × (flatten relayed ++ relays (fragment_message thirty 1 0 0 5 1) (last thirty 1 2 5 1)
        ≡ out.effects)
wait_to_send-receive_all_example =
    wait_to_send-receive_all thirty 1 2 5 1 1 (λ i. []) (λ i k. []) (sender_of 4)
      (node_with_address 1) (node_with_address 2) new_receiver (omega arith)
      (omega (arith, thirty_fragments)) refl refl (unfold find in refl)
      (λ j h. unfold already_received in refl)
