-- ===== src/Transport/Tests/EndToEnd.antt =====
-- A message of two fragments from node 1 to node 2.
use networking_project_chat.Prelude.{
  ℕ, zero, suc, ◌<◌, ◌≡◌, refl, List, [], ◌∷◌, ◌++◌, some, false, ◌==◌, if◌then◌else◌, arith, map,
  replicate,
}
use networking_project_chat.Prelude.Assoc.{find}
use networking_project_chat.Packet.{build_header}
use networking_project_chat.Fragmentation.Fragmenter.{total_fragments, fragment_message}
use networking_project_chat.Routing.Route.{Route, Table}
use networking_project_chat.Transport.Receiver.{
  Receiver, new_receiver, send, message_ready, ack_header, on_packet_received,
}
use networking_project_chat.Transport.Receiver.Delivery.{receive_all}
use networking_project_chat.Transport.Sender.{Sender, send_fragments}
use networking_project_chat.Transport.Sender.Fragments.{IsAcked, after_fragments}
use networking_project_chat.Transport.Manager.{Job}
use networking_project_chat.Transport.EndToEnd.{
  Transfer, last, before, packet, answer, send_fragments-receive_all,
}
use networking_project_chat.Transport.Tests.{
  route_to_two, node_with_address, thirty, thirty_fragments, sender_of,
}

-- Fragment 0 is acknowledged in the second wait, fragment 1 in the first.
abbrev waits : ℕ → ℕ
waits zero = 1
waits (suc i) = 0

abbrev arrivals : ℕ → ℕ → List (List ℕ)
arrivals i k = if k == waits i then build_header (ack_header 2 1 5 i 1) ∷ [] else []

waits_small : (i : ℕ) → waits i < 7
waits_small zero = omega arith
waits_small (suc i) = omega arith

answered : (i : ℕ) → IsAcked 5 1 waits arrivals i
answered i = record {
  other = 2;
  hop = 1;
  soon = waits_small i;
  quiet = λ k h. ground arith;
  comes = ground arith;
}

abbrev transfer : Transfer
transfer = record {
  me = 1;
  dest = 2;
  msg_id = 5;
  type = 1;
  route = route_to_two;
  sender_node = node_with_address 1;
  dest_node = node_with_address 2;
  waits = waits;
  arrivals = arrivals;
}

send_fragments-receive_all_example :
    (s' : Sender) × (mid : Receiver) × (done : Receiver) × (end : Receiver) × (send_fragments 0
        arrivals
        (fragment_message thirty 1 2 7 5 1)
        (sender_of 4)
        (node_with_address 1)
      ≡ some (record {
        effects =
            map
              (λ k. send (packet thirty transfer k))
              (before thirty transfer
                ++ last thirty transfer
                  ∷ replicate (waits (last thirty transfer)) (last thirty transfer));
        sender = s';
        node = after_fragments (total_fragments thirty) (node_with_address 1);
      }))
    × (receive_all
          (fragment_message thirty 1 2 3 5 1)
          (before thirty transfer)
          (node_with_address 2)
          new_receiver
        ≡ some (map (answer thirty transfer) (before thirty transfer), node_with_address 2, mid))
    × (on_packet_received (packet thirty transfer (last thirty transfer)) (node_with_address 2) mid
        ≡ some (
          answer thirty transfer (last thirty transfer) ++ message_ready 1 thirty false ∷ [],
          node_with_address 2,
          done,
        ))
    × (receive_all
          (fragment_message thirty 1 2 3 5 1)
          (replicate (waits (last thirty transfer)) (last thirty transfer))
          (node_with_address 2)
          done
        ≡ some (
          replicate (waits (last thirty transfer)) (
              answer thirty transfer (last thirty transfer)
              ++ (if total_fragments thirty == 1 then message_ready 1 thirty false ∷ [] else [])),
          node_with_address 2,
          end,
        ))
send_fragments-receive_all_example =
    send_fragments-receive_all thirty transfer 7 (sender_of 4) new_receiver (omega arith)
      (omega arith) (omega arith) (omega (arith, thirty_fragments)) refl refl (unfold find in refl)
      (λ k h. answered k) (unfold find in refl)

-- The route to node 2 has expired when the wait begins, and is back in its second round.
abbrev expired : Route
expired = record route_to_two { cost = 5; next_hop = 0 }

abbrev row_of : ℕ → Route
row_of zero = expired
row_of (suc zero) = expired
row_of (suc (suc i)) = route_to_two

abbrev table_of : ℕ → Table
table_of i = (2, row_of i) ∷ []

abbrev job : Job
job = record { message = thirty; dest = 2; type = 1; msg_id = 5 }
