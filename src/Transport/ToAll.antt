-- ===== src/Transport/ToAll.antt =====
-- A message for all nodes from `wait_to_send` at its sender to `onMessageReady` at a neighbour
-- (src/backend/transport).
use mathlib.Core.List.{flatten}
use networking_project_chat.Prelude.{
  ℕ, zero, suc, ◌+◌, ◌-◌, ◌<◌, ◌≤◌, ◌≡◌, refl, ap, sym, ◌∙◌, List, [], ◌∷◌, ◌++◌, none, some, true,
  false, ◌==◌, ==_refl, arith, map, replicate, elem, inl, inr, Bool-cases,
}
use networking_project_chat.Prelude.Assoc.{find}
use networking_project_chat.Packet.{Header}
use networking_project_chat.Fragmentation.Fragmenter.{total_fragments, fragment_message}
use networking_project_chat.Routing.Route.{Table}
use networking_project_chat.Routing.State.{Node}
use networking_project_chat.Transport.Receiver.{
  Receiver, Effect, send, message_ready, on_packet_received, already_received,
}
use networking_project_chat.Transport.Receiver.Delivery.{packet_nth, receive_all}
use networking_project_chat.Transport.Receiver.FloodOnce.{relays}
use networking_project_chat.Transport.Receiver.Flooding.{flooded, receive_all_floods}
use networking_project_chat.Transport.Sender.{Sender, Sent, send_fragments}
use networking_project_chat.Transport.Sender.Fragments.{sends, after_fragments}
use networking_project_chat.Transport.Sender.Broadcasts.{send_fragments_all}
use networking_project_chat.Transport.Manager.{Job, wait_to_send}
use networking_project_chat.Transport.EndToEnd.{
  sends-suc, sends-below, elem-sends, elem-sends-below,
}

-- The numbers of that many fragments from `i` on, each four times.
abbrev pub four_each : ℕ → ℕ → List ℕ
four_each = sends (λ i. 3)

module _ (fragments : List (Header × List ℕ)) where
  -- The packets with these numbers.
  abbrev pub sent : List ℕ → List Effect
  sent = map (λ k. send (packet_nth fragments k))

  sent-++ : (xs ys : List ℕ) → sent (xs ++ ys) ≡ sent xs ++ sent ys
  sent-++ [] ys = refl
  sent-++ (x ∷ xs) ys = ap (λ es. send (packet_nth fragments x) ∷ es) (sent-++ xs ys)

  -- What is sent on of packets that come four times each is those packets.
  flatten-flooded :
      (left i : ℕ) (seen : List ℕ)
      → ((j : ℕ) → i ≤ j → elem j seen ≡ false)
      → flatten (flooded fragments (four_each left i) seen) ≡ sent (four_each left i)
  unfolding flatten
  flatten-flooded zero i seen new = refl
  flatten-flooded (suc left) i seen new =
      rw (new i (omega arith), ==_refl i)
        (ap (λ es. relays fragments i ++ es) (flatten-flooded left (i + 1) (i ∷ seen) later))
    where
      later : (j : ℕ) → i + 1 ≤ j → elem j (i ∷ seen) ≡ false
      later j h = ground (arith, new j (omega arith))

module _ (message : List ℕ) (me neighbour msg_id type : ℕ) where
  abbrev fragments : List (Header × List ℕ)
  fragments = fragment_message message me 0 0 msg_id type

  -- The number of the last fragment.
  abbrev pub last : ℕ
  last = total_fragments message - 1

  -- The numbers of the fragments that are sent before the last one.
  abbrev pub before : List ℕ
  before = four_each last 0

  four_each_all :
      0 < total_fragments message
      → four_each (total_fragments message) 0 ≡ before ++ replicate 4 last
  four_each_all pos =
      ap (λ total. four_each total 0) total_suc
      ∙ sends-suc (λ i. 3) last 0
      ∙ ap (λ i. before ++ replicate 4 i) (omega arith)
    where
      total_suc : total_fragments message ≡ suc last
      total_suc = omega (arith, pos)

  all_come : (j : ℕ) → j < total_fragments message → elem j (last ∷ before) ≡ true
  all_come j h = elim (Bool-cases (last == j)) [
    | inl same ↦ rw same refl
    | inr other ↦ rw other (elem-sends-below (λ i. 3) last 0 j (omega arith) (ground arith))
  ]

  abbrev job : Job
  job = record { message = message; dest = 0; type = type; msg_id = msg_id }

  wait_to_send_direct :
      (fuel : ℕ) (tables : ℕ → Table) (arrivals : ℕ → ℕ → List (List ℕ)) (s : Sender) (n : Node)
      → n.addressing.addr_file ≡ some me
      → wait_to_send fuel tables arrivals job s n ≡ send_fragments 0 arrivals fragments s n
  unfolding wait_to_send
  wait_to_send_direct fuel tables arrivals s n file = rw file (unfold fragment_message in refl)

  wait_to_send_all :
      (fuel : ℕ) (tables : ℕ → Table) (arrivals : ℕ → ℕ → List (List ℕ)) (s : Sender) (n : Node)
      → n.addressing.addr_file ≡ some me
      → (s' : Sender) × (wait_to_send fuel tables arrivals job s n
          ≡ some (record {
            effects = sent fragments (four_each (total_fragments message) 0);
            sender = s';
            node = after_fragments (total_fragments message) n;
          }))
  wait_to_send_all fuel tables arrivals s n file =
      let (s', returns) = send_fragments_all message me msg_id type arrivals s n file in
      (s', wait_to_send_direct fuel tables arrivals s n file ∙ returns)

  -- From end to end, for all: a message of 1 to 256 fragments, whose number and type fit their fields,
  -- at a node with an address below 8. `wait_to_send` with destination 0 returns, whatever the routing
  -- table and whatever arrives, having sent each fragment four times. When `onPacketReceived` at another
  -- node with an address takes the packets as they were sent, with no buffer held under the message's
  -- number and none of its fragments among the broadcasts seen, nothing is delivered before the last
  -- fragment, the whole message is delivered with the first packet of the last fragment, under its
  -- sender's address, and the packets after it are ignored. Up to the delivery the node has sent on
  -- just the packets that the sender sent, as often and in the same order.
  pub wait_to_send-receive_all :
      (fuel : ℕ) (tables : ℕ → Table) (arrivals : ℕ → ℕ → List (List ℕ)) (s : Sender)
      (sender_node node : Node) (rcv : Receiver)
      → (me < 8) × (msg_id < 8) × (type < 8)
      → (0 < total_fragments message) × (total_fragments message ≤ 256)
      → sender_node.addressing.addr_file ≡ some me
      → node.addressing.addr_file ≡ some neighbour
      → find msg_id rcv.reassembler.buffers ≡ none
      → ((j : ℕ)
          → j < total_fragments message
          → already_received msg_id j rcv.seen_broadcasts ≡ false)
      → (out : Sent) × (relayed : List (List Effect)) × (mid : Receiver) × (done : Receiver)
        × (wait_to_send fuel tables arrivals
              (record { message = message; dest = 0; type = type; msg_id = msg_id })
              s
              sender_node
            ≡ some out)
        × (out.effects ≡ sent fragments (before ++ replicate 4 last))
        × (receive_all fragments before node rcv ≡ some (relayed, node, mid))
        × (on_packet_received (packet_nth fragments last) node mid
            ≡ some (relays fragments last ++ message_ready me message true ∷ [], node, done))
        × ((j : ℕ)
            → j < total_fragments message
            → on_packet_received (packet_nth fragments j) node done ≡ some ([], node, done))
        × (flatten relayed ++ relays fragments last ≡ out.effects)
  wait_to_send-receive_all fuel tables arrivals s sender_node node rcv fits counts me_file file
        fresh new =
      let (s', sending) = wait_to_send_all fuel tables arrivals s sender_node me_file in
      let (mid, done, run, delivered, ignored) =
        receive_all_floods message me neighbour msg_id type node counts.1 fits.0 fits.1 fits.2 file
          rcv before last fresh new
          (sends-below (λ i. 3) last 0 (total_fragments message) (omega arith))
          (omega (arith, counts.0)) (elem-sends (λ i. 3) last 0 last (omega arith)) all_come in
      let all = ap (λ ids. sent fragments ids) (four_each_all counts.0) in
      (
        _,
        flooded fragments before [],
        mid,
        done,
        sending,
        all,
        run,
        delivered,
        ignored,
        ap (λ es. es ++ relays fragments last) (flatten-flooded fragments last 0 [] (λ j h. refl))
            ∙ sym (sent-++ fragments before (replicate 4 last))
            ∙ sym all,
      )
