-- ===== src/Transport/EndToEnd.antt =====
-- A message from `wait_to_send` at its sender to `onMessageReady` at its destination
-- (src/backend/transport).
use mathlib.Core.List.{append-nil, append_assoc}
use networking_project_chat.Prelude.{
  ℕ, zero, suc, ◌+◌, ◌-◌, ◌<◌, ◌≤◌, ◌≡◌, refl, ap, sym, ◌∙◌, List, [], ◌∷◌, ◌++◌, none, some, true,
  false, ◌==◌, arith, replicate, map, All, All-append, elem, inl, inr, Bool-cases, ==_refl,
  if◌then◌else◌,
}
use networking_project_chat.Prelude.Assoc.{find}
use networking_project_chat.Fragmentation.Fragmenter.{total_fragments, fragment_message}
use networking_project_chat.Routing.Route.{Route}
use networking_project_chat.Routing.State.{Node}
use networking_project_chat.Transport.Receiver.{
  Receiver, Effect, send, message_ready, send_ack, on_packet_received,
}
use networking_project_chat.Transport.Receiver.Delivery.{
  packet_nth, receive_all, receive_all_delivers,
}
use networking_project_chat.Transport.Receiver.Rounds.{receive_all_rounds, received-replicate}
use networking_project_chat.Transport.Sender.{Sender, send_fragments}
use networking_project_chat.Transport.Sender.Fragments.{
  sends, IsAcked, after_fragments, send_fragments-fragment_message,
}

module _ (waits : ℕ → ℕ) where
  -- Fragment `i` as often as it is sent.
  abbrev copies : ℕ → List ℕ
  copies i = replicate (suc (waits i)) i

  pub sends-suc : (left i : ℕ) → sends waits (suc left) i ≡ sends waits left i ++ copies (i + left)
  sends-suc zero i = append-nil (copies i) ∙ ap copies (omega arith)
  sends-suc (suc left) i =
      ap (λ ids. copies i ++ ids)
        (sends-suc left (i + 1) ∙ ap (λ j. sends waits left (i + 1) ++ copies j) (omega arith))
      ∙ sym (append_assoc (copies i) (sends waits left (i + 1)) (copies (i + suc left)))

  replicate-below : (k total i : ℕ) → i < total → All (λ j. j < total) (replicate k i)
  replicate-below zero total i h = tt
  replicate-below (suc k) total i h = (h, replicate-below k total i h)

  pub sends-below :
      (left i total : ℕ) → i + left ≤ total → All (λ j. j < total) (sends waits left i)
  sends-below zero i total h = tt
  sends-below (suc left) i total h =
      All-append _ (replicate (suc (waits i)) i) (sends waits left (i + 1))
        (replicate-below (suc (waits i)) total i (omega arith))
        (sends-below left (i + 1) total (omega arith))

  elem-replicate :
      (k i j : ℕ) (xs : List ℕ) → (i == j) ≡ false → elem j (replicate k i ++ xs) ≡ elem j xs
  elem-replicate zero i j xs e = refl
  elem-replicate (suc k) i j xs e = rw e (elem-replicate k i j xs e)

  pub elem-sends : (left i j : ℕ) → i + left ≤ j → elem j (sends waits left i) ≡ false
  elem-sends zero i j h = refl
  elem-sends (suc left) i j h =
      elem-replicate (suc (waits i)) i j (sends waits left (i + 1)) (ground arith)
      ∙ elem-sends left (i + 1) j (omega arith)

  pub elem-sends-below : (left i j : ℕ) → i ≤ j → j < i + left → elem j (sends waits left i) ≡ true
  elem-sends-below zero i j p q = absurd (omega arith)
  elem-sends-below (suc left) i j p q = elim (Bool-cases (i == j)) [
    | inl same ↦ rw same refl
    | inr other ↦
        elem-replicate (suc (waits i)) i j (sends waits left (i + 1)) other
        ∙ elem-sends-below left (i + 1) j (ground arith) (omega arith)
  ]

-- The two ends of a message, the numbers of its header, the route at the sender, the wait in which each
-- fragment is acknowledged, and what arrives in each wait.
pub record Transfer : Type 0 where
  pub me : ℕ
  pub dest : ℕ
  pub msg_id : ℕ
  pub type : ℕ
  pub route : Route
  pub sender_node : Node
  pub dest_node : Node
  pub waits : ℕ → ℕ
  pub arrivals : ℕ → ℕ → List (List ℕ)

module _ (message : List ℕ) (t : Transfer) where
  -- The number of the last fragment.
  abbrev pub last : ℕ
  last = total_fragments message - 1

  -- The numbers of the fragments that are sent before the last one.
  abbrev pub before : List ℕ
  before = sends t.waits last 0

  abbrev pub packet : ℕ → List ℕ
  packet = packet_nth (fragment_message message t.me t.dest t.route.next_hop t.msg_id t.type)

  abbrev pub answer : ℕ → List Effect
  answer i = (send_ack t.msg_id i t.me t.dest_node).0

  sends_all :
      0 < total_fragments message
      → sends t.waits (total_fragments message) 0 ≡ before ++ last ∷ replicate (t.waits last) last
  sends_all pos =
      ap (λ total. sends t.waits total 0) total_suc
      ∙ sends-suc t.waits last 0
      ∙ ap (λ i. before ++ copies t.waits i) (omega arith)
    where
      total_suc : total_fragments message ≡ suc last
      total_suc = omega (arith, pos)

  all_come : (j : ℕ) → j < total_fragments message → elem j (last ∷ before) ≡ true
  all_come j h = elim (Bool-cases (last == j)) [
    | inl same ↦ rw same refl
    | inr other ↦ rw other (elem-sends-below t.waits last 0 j (omega arith) (ground arith))
  ]

  -- From end to end: for a message of 1 to 256 fragments, whose numbers and addresses fit their fields,
  -- between two nodes with addresses from 1 to 7, with a route at the sender, when the acknowledgement
  -- of each fragment comes alone in one of its first seven waits, and no buffer is held at the
  -- destination under the message's number: `sendFragments` returns, having sent the packets of the
  -- fragments before the last, and then the last at least once. When `onPacketReceived` at the
  -- destination takes them as they were sent, repeats included, each one before the last fragment is
  -- acknowledged, if there is a route to the sender, and nothing is delivered; with the first packet of
  -- the last fragment the whole message is delivered, under its sender's address; and the repeats of the
  -- last fragment after it are acknowledged, and each delivers the message again if it has one fragment
  -- only, and nothing otherwise.
  pub send_fragments-receive_all :
      (next_hop : ℕ) (s : Sender) (rcv : Receiver)
      → (0 < t.me) × (t.me < 8)
      → (0 < t.dest) × (t.dest < 8)
      → (t.msg_id < 8) × (t.type < 8) × (t.route.next_hop < 8)
      → (0 < total_fragments message) × (total_fragments message ≤ 256)
      → t.sender_node.addressing.addr_file ≡ some t.me
      → t.dest_node.addressing.addr_file ≡ some t.dest
      → find t.dest t.sender_node.routing_table ≡ some t.route
      → ((k : ℕ) → k < total_fragments message → IsAcked t.msg_id t.me t.waits t.arrivals k)
      → find t.msg_id rcv.reassembler.buffers ≡ none
      → (s' : Sender) × (mid : Receiver) × (done : Receiver) × (end : Receiver) × (send_fragments 0
            t.arrivals
            (fragment_message message t.me t.dest next_hop t.msg_id t.type)
            s
            t.sender_node
          ≡ some (record {
            effects = map (λ k. send (packet k)) (before ++ last ∷ replicate (t.waits last) last);
            sender = s';
            node = after_fragments (total_fragments message) t.sender_node;
          }))
        × (receive_all
              (fragment_message message t.me t.dest t.route.next_hop t.msg_id t.type)
              before
              t.dest_node
              rcv
            ≡ some (map answer before, t.dest_node, mid))
        × (on_packet_received (packet last) t.dest_node mid
            ≡ some (answer last ++ message_ready t.me message false ∷ [], t.dest_node, done))
        × (receive_all
              (fragment_message message t.me t.dest t.route.next_hop t.msg_id t.type)
              (replicate (t.waits last) last)
              t.dest_node
              done
            ≡ some (
              replicate (t.waits last) (
                  answer last
                  ++ (if total_fragments message == 1
                      then message_ready t.me message false ∷ []
                      else [])),
              t.dest_node,
              end,
            ))
  send_fragments-receive_all next_hop s rcv me_range dest_range numbers_fit fragments_fit me_file
        dest_file routed acked fresh =
      let (s', sent) =
        send_fragments-fragment_message message t.me t.dest next_hop t.msg_id t.type t.route t.waits
          t.arrivals me_range.0 me_range.1 numbers_fit.0 (ground (arith, dest_range.0)) s
          t.sender_node (omega (arith, fragments_fit.1)) me_file routed acked in
      let (mid, done, run, delivered, seen, others) =
        receive_all_delivers message t.me t.dest t.route.next_hop t.msg_id t.type t.dest_node
          fragments_fit.1 me_range.1 dest_range.0 dest_range.1 numbers_fit.2 numbers_fit.0
          numbers_fit.1 dest_file rcv before last fresh
          (sends-below t.waits last 0 (total_fragments message) (omega arith))
          (omega (arith, fragments_fit.0)) (elem-sends t.waits last 0 last (omega arith))
          all_come in
      let (end, again, seen', elsewhere) =
        receive_all_rounds message t.me t.dest t.route.next_hop t.msg_id t.type t.dest_node
          fragments_fit.1 me_range.1 dest_range.0 dest_range.1 numbers_fit.2 numbers_fit.0
          numbers_fit.1 dest_file done (replicate (t.waits last) last) fragments_fit.0
          (others t.msg_id ∙ rw (==_refl t.msg_id) refl)
          (replicate-below t.waits (t.waits last) (total_fragments message) last
            (omega (arith, fragments_fit.0))) in
      (
        s',
        mid,
        done,
        end,
        sent ∙ rw (sends_all fragments_fit.0) refl,
        run,
        delivered,
        again
            ∙ ap (λ es. some (es, t.dest_node, end))
                (received-replicate answer (message_ready t.me message false ∷ [])
                  (total_fragments message) (t.waits last) fragments_fit.0),
      )
