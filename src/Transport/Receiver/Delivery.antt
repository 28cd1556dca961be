-- ===== src/Transport/Receiver/Delivery.antt =====
-- A whole message at its destination, whatever the order in which its packets arrive.
use networking_project_chat.Prelude.{
  ℕ, ◌%◌, ◌^◌, ◌<◌, ◌≤◌, ◌≡◌, refl, ap, ◌∙◌, List, [], ◌∷◌, ◌++◌, Option, none, some, true, false,
  ◌==◌, length, arith, ◌>>=◌, if◌then◌else◌, get_elem?, replicate, map, All, elem,
}
use mathlib.Core.Path.{ap₂}
use mathlib.Core.List.{append-nil}
use networking_project_chat.Prelude.Assoc.{find}
use networking_project_chat.Packet.{Header, add_header_to_payload}
use networking_project_chat.Packet.Fields.{Fits}
use networking_project_chat.Fragmentation.Fragmenter.{total_fragments, fragment_message}
use networking_project_chat.Fragmentation.Reassembler.{Reassembler, is_empty}
use networking_project_chat.Fragmentation.Chunks.{
  chunk, header_at, length-chunk-le, get_elem?-fragment_message, is_empty_message,
}
use networking_project_chat.Fragmentation.AnyOrder.{insert_nth, insert_all, insert_all_any_order}
use networking_project_chat.Routing.State.{Node}
use networking_project_chat.Transport.Receiver.{
  Receiver, Effect, message_ready, on_packet_received, send_ack, accept_fragment,
}
use networking_project_chat.Transport.Receiver.Unicast.{on_packet_received_here}

-- The packet that carries fragment number `i`; a number beyond the last has none.
unfoldable pub packet_nth : List (Header × List ℕ) → ℕ → List ℕ
packet_nth fragments i = elim (get_elem? fragments i) [
  | none ↦ []
  | some (h, payload) ↦ add_header_to_payload h payload
]

-- `onPacketReceived` on the packets of those fragments, one after the other: the effects of each.
unfoldable pub receive_all :
    List (Header × List ℕ)
    → List ℕ
    → Node
    → Receiver
    → Option (List (List Effect) × Node × Receiver)
receive_all fragments [] n rcv = some ([], n, rcv)
receive_all fragments (i ∷ is) n rcv = do
  (effects, n', rcv') ← on_packet_received (packet_nth fragments i) n rcv
  (rest, n'', rcv'') ← receive_all fragments is n' rcv'
  some (effects ∷ rest, n'', rcv'')

module _ (message : List ℕ) (src me next_hop msg_id type : ℕ) (n : Node)
    (short : total_fragments message ≤ 256) (src_fits : src < 8) (pos : 0 < me) (me_fits : me < 8)
    (hop_fits : next_hop < 8) (id_fits : msg_id < 8) (type_fits : type < 8)
    (file : n.addressing.addr_file ≡ some me) where
  abbrev fragments : List (Header × List ℕ)
  fragments = fragment_message message src me next_hop msg_id type

  abbrev insert : Reassembler → ℕ → List ℕ × Reassembler
  insert = insert_nth message src me next_hop msg_id type

  -- The acknowledgement of a fragment.
  abbrev pub acks : ℕ → List Effect
  acks i = (send_ack msg_id i src n).0

  abbrev pub ready : List ℕ → List Effect
  ready full = if is_empty full then [] else message_ready src full false ∷ []

  header_at-Fits :
      (i : ℕ)
      → i < total_fragments message
      → Fits (header_at message src me next_hop msg_id type (total_fragments message) i)
  unfolding header_at
  header_at-Fits i h = ground (arith, length-chunk-le message i)

  receive_nth :
      (rcv : Receiver) (i : ℕ)
      → i < total_fragments message
      → on_packet_received (packet_nth fragments i) n rcv
        ≡ some (
          acks i ++ ready (insert rcv.reassembler i).0,
          n,
          record rcv { reassembler = (insert rcv.reassembler i).1 },
        )
  unfolding packet_nth insert_nth header_at accept_fragment
  receive_nth rcv i h =
      rw
        (get_elem?-fragment_message message src me next_hop msg_id type i h, packet_nth, insert_nth)
        (on_packet_received_here _ (chunk message i) me n rcv (header_at-Fits i h) refl pos file
            refl
          ∙ rw same_id)
    where
      same_id : i % 2 ^ 16 ≡ i
      same_id = omega arith

  -- The effects of a run: what each insertion returned is delivered behind its acknowledgement.
  abbrev pub effects_of : List ℕ → List (List ℕ) → List (List Effect)
  effects_of [] fulls = []
  effects_of (i ∷ is) [] = []
  effects_of (i ∷ is) (full ∷ fulls) = (acks i ++ ready full) ∷ effects_of is fulls

  pub receive_all-insert_all :
      (ids : List ℕ) (rcv : Receiver)
      → All (λ i. i < total_fragments message) ids
      → receive_all fragments ids n rcv
        ≡ some (
          effects_of ids (insert_all message src me next_hop msg_id type rcv.reassembler ids).0,
          n,
          record rcv {
            reassembler = (insert_all message src me next_hop msg_id type rcv.reassembler ids).1;
          },
        )
  unfolding receive_all insert_all
  receive_all-insert_all [] rcv below = refl
  receive_all-insert_all (i ∷ is) rcv below = rw (
    receive_nth rcv i below.0,
    receive_all-insert_all is (record rcv { reassembler = (insert rcv.reassembler i).1 }) below.1,
  )

  effects_of-replicate : (ids : List ℕ) → effects_of ids (replicate (length ids) []) ≡ map acks ids
  effects_of-replicate [] = refl
  effects_of-replicate (i ∷ is) = ap₂ ◌∷◌ (append-nil (acks i)) (effects_of-replicate is)

  -- At the node that a message is for, whose address is from 1 to 7, the packets of its fragments,
  -- which are 1 to 256, whose other addresses, number and type fit their bits, and which come in
  -- any order and any number of times while no buffer is held under the message's number: each is
  -- acknowledged as often as it comes, if there is a route to the sender, nothing is delivered
  -- until every fragment has come, and with the one that completes them the whole message is
  -- delivered under its sender's address. The node's state is as before, and so are the
  -- buffers of other messages and the broadcasts seen.
  pub receive_all_delivers :
      (rcv : Receiver) (ids : List ℕ) (last : ℕ)
      → find msg_id rcv.reassembler.buffers ≡ none
      → All (λ i. i < total_fragments message) ids
      → last < total_fragments message
      → elem last ids ≡ false
      → ((j : ℕ) → j < total_fragments message → elem j (last ∷ ids) ≡ true)
      → (mid : Receiver) × (done : Receiver) × (receive_all fragments ids n rcv
          ≡ some (map acks ids, n, mid))
        × (on_packet_received (packet_nth fragments last) n mid
            ≡ some (acks last ++ message_ready src message false ∷ [], n, done))
        × (done.seen_broadcasts ≡ rcv.seen_broadcasts)
        × ((k : ℕ)
            → find k done.reassembler.buffers
              ≡ (if msg_id == k then none else find k rcv.reassembler.buffers))
  receive_all_delivers rcv ids last fresh below k e all = (
    record rcv { reassembler = run.0 },
    record rcv { reassembler = run.1 },
    receive_all-insert_all ids rcv below
        ∙ rw (run.2) (
            ap (λ fs. some (fs, n, record rcv { reassembler = run.0 })) (effects_of-replicate ids)),
    receive_nth (record rcv { reassembler = run.0 }) last k
        ∙ rw (run.3, is_empty_message message last k),
    refl,
    run.4,
  )
    where
      run :
          (mid : Reassembler) × (done : Reassembler) × (insert_all message src me next_hop msg_id
              type rcv.reassembler ids
            ≡ (replicate (length ids) [], mid))
          × (insert mid last ≡ (message, done))
          × ((k : ℕ)
              → find k done.buffers
                ≡ (if msg_id == k then none else find k rcv.reassembler.buffers))
      run =
          insert_all_any_order message src me next_hop msg_id type short (omega arith)
            rcv.reassembler ids last fresh below k e all
