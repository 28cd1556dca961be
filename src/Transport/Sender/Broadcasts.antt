-- ===== src/Transport/Sender/Broadcasts.antt =====
-- The fragments of a message for all nodes, each sent four times.
use mathlib.Core.Path.{ap₂}
use networking_project_chat.Prelude.{
  ℕ, zero, suc, ◌+◌, ◌%◌, ◌^◌, ◌<◌, ◌≤◌, ◌≡◌, refl, ap, sym, ◌∙◌, List, ◌∷◌, ◌++◌, some, arith,
  length, u16, replicate, map,
}
use networking_project_chat.Packet.{Header}
use networking_project_chat.Fragmentation.Fragmenter.{
  total_fragments, fragments_from, fragment_message,
}
use networking_project_chat.Fragmentation.Chunks.{
  chunk, header_at, length-chunk-le, fragment_at-chunk, get_elem?-fragment_message,
}
use networking_project_chat.Routing.State.{Node, pause_protocol}
use networking_project_chat.Transport.Receiver.{send}
use networking_project_chat.Transport.Receiver.Delivery.{packet_nth}
use networking_project_chat.Transport.Sender.{
  Sender, Sent, sender_broadcast_tries, sender_send_broadcast, send_with_retry, send_fragments,
}
use networking_project_chat.Transport.Sender.Retries.{paused}
use networking_project_chat.Transport.Sender.Fragments.{
  sends, after_fragments, after_fragments-paused, paused_addressing, map-replicate,
}

send_with_retry_all :
    (arrivals : ℕ → List (List ℕ)) (h : Header) (payload : List ℕ) (s : Sender) (n : Node) (me : ℕ)
    → n.addressing.addr_file ≡ some me
    → h.dest_address ≡ 0
    → send_with_retry arrivals h payload s n
      ≡ some (record {
        effects = sender_send_broadcast (record h { source_address = me }) payload;
        sender = s;
        node = paused n;
      })
unfolding send_with_retry pause_protocol
send_with_retry_all arrivals h payload s n me file all = ground arith

-- One fragment and the ones after it.
send_fragments-cons :
    (arrivals : ℕ → ℕ → List (List ℕ)) (i : ℕ) (h : Header) (payload : List ℕ)
    (fragments : List (Header × List ℕ)) (s : Sender) (n : Node) (first rest : Sent)
    → send_with_retry
        (arrivals i)
        h
        payload
        (record s { current_msg_id = h.message_id; current_fragment_id = h.fragment_id })
        n
      ≡ some first
    → send_fragments (i + 1) arrivals fragments first.sender first.node ≡ some rest
    → send_fragments i arrivals ((h, payload) ∷ fragments) s n
      ≡ some (record rest { effects = first.effects ++ rest.effects })
unfolding send_fragments
send_fragments-cons arrivals i h payload fragments s n first rest sent others =
    rw (sent, others) refl

module _ (message : List ℕ) (me msg_id type : ℕ) (arrivals : ℕ → ℕ → List (List ℕ)) where
  abbrev total : ℕ
  total = total_fragments message

  abbrev packet : ℕ → List ℕ
  packet = packet_nth (fragment_message message me 0 0 msg_id type)

  abbrev header : ℕ → Header
  header = header_at message me 0 0 msg_id type total

  four_times :
      (i : ℕ)
      → i < total
      → sender_send_broadcast (record (header i) { source_address = me }) (chunk message i)
        ≡ replicate 4 (send (packet i))
  unfolding sender_send_broadcast sender_broadcast_tries packet_nth header_at
  four_times i h =
      rw (get_elem?-fragment_message message me 0 0 msg_id type i h, packet_nth, same_length) refl
    where
      same_length : length (chunk message i) % 2 ^ 8 ≡ length (chunk message i)
      same_length = omega (arith, length-chunk-le message i)

  fragments_from-suc :
      (left i : ℕ)
      → fragments_from message me 0 0 msg_id type total (suc left) i
        ≡ (header i, chunk message i) ∷ fragments_from message me 0 0 msg_id type total left (i + 1)
  unfolding fragments_from
  fragments_from-suc left i =
      ap (λ f. f ∷ fragments_from message me 0 0 msg_id type total left (i + 1))
        (fragment_at-chunk message me 0 0 msg_id type total i)

  -- The sender while fragment `i` is sent.
  abbrev at_fragment : ℕ → Sender → Sender
  at_fragment i s = record s { current_msg_id = msg_id; current_fragment_id = u16 i }

  send_nth_all :
      (i : ℕ) (s : Sender) (n : Node)
      → i < total
      → n.addressing.addr_file ≡ some me
      → send_with_retry
          (arrivals i)
          (header_at message me 0 0 msg_id type total i)
          (chunk message i)
          (at_fragment i s)
          n
        ≡ some (record {
          effects = replicate 4 (send (packet i));
          sender = at_fragment i s;
          node = paused n;
        })
  send_nth_all i s n h file =
      send_with_retry_all (arrivals i) (header i) (chunk message i) (at_fragment i s) n me file
        (unfold header_at in refl)
      ∙ ap (λ sent. some (record { effects = sent; sender = at_fragment i s; node = paused n }))
          (four_times i h)

  send_fragments_next :
      (i : ℕ) (fragments : List (Header × List ℕ)) (s : Sender) (n : Node) (rest : Sent)
      → i < total
      → n.addressing.addr_file ≡ some me
      → send_fragments (i + 1) arrivals fragments (at_fragment i s) (paused n) ≡ some rest
      → send_fragments i arrivals ((header i, chunk message i) ∷ fragments) s n
        ≡ some (record rest { effects = replicate 4 (send (packet i)) ++ rest.effects })
  send_fragments_next i fragments s n rest h file others =
      send_fragments-cons arrivals i (header i) (chunk message i) fragments s n
        (record {
          effects = replicate 4 (send (packet i));
          sender = at_fragment i s;
          node = paused n;
        })
        rest (unfold header_at in send_nth_all i s n h file) others

  send_fragments-fragments_from :
      (left i : ℕ) (s : Sender) (n : Node)
      → i + left ≤ total
      → n.addressing.addr_file ≡ some me
      → (s' : Sender) × (send_fragments i arrivals
            (fragments_from message me 0 0 msg_id type total left i)
            s
            n
          ≡ some (record {
            effects = map (λ k. send (packet k)) (sends (λ k. 3) left i);
            sender = s';
            node = after_fragments left n;
          }))
  send_fragments-fragments_from zero i s n h file =
      (s, unfold send_fragments fragments_from in refl)
  send_fragments-fragments_from (suc left) i s n h file =
      let (s', rest) =
        send_fragments-fragments_from left (i + 1) (at_fragment i s) (paused n) (omega arith)
          (rw (paused_addressing n) file) in
      (
        s',
        rw (fragments_from-suc left i) (
            send_fragments_next i _ s n _ (omega arith) file rest
            ∙ ap₂ (λ effects n'. some (record { effects = effects; sender = s'; node = n' }))
                (sym (map-replicate (λ k. send (packet k)) 4 i (sends (λ k. 3) left (i + 1))))
                (after_fragments-paused left n)),
      )

  -- At a node with an address, `sendFragments` on the fragments of a message for all nodes returns,
  -- whatever arrives. It has sent the packets of the fragments in order, each four times, and the routing
  -- protocol is paused if there was a fragment.
  pub send_fragments_all :
      (s : Sender) (n : Node)
      → n.addressing.addr_file ≡ some me
      → (s' : Sender) × (send_fragments 0 arrivals (fragment_message message me 0 0 msg_id type) s n
          ≡ some (record {
            effects = map (λ k. send (packet k)) (sends (λ k. 3) total 0);
            sender = s';
            node = after_fragments total n;
          }))
  unfolding fragment_message
  send_fragments_all s n file = send_fragments-fragments_from total 0 s n (omega arith) file
