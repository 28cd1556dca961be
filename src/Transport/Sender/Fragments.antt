-- ===== src/Transport/Sender/Fragments.antt =====
-- The fragments of a message, each sent until its acknowledgement comes.
use mathlib.Core.Path.{ap₂}
use networking_project_chat.Prelude.{
  ℕ, zero, suc, ◌+◌, ◌%◌, ◌^◌, ◌<◌, ◌≤◌, ◌≡◌, refl, ap, sym, ◌∙◌, List, [], ◌∷◌, ◌++◌, some, true,
  false, ◌==◌, arith, length, u16, if◌then◌else◌, replicate, map,
}
use networking_project_chat.Prelude.Assoc.{find}
use networking_project_chat.Packet.{Header, build_header}
use networking_project_chat.Fragmentation.Fragmenter.{
  total_fragments, fragments_from, fragment_message,
}
use networking_project_chat.Fragmentation.Chunks.{
  chunk, header_at, length-chunk-le, fragment_at-chunk, get_elem?-fragment_message,
}
use networking_project_chat.Routing.Route.{Route}
use networking_project_chat.Routing.State.{Node, pause_protocol}
use networking_project_chat.Transport.Receiver.{send, ack_header}
use networking_project_chat.Transport.Receiver.Delivery.{packet_nth}
use networking_project_chat.Transport.Sender.{Sender, Sent, send_with_retry, send_fragments}
use networking_project_chat.Transport.Sender.Retries.{paused, packet_of, send_with_retry-ack_header}

-- The fragments from `i` on, `left` of them, each as often as it is sent when its acknowledgement comes
-- in wait `waits i`.
abbrev pub sends : (ℕ → ℕ) → ℕ → ℕ → List ℕ
sends waits zero i = []
sends waits (suc left) i = replicate (suc (waits i)) i ++ sends waits left (i + 1)

pub paused_flag : (n : Node) → (paused n).pause_flag ≡ true
unfolding pause_protocol
paused_flag n = ground arith

paused-paused : (n : Node) → paused (paused n) ≡ paused n
paused-paused n = ap (λ b. if b then paused n else pause_protocol (paused n)) (paused_flag n)

paused_table : (n : Node) → (paused n).routing_table ≡ n.routing_table
unfolding pause_protocol
paused_table n = ground arith

pub paused_addressing : (n : Node) → (paused n).addressing ≡ n.addressing
unfolding pause_protocol
paused_addressing n = ground arith

-- The node once `left` fragments are sent.
abbrev pub after_fragments : ℕ → Node → Node
after_fragments zero n = n
after_fragments (suc left) n = paused n

pub after_fragments-paused : (left : ℕ) (n : Node) → after_fragments left (paused n) ≡ paused n
after_fragments-paused zero n = refl
after_fragments-paused (suc left) n = paused-paused n

-- What a wait brings: nothing, or in wait `waits i` the acknowledgement of fragment `i` alone.
pub record IsAcked (msg_id me : ℕ) (waits : ℕ → ℕ) (arrivals : ℕ → ℕ → List (List ℕ)) (i : ℕ)
    : Type 0 where
  pub other : ℕ
  pub hop : ℕ
  pub soon : waits i < 7
  pub quiet : (k : ℕ) → k < waits i → arrivals i k ≡ []
  pub comes : arrivals i (waits i) ≡ build_header (ack_header other hop msg_id i me) ∷ []

pub map-replicate :
    {A B : Type 0} (f : A → B) (n : ℕ) (x : A) (xs : List A)
    → map f (replicate n x ++ xs) ≡ replicate n (f x) ++ map f xs
map-replicate f zero x xs = refl
map-replicate f (suc n) x xs = ap (λ ys. f x ∷ ys) (map-replicate f n x xs)

module _ (message : List ℕ) (me dest next_hop msg_id type : ℕ) (r : Route) (waits : ℕ → ℕ)
    (arrivals : ℕ → ℕ → List (List ℕ)) (pos : 0 < me) (me_fits : me < 8) (id_fits : msg_id < 8)
    (unicast : (dest == 0) ≡ false) where
  abbrev total : ℕ
  total = total_fragments message

  paused_file :
      (n : Node) → n.addressing.addr_file ≡ some me → (paused n).addressing.addr_file ≡ some me
  paused_file n file = rw (paused_addressing n) file

  paused_route :
      (n : Node) → find dest n.routing_table ≡ some r → find dest (paused n).routing_table ≡ some r
  paused_route n route = rw (paused_table n) route

  -- The packet of fragment `i`, with the next hop of the route.
  abbrev packet : ℕ → List ℕ
  packet = packet_nth (fragment_message message me dest r.next_hop msg_id type)

  packet_of-packet :
      (i : ℕ)
      → i < total
      → packet_of me r (header_at message me dest next_hop msg_id type total i) (chunk message i)
        ≡ packet i
  unfolding packet_nth header_at
  packet_of-packet i h =
      rw (get_elem?-fragment_message message me dest r.next_hop msg_id type i h, packet_nth)
        (rw short)
    where
      short : length (chunk message i) % 2 ^ 8 ≡ length (chunk message i)
      short = omega (arith, length-chunk-le message i)

  send_nth :
      (i : ℕ) (s : Sender) (n : Node)
      → i < total
      → i < 2048
      → n.addressing.addr_file ≡ some me
      → find dest n.routing_table ≡ some r
      → IsAcked msg_id me waits arrivals i
      → send_with_retry
          (arrivals i)
          (header_at message me dest next_hop msg_id type total i)
          (chunk message i)
          (record s { current_msg_id = msg_id; current_fragment_id = u16 i })
          n
        ≡ some (record {
          effects = replicate (suc (waits i)) (send (packet i));
          sender = record { ack_received = true; current_msg_id = msg_id; current_fragment_id = i };
          node = paused n;
        })
  send_nth i s n h fits file route acked = rw same_id (
      send_with_retry-ack_header (arrivals i)
        (header_at message me dest next_hop msg_id type total i) (chunk message i)
        (record s { current_msg_id = msg_id; current_fragment_id = i }) n me r file
        (unfold header_at in unicast) (unfold header_at in route) (waits i) acked.other acked.hop
        acked.soon pos me_fits id_fits fits acked.quiet acked.comes
      ∙ rw (packet_of-packet i h))
    where
      same_id : i % 2 ^ 16 ≡ i
      same_id = omega arith

  fragments_from-suc :
      (left i : ℕ)
      → fragments_from message me dest next_hop msg_id type total (suc left) i
        ≡ (header_at message me dest next_hop msg_id type total i, chunk message i)
          ∷ fragments_from message me dest next_hop msg_id type total left (i + 1)
  unfolding fragments_from
  fragments_from-suc left i =
      ap (λ f. f ∷ fragments_from message me dest next_hop msg_id type total left (i + 1))
        (fragment_at-chunk message me dest next_hop msg_id type total i)

  -- The sender when fragment `i` is acknowledged.
  abbrev acked_at : ℕ → Sender
  acked_at i = record { ack_received = true; current_msg_id = msg_id; current_fragment_id = i }

  -- One fragment sent, and then the others.
  send_fragments_next :
      (i : ℕ) (fragments : List (Header × List ℕ)) (s : Sender) (n : Node) (rest : Sent)
      → i < total
      → i < 2048
      → n.addressing.addr_file ≡ some me
      → find dest n.routing_table ≡ some r
      → IsAcked msg_id me waits arrivals i
      → send_fragments (i + 1) arrivals fragments (acked_at i) (paused n) ≡ some rest
      → send_fragments i arrivals
          ((header_at message me dest next_hop msg_id type total i, chunk message i) ∷ fragments)
          s
          n
        ≡ some
            (record rest { effects = replicate (suc (waits i)) (send (packet i)) ++ rest.effects })
  unfolding send_fragments header_at
  send_fragments_next i fragments s n rest h fits file route acked others =
      rw (send_nth i s n h fits file route acked, others)

  -- The loop of `sendFragments` from fragment `i` on, with `left` of them to go.
  send_fragments-fragments_from :
      (left i : ℕ) (s : Sender) (n : Node)
      → i + left ≤ total
      → i + left ≤ 2048
      → n.addressing.addr_file ≡ some me
      → find dest n.routing_table ≡ some r
      → ((k : ℕ) → k < total → IsAcked msg_id me waits arrivals k)
      → (s' : Sender) × (send_fragments i arrivals
            (fragments_from message me dest next_hop msg_id type total left i)
            s
            n
          ≡ some (record {
            effects = map (λ k. send (packet k)) (sends waits left i);
            sender = s';
            node = after_fragments left n;
          }))
  send_fragments-fragments_from zero i s n h fits file route acked =
      (s, unfold send_fragments fragments_from in refl)
  send_fragments-fragments_from (suc left) i s n h fits file route acked =
      let (s', rest) =
        send_fragments-fragments_from left (i + 1)
          (record { ack_received = true; current_msg_id = msg_id; current_fragment_id = i })
          (paused n) (omega arith) (omega arith) (paused_file n file) (paused_route n route)
          acked in
      (
        s',
        rw (fragments_from-suc left i) (
            send_fragments_next i _ s n _ (omega arith) (omega arith) file route
              (acked i (omega arith)) rest
            ∙ ap₂ (λ effects n'. some (record { effects = effects; sender = s'; node = n' }))
                (sym (
                  map-replicate (λ k. send (packet k)) (suc (waits i)) i
                    (sends waits left (i + 1))))
                (after_fragments-paused left n)),
      )

  -- At a node with an address from 1 to 7 and a route to the destination, which is one node, for a
  -- message number below 8 and at most 2048 fragments, when for each fragment nothing comes before one
  -- of the first seven waits, and in it the destination's acknowledgement alone: `sendFragments` returns.
  -- It has sent the packets of the fragments in order, with the next hop of the route, each once for
  -- each of its waits, and the routing protocol is paused if there was a fragment.
  pub send_fragments-fragment_message :
      (s : Sender) (n : Node)
      → total ≤ 2048
      → n.addressing.addr_file ≡ some me
      → find dest n.routing_table ≡ some r
      → ((k : ℕ) → k < total → IsAcked msg_id me waits arrivals k)
      → (s' : Sender) × (send_fragments 0 arrivals
            (fragment_message message me dest next_hop msg_id type)
            s
            n
          ≡ some (record {
            effects = map (λ k. send (packet k)) (sends waits total 0);
            sender = s';
            node = after_fragments total n;
          }))
  unfolding fragment_message
  send_fragments-fragment_message s n fits file route acked =
      send_fragments-fragments_from total 0 s n (omega arith) (omega arith) file route acked
