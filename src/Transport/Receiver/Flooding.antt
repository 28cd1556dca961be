-- ===== src/Transport/Receiver/Flooding.antt =====
-- A whole message for all nodes, whatever the order in which its packets arrive.
use networking_project_chat.Prelude.{
  ℕ, suc, ◌<◌, ◌≤◌, ◌≡◌, refl, ap, ◌∙◌, List, [], ◌∷◌, ◌++◌, none, some, true, false, length, arith,
  ◌>>=◌, if◌then◌else◌, replicate, All, elem, inl, inr, Bool-cases,
}
use mathlib.Core.Path.{ap₂, subst}
use mathlib.Core.List.{append-nil}
use networking_project_chat.Prelude.Assoc.{find}
use networking_project_chat.Packet.{Header}
use networking_project_chat.Fragmentation.Fragmenter.{total_fragments, fragment_message}
use networking_project_chat.Fragmentation.Reassembler.{Reassembler, is_empty}
use networking_project_chat.Fragmentation.Chunks.{is_empty_message}
use networking_project_chat.Fragmentation.AnyOrder.{insert_nth, insert_all, insert_all_any_order}
use networking_project_chat.Routing.State.{Node}
use networking_project_chat.Transport.Receiver.{
  Receiver, Effect, message_ready, on_packet_received, already_received,
}
use networking_project_chat.Transport.Receiver.Firsts.{
  firsts, elem-firsts, firsts-All, come, elem-come,
}
use networking_project_chat.Transport.Receiver.Delivery.{packet_nth, receive_all}
use networking_project_chat.Transport.Receiver.FloodOnce.{relays, receive_first, receive_again}

-- What is sent on: each fragment when it comes for the first time.
abbrev pub flooded : List (Header × List ℕ) → List ℕ → List ℕ → List (List Effect)
flooded fragments [] seen = []
flooded fragments (i ∷ is) seen =
    if elem i seen
    then [] ∷ flooded fragments is seen
    else relays fragments i ∷ flooded fragments is (i ∷ seen)

module _ (message : List ℕ) (src me msg_id type : ℕ) (n : Node)
    (short : total_fragments message ≤ 256) (src_fits : src < 8) (id_fits : msg_id < 8)
    (type_fits : type < 8) (file : n.addressing.addr_file ≡ some me) where
  abbrev fragments : List (Header × List ℕ)
  fragments = fragment_message message src 0 0 msg_id type

  abbrev insert : Reassembler → ℕ → List ℕ × Reassembler
  insert = insert_nth message src 0 0 msg_id type

  abbrev ready : List ℕ → List Effect
  ready full = if is_empty full then [] else message_ready src full true ∷ []

  -- The numbers of the message's fragments that are among the broadcasts seen.
  abbrev HasSeen : List ℕ → Receiver → Type 0
  HasSeen seen rcv =
      (j : ℕ)
      → j < total_fragments message
      → already_received msg_id j rcv.seen_broadcasts ≡ elem j seen

  HasSeen-suc :
      (i : ℕ) (seen : List ℕ) (r : Reassembler) (rcv : Receiver)
      → HasSeen seen rcv
      → HasSeen
          (i ∷ seen)
          (record { reassembler = r; seen_broadcasts = (msg_id, i) ∷ rcv.seen_broadcasts })
  unfolding already_received
  HasSeen-suc i seen r rcv has j h = ground (arith, has j h)

  record Flooded (ids seen : List ℕ) (mid : Reassembler) (rcv : Receiver) : Type 0 where
    after : Receiver
    returns : receive_all fragments ids n rcv ≡ some (flooded fragments ids seen, n, after)
    held : after.reassembler ≡ mid
    has_seen : HasSeen (come ids seen) after

  receive_all-cons :
      (i : ℕ) (is : List ℕ) (rcv rcv' : Receiver) (effects : List Effect)
      → on_packet_received (packet_nth fragments i) n rcv ≡ some (effects, n, rcv')
      → receive_all fragments (i ∷ is) n rcv
        ≡ (receive_all fragments is n rcv' >>= λ r. some (effects ∷ r.0, r.1, r.2))
  unfolding receive_all
  receive_all-cons i is rcv rcv' effects e = rw e refl

  insert_all-cons :
      (i : ℕ) (is : List ℕ) (r mid : Reassembler)
      → insert_all message src 0 0 msg_id type r (i ∷ is) ≡ (replicate (suc (length is)) [], mid)
      → ((insert r i).0 ≡ [])
        × (insert_all message src 0 0 msg_id type (insert r i).1 is
            ≡ (replicate (length is) [], mid))
  unfolding insert_all
  insert_all-cons i is r mid e =
      let lists = ap (λ (p : List (List ℕ) × Reassembler). p.0) e in
      (
        ap (λ (xs : List (List ℕ)). elim xs [ [] ↦ [] | x ∷ rest ↦ x ]) lists,
        ap₂ (λ (xs : List (List ℕ)) (m : Reassembler). (xs, m))
            (ap (λ (xs : List (List ℕ)). elim xs [ [] ↦ [] | x ∷ rest ↦ rest ]) lists)
            (ap (λ (p : List (List ℕ) × Reassembler). p.1) e),
      )

  abbrev IsSilent : Receiver → Reassembler → List ℕ → Type 0
  IsSilent rcv mid ids =
      insert_all message src 0 0 msg_id type rcv.reassembler ids ≡ (replicate (length ids) [], mid)

  receive_all_lem :
      (ids seen : List ℕ) (mid : Reassembler) (rcv : Receiver)
      → All (λ i. i < total_fragments message) ids
      → HasSeen seen rcv
      → insert_all message src 0 0 msg_id type rcv.reassembler (firsts ids seen)
        ≡ (replicate (length (firsts ids seen)) [], mid)
      → Flooded ids seen mid rcv
  unfolding receive_all insert_all
  receive_all_lem [] seen mid rcv below has e = record {
    after = rcv;
    returns = refl;
    held = ap (λ p. p.1) e;
    has_seen = has;
  }
  receive_all_lem (i ∷ is) seen mid rcv below has e = elim (Bool-cases (elem i seen)) [
    | inl again ↦
        let same : firsts (i ∷ is) seen ≡ firsts is seen = rw again refl in
        let rest = receive_all_lem is seen mid rcv below.1 has (subst (IsSilent rcv mid) same e) in
        record {
          after = rest.after;
          returns =
              receive_all-cons i is rcv rcv [] (
                receive_again message src me msg_id type n short src_fits id_fits type_fits file rcv
                  i below.0 (has i below.0 ∙ again))
              ∙ rw rest.returns (rw again refl);
          held = rest.held;
          has_seen = rw again rest.has_seen;
        }
    | inr first ↦
        let more : firsts (i ∷ is) seen ≡ i ∷ firsts is (i ∷ seen) = rw first refl in
        let (silent, others) =
          insert_all-cons i (firsts is (i ∷ seen)) rcv.reassembler mid
            (subst (IsSilent rcv mid) more e) in
        let rcv' : Receiver = record {
          reassembler = (insert rcv.reassembler i).1;
          seen_broadcasts = (msg_id, i) ∷ rcv.seen_broadcasts;
        } in
        let rest =
          receive_all_lem is (i ∷ seen) mid rcv' below.1
            (HasSeen-suc i seen (insert rcv.reassembler i).1 rcv has) others in
        record {
          after = rest.after;
          returns =
              receive_all-cons i is rcv rcv' (relays fragments i) (
                receive_first message src me msg_id type n short src_fits id_fits type_fits file rcv
                  i below.0 (has i below.0 ∙ first)
                ∙ ap (λ full. some (relays fragments i ++ ready full, n, rcv')) silent
                ∙ ap (λ sent. some (sent, n, rcv')) (append-nil (relays fragments i)))
              ∙ rw rest.returns (rw first refl);
          held = rest.held;
          has_seen = rw first rest.has_seen;
        }
  ]

  receive_last :
      (mid : Receiver) (done : Reassembler) (last : ℕ)
      → last < total_fragments message
      → already_received msg_id last mid.seen_broadcasts ≡ false
      → insert mid.reassembler last ≡ (message, done)
      → on_packet_received (packet_nth fragments last) n mid
        ≡ some (
          relays fragments last ++ message_ready src message true ∷ [],
          n,
          record { reassembler = done; seen_broadcasts = (msg_id, last) ∷ mid.seen_broadcasts },
        )
  receive_last mid done last h new joined =
      receive_first message src me msg_id type n short src_fits id_fits type_fits file mid last h
        new
      ∙ ap
          (λ (p : List ℕ × Reassembler). some (
            relays fragments last ++ ready p.0,
            n,
            record { reassembler = p.1; seen_broadcasts = (msg_id, last) ∷ mid.seen_broadcasts },
          ))
          joined
      ∙ rw (is_empty_message message last h) refl

  -- At a node with an address, the packets of a message for all nodes, which has 1 to 256 fragments and
  -- whose sender's address, number and type fit their bits, come in any order and any number of times,
  -- while no buffer is held under the message's number and none of its fragments is among the broadcasts
  -- seen: each fragment is sent on, four times, when it comes for the first time, and ignored after that; nothing is
  -- delivered until every fragment has come, and with the one that completes them the whole message is
  -- delivered, once, under its sender's address. After that each packet of the message is ignored.
  pub receive_all_floods :
      (rcv : Receiver) (ids : List ℕ) (last : ℕ)
      → find msg_id rcv.reassembler.buffers ≡ none
      → ((j : ℕ)
          → j < total_fragments message
          → already_received msg_id j rcv.seen_broadcasts ≡ false)
      → All (λ i. i < total_fragments message) ids
      → last < total_fragments message
      → elem last ids ≡ false
      → ((j : ℕ) → j < total_fragments message → elem j (last ∷ ids) ≡ true)
      → (mid : Receiver) × (done : Receiver) × (receive_all fragments ids n rcv
          ≡ some (flooded fragments ids [], n, mid))
        × (on_packet_received (packet_nth fragments last) n mid
            ≡ some (relays fragments last ++ message_ready src message true ∷ [], n, done))
        × ((j : ℕ)
            → j < total_fragments message
            → on_packet_received (packet_nth fragments j) n done ≡ some ([], n, done))
  receive_all_floods rcv ids last fresh new below k e all =
      let (mid, done, silent, joined, elsewhere) =
        insert_all_any_order message src 0 0 msg_id type short (omega arith) rcv.reassembler
          (firsts ids []) last fresh (firsts-All (λ i. i < total_fragments message) ids [] below) k
          (elem-firsts last ids [] ∙ ground (arith, e))
          (λ j h. ground (arith, all j h, elem-firsts j ids [])) in
      let first = receive_all_lem ids [] mid rcv below new silent in
      let final : Receiver = record {
        reassembler = done;
        seen_broadcasts = (msg_id, last) ∷ first.after.seen_broadcasts;
      } in
      (
        first.after,
        final,
        first.returns,
        receive_last first.after done last k
            (first.has_seen last k ∙ elem-come last ids [] ∙ ground (arith, e))
            (ap (λ r. insert r last) first.held ∙ joined),
        λ j h.
            receive_again message src me msg_id type n short src_fits id_fits type_fits file final j
              h
              (HasSeen-suc last (come ids []) done first.after first.has_seen j h
                ∙ ground (arith, all j h, elem-come j ids [])),
      )
