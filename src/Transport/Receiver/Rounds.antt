-- ===== src/Transport/Receiver/Rounds.antt =====
-- The packets of a message at its destination, for as long as they come.
use mathlib.Core.List.{append-nil}
use mathlib.Core.Path.{ap₂, subst}
use networking_project_chat.Prelude.{
  ℕ, zero, suc, ◌<◌, ◌≤◌, ◌≡◌, ◌≢◌, refl, ap, sym, ◌-◌, ◌∙◌, List, [], ◌∷◌, ◌++◌, none, some, false,
  arith, if◌then◌else◌, All, inl, inr, Bool-cases, elem, replicate, ◌==◌,
}
use networking_project_chat.Prelude.Assoc.{find}
use networking_project_chat.Fragmentation.Fragmenter.{total_fragments, fragment_message}
use networking_project_chat.Fragmentation.Chunks.{is_empty_message}
use networking_project_chat.Fragmentation.Rounds.{complete, complete_all, wholes, insert_all_rounds}
use networking_project_chat.Routing.State.{Node}
use networking_project_chat.Transport.Receiver.{Receiver, Effect, message_ready, send_ack}
use networking_project_chat.Transport.Receiver.Delivery.{
  receive_all, effects_of, receive_all-insert_all,
}

-- What each packet of a message with `n` fragments gives, when those of `seen` have come since the start or
-- since the last delivery: its acknowledgement, and the delivery if all have come with it.
abbrev pub received : ℕ → (ℕ → List Effect) → List Effect → List ℕ → List ℕ → List (List Effect)
received n acked delivered seen [] = []
received n acked delivered seen (i ∷ is) =
    if complete n (i ∷ seen)
    then (acked i ++ delivered) ∷ received n acked delivered [] is
    else acked i ∷ received n acked delivered (i ∷ seen) is

module _ (message : List ℕ) (src me next_hop msg_id type : ℕ) (n : Node)
    (short : total_fragments message ≤ 256) (src_fits : src < 8) (pos : 0 < me) (me_fits : me < 8)
    (hop_fits : next_hop < 8) (id_fits : msg_id < 8) (type_fits : type < 8)
    (file : n.addressing.addr_file ≡ some me) where
  abbrev total : ℕ
  total = total_fragments message

  abbrev acked : ℕ → List Effect
  acked i = (send_ack msg_id i src n).0

  abbrev delivered : List Effect
  delivered = message_ready src message false ∷ []

  abbrev effects : List ℕ → List (List ℕ) → List (List Effect)
  effects =
      effects_of message src me next_hop msg_id type n short src_fits pos me_fits hop_fits id_fits
        type_fits file

  effects-wholes :
      (ids seen : List ℕ)
      → All (λ i. i < total) ids
      → effects ids (wholes total message seen ids) ≡ received total acked delivered seen ids
  effects-wholes [] seen below = refl
  effects-wholes (i ∷ is) seen below = elim (Bool-cases (complete total (i ∷ seen))) [
    | inl whole ↦
        rw (whole, is_empty_message message i below.0)
          (ap (λ es. (acked i ++ delivered) ∷ es) (effects-wholes is [] below.1))
    | inr part ↦ rw part (ap₂ ◌∷◌ (append-nil (acked i)) (effects-wholes is (i ∷ seen) below.1))
  ]

  -- At the node that a message is for, whose address is from 1 to 7, any packets of the message's
  -- fragments, which are 1 to 256 and whose other addresses, number and type fit their bits, in any order,
  -- with any repeats and for as long as they come, while no buffer is held under the message's number at
  -- the start: each is acknowledged, if there is a route to the sender, and the whole message is
  -- delivered under its sender's address with exactly those packets with which each fragment has come
  -- since the start or since the delivery before. So a message of one fragment is delivered with every
  -- packet. The node is as before, and so are the buffers of other messages and the broadcasts seen.
  pub receive_all_rounds :
      (rcv : Receiver) (ids : List ℕ)
      → 0 < total
      → find msg_id rcv.reassembler.buffers ≡ none
      → All (λ i. i < total) ids
      → (end : Receiver) × (receive_all
            (fragment_message message src me next_hop msg_id type)
            ids
            n
            rcv
          ≡ some (received total acked delivered [] ids, n, end))
        × (end.seen_broadcasts ≡ rcv.seen_broadcasts)
        × ((k : ℕ) → k ≢ msg_id → find k end.reassembler.buffers ≡ find k rcv.reassembler.buffers)
  receive_all_rounds rcv ids some_fragment fresh below =
      let (end, run, elsewhere) =
        insert_all_rounds message src me next_hop msg_id type short (omega arith) rcv.reassembler
          ids some_fragment fresh below in
      (
        record rcv { reassembler = end },
        receive_all-insert_all message src me next_hop msg_id type n short src_fits pos me_fits
              hop_fits id_fits type_fits file ids rcv below
            ∙ rw run (
                ap (λ es. some (es, n, record rcv { reassembler = end }))
                  (effects-wholes ids [] below)),
        refl,
        elsewhere,
      )

-- Repeats of the last of `n` fragments, when none has come since the last delivery.
module _ (acked : ℕ → List Effect) (delivered : List Effect) where
  abbrev pub repeat : ℕ → List Effect
  repeat n = acked (n - 1) ++ (if n == 1 then delivered else [])

  received_one :
      (k : ℕ) → received 1 acked delivered [] (replicate k 0) ≡ replicate k (acked 0 ++ delivered)
  received_one zero = refl
  received_one (suc k) = ap (λ es. (acked 0 ++ delivered) ∷ es) (received_one k)

  received_part :
      (k n last : ℕ) (seen : List ℕ)
      → 0 < n
      → 0 < last
      → elem 0 seen ≡ false
      → received n acked delivered seen (replicate k last) ≡ replicate k (acked last)
  received_part zero n last seen pos some_other e = refl
  received_part (suc k) n last seen pos some_other e =
      elim (Bool-cases (complete n (last ∷ seen))) [
        | inl whole ↦ absurd (ground (arith, complete_all n (last ∷ seen) 0 whole pos, away))
        | inr part ↦
            rw part (
              ap (λ es. acked last ∷ es) (received_part k n last (last ∷ seen) pos some_other away))
      ]
    where
      away : elem 0 (last ∷ seen) ≡ false
      away = ground (arith, e)

  pub received-replicate :
      (n k : ℕ)
      → 0 < n
      → received n acked delivered [] (replicate k (n - 1)) ≡ replicate k (repeat n)
  received-replicate n k pos = elim (Bool-cases (n == 1)) [
    | inl one ↦
        let same : n ≡ 1 = ground (arith, one) in
        subst (λ n. received n acked delivered [] (replicate k (n - 1)) ≡ replicate k (repeat n))
          (sym same) (received_one k)
    | inr more ↦ rw more (
        received_part k n (n - 1) [] pos (ground (arith, more)) refl
        ∙ ap (replicate k) (sym (append-nil (acked (n - 1)))))
  ]
