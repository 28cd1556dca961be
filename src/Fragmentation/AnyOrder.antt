-- ===== src/Fragmentation/AnyOrder.antt =====
-- The fragments of a message put together again, whatever the order they arrive in.
use networking_project_chat.Prelude.{
  ℕ, ◌-◌, ◌%◌, ◌^◌, ◌<◌, ◌≤◌, ◌≡◌, ◌≢◌, refl, ap, ◌∙◌, List, [], ◌∷◌, true, false, not, some, none,
  arith, if◌then◌else◌, ◌==◌, ltb, ==_refl, elem, get_elem?, replicate, length, All,
}
use networking_project_chat.Prelude.Assoc.{
  find, insert_or_assign, erase, at_or, find-insert_or_assign, find-erase,
}
use networking_project_chat.Packet.{Header}
use networking_project_chat.Fragmentation.Fragmenter.{total_fragments, fragment_message}
use networking_project_chat.Fragmentation.Reassembler.{
  FragmentSet, Reassembler, no_fragments, is_empty, join_from, insert_fragment,
}
use networking_project_chat.Fragmentation.Chunks.{
  chunk, chunks_from_lem, chunk-ne_nil, get_elem?-fragment_message, header_at,
}
use networking_project_chat.Fragmentation.Pieces.{
  Holds, no_fragments-Holds, store, store-Holds, store_missing, store_complete,
}
use networking_project_chat.Fragmentation.Completion.{join_from-chunks}

-- The pieces of a message, by the fragment that carries them.
module _ (message : List ℕ) (src dst next_hop msg_id type : ℕ) where
  abbrev pub fragments : List (Header × List ℕ)
  fragments = fragment_message message src dst next_hop msg_id type

  -- `insertFragment` on the fragment of that number, as the receiver calls it.
  unfoldable pub insert_nth : Reassembler → ℕ → List ℕ × Reassembler
  insert_nth r i = elim (get_elem? fragments i) [
    | none ↦ ([], r)
    | some (h, payload) ↦
        insert_fragment r h.message_id h.fragment_id (not (h.more_fragments == 0)) payload
  ]

  -- The results of a run of insertions, and the reassembler after them.
  unfoldable pub insert_all : Reassembler → List ℕ → List (List ℕ) × Reassembler
  insert_all r [] = ([], r)
  insert_all r (i ∷ is) =
      let (result, r') = insert_nth r i in
      let (results, r'') = insert_all r' is in (result ∷ results, r'')

abbrev seen_after : List ℕ → List ℕ → List ℕ
seen_after [] seen = seen
seen_after (i ∷ is) seen = seen_after is (i ∷ seen)

elem-seen_after :
    (j : ℕ) (ids seen : List ℕ)
    → elem j (seen_after ids seen) ≡ (if elem j ids then true else elem j seen)
elem-seen_after j [] seen = refl
elem-seen_after j (i ∷ is) seen = ground (arith, elem-seen_after j is (i ∷ seen))

module _ (message : List ℕ) (src dst next_hop msg_id type : ℕ)
    (short : total_fragments message ≤ 256) (id_fits : msg_id < 256) where
  abbrev n : ℕ
  n = total_fragments message

  abbrev insert : Reassembler → ℕ → List ℕ × Reassembler
  insert = insert_nth message src dst next_hop msg_id type

  abbrev pub buffer : Reassembler → FragmentSet
  buffer r = at_or no_fragments (find msg_id r.buffers)

  pub not_empty : (i : ℕ) → i < n → is_empty (chunk message i) ≡ false
  not_empty i h = nonempty (chunk message i) (chunk-ne_nil message i h)
    where
      nonempty : (bs : List ℕ) → bs ≢ [] → is_empty bs ≡ false
      nonempty [] ne = absurd (ne refl)
      nonempty (b ∷ bs) ne = refl

  insert_nth-insert_fragment :
      (r : Reassembler) (i : ℕ)
      → i < n
      → insert r i ≡ insert_fragment r msg_id i (ltb i (n - 1)) (chunk message i)
  unfolding insert_nth header_at
  insert_nth-insert_fragment r i h =
      rw (get_elem?-fragment_message message src dst next_hop msg_id type i h, insert_nth, same_id)
        (ap (λ b. insert_fragment r msg_id i b (chunk message i)) same_flag)
    where
      same_id : i % 2 ^ 16 ≡ i
      same_id = omega arith

      same_flag : not ((if ltb i (n - 1) then 1 else 0) == 0) ≡ ltb i (n - 1)
      same_flag = ground arith

  -- While a fragment is missing, an insertion returns nothing and keeps the fragment.
  pub insert_nth_missing :
      (seen : List ℕ) (r : Reassembler) (i j : ℕ)
      → i < n
      → j < n
      → elem j (i ∷ seen) ≡ false
      → Holds (chunk message) n seen (buffer r)
      → insert r i ≡ (
        [],
        record {
          buffers = insert_or_assign msg_id (store (chunk message) n (buffer r) i) r.buffers;
        },
      )
  unfolding insert_fragment
  insert_nth_missing seen r i j h k e v =
      insert_nth-insert_fragment r i h
      ∙ rw (
        same_id,
        same_fragment,
        store_missing (chunk message) n (omega arith) short not_empty seen (buffer r) i j h k e v,
      )
    where
      same_id : msg_id % 2 ^ 8 ≡ msg_id
      same_id = omega arith

      same_fragment : i % 2 ^ 8 ≡ i
      same_fragment = omega arith

  -- The fragment that was missing last brings the message, and the buffer is erased.
  pub insert_nth_last :
      (seen : List ℕ) (r : Reassembler) (i : ℕ)
      → i < n
      → ((j : ℕ) → j < n → elem j (i ∷ seen) ≡ true)
      → Holds (chunk message) n seen (buffer r)
      → insert r i ≡ (message, record { buffers = erase msg_id r.buffers })
  unfolding insert_fragment
  insert_nth_last seen r i h all v =
      insert_nth-insert_fragment r i h
      ∙ rw
          (
            same_id,
            same_fragment,
            store_complete (chunk message) n (omega arith) short not_empty seen (buffer r) i h all
                v,
          )
          (ap (λ m. (m, record { buffers = erase msg_id r.buffers })) joined)
    where
      same_id : msg_id % 2 ^ 8 ≡ msg_id
      same_id = omega arith

      same_fragment : i % 2 ^ 8 ≡ i
      same_fragment = omega arith

      fs : FragmentSet
      fs = store (chunk message) n (buffer r) i

      w : Holds (chunk message) n (i ∷ seen) fs
      w = store-Holds (chunk message) n (omega arith) short not_empty seen (buffer r) i h v

      joined : join_from fs.total_fragments 0 fs.fragments [] ≡ message
      joined =
          rw (w.total, all (n - 1) (omega arith))
            (join_from-chunks message n 0 fs.fragments []
                (λ j p q. rw (w.stored j (omega arith), all j (omega arith)))
              ∙ chunks_from_lem message)

  -- The buffers of the other messages are the same.
  abbrev pub SameElsewhere : Reassembler → Reassembler → Type 0
  SameElsewhere r r' = (k : ℕ) → k ≢ msg_id → find k r'.buffers ≡ find k r.buffers

  -- A run of insertions that never brings fragment `last` returns nothing at every step.
  insert_all_silent :
      (ids seen : List ℕ) (r : Reassembler) (last : ℕ)
      → All (λ i. i < n) ids
      → last < n
      → elem last ids ≡ false
      → elem last seen ≡ false
      → Holds (chunk message) n seen (buffer r)
      → (mid : Reassembler) × (insert_all message src dst next_hop msg_id type r ids
          ≡ (replicate (length ids) [], mid))
        × Holds (chunk message) n (seen_after ids seen) (buffer mid)
        × SameElsewhere r mid
  unfolding insert_all
  insert_all_silent [] seen r last below k e f v = (r, refl, v, λ j ne. refl)
  insert_all_silent (i ∷ is) seen r last below k e f v =
      let rest = insert_all_silent is (i ∷ seen) r' last below.1 k (ground arith) missing held in
      (rest.0, rw (step, rest.1), rest.2, λ j ne. rest.3 j ne ∙ elsewhere j ne)
    where
      missing : elem last (i ∷ seen) ≡ false
      missing = ground arith

      fs : FragmentSet
      fs = store (chunk message) n (buffer r) i

      r' : Reassembler
      r' = record { buffers = insert_or_assign msg_id fs r.buffers }

      step : insert r i ≡ ([], r')
      step = insert_nth_missing seen r i last below.0 k missing v

      held : Holds (chunk message) n (i ∷ seen) (buffer r')
      held =
          rw (find-insert_or_assign msg_id msg_id fs r.buffers, ==_refl msg_id)
            (store-Holds (chunk message) n (omega arith) short not_empty seen (buffer r) i below.0
              v)

      elsewhere : SameElsewhere r r'
      elsewhere j ne = ground (arith, find-insert_or_assign msg_id j fs r.buffers)

  -- The fragments of a message of 1 to 256 fragments, brought in any order and any number of times,
  -- under a number below 256 and with no buffer for it at the start: every insertion returns nothing
  -- until each fragment has come, the one that completes them returns the message, and then no buffer
  -- is left for it and those of the other messages are as before.
  pub insert_all_any_order :
      (r : Reassembler) (ids : List ℕ) (last : ℕ)
      → find msg_id r.buffers ≡ none
      → All (λ i. i < n) ids
      → last < n
      → elem last ids ≡ false
      → ((j : ℕ) → j < n → elem j (last ∷ ids) ≡ true)
      → (mid : Reassembler) × (done : Reassembler) × (insert_all message src dst next_hop msg_id
            type r ids
          ≡ (replicate (length ids) [], mid))
        × (insert mid last ≡ (message, done))
        × ((k : ℕ) → find k done.buffers ≡ (if msg_id == k then none else find k r.buffers))
  insert_all_any_order r ids last fresh below k e all =
      let silent = insert_all_silent ids [] r last below k e refl initial in
      (
        silent.0,
        record { buffers = erase msg_id silent.0.buffers },
        silent.1,
        insert_nth_last (seen_after ids []) silent.0 last k
            (λ j p. ground (arith, all j p, elem-seen_after j ids [])) silent.2,
        λ j. ground (arith, find-erase msg_id j silent.0.buffers, silent.3 j),
      )
    where
      initial : Holds (chunk message) n [] (buffer r)
      initial = rw fresh (no_fragments-Holds (chunk message) n (omega arith) short not_empty)
