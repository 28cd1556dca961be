-- ===== src/Fragmentation/Late.antt =====
-- A packet that comes again when its message has been put together (src/backend/fragmentation).
use networking_project_chat.Prelude.{
  ℕ, ◌%◌, ◌^◌, ◌<◌, ◌≡◌, refl, List, [], ◌∷◌, ◌++◌, true, false, some, none, arith,
}
use networking_project_chat.Prelude.Assoc.{find, insert_or_assign, erase, find-insert_or_assign}
use networking_project_chat.Fragmentation.Reassembler.{FragmentSet, Reassembler, insert_fragment}

-- The buffer that the last of two fragments opens.
abbrev reopened : List ℕ → FragmentSet
reopened old = record {
  fragments = (1, old) ∷ (0, []) ∷ [];
  is_complete = false;
  total_fragments = 2;
  mf_recv = true;
}

module _ (r : Reassembler) (msg_id b c : ℕ) (old new : List ℕ) (id_fits : msg_id < 256) where
  same_id : msg_id % 2 ^ 8 ≡ msg_id
  same_id = omega arith

  late :
      find msg_id r.buffers ≡ none
      → insert_fragment r msg_id 1 false (b ∷ old)
        ≡ ([], record { buffers = insert_or_assign msg_id (reopened (b ∷ old)) r.buffers })
  unfolding insert_fragment find insert_or_assign
  late delivered = rw (same_id, delivered) refl

  next_message :
      (r' : Reassembler)
      → find msg_id r'.buffers ≡ some (reopened (b ∷ old))
      → insert_fragment r' msg_id 0 true (c ∷ new)
        ≡ ((c ∷ new) ++ b ∷ old, record { buffers = erase msg_id r'.buffers })
  unfolding insert_fragment find insert_or_assign
  next_message r' held = rw (same_id, held) refl

  -- When a message of two fragments has been put together, so that no buffer is held under its number,
  -- which is below 256, and the packet of its last fragment comes once more: nothing is returned, and a
  -- buffer is open again. The first fragment of the next message with that number is then at once
  -- returned as a whole message, with the bytes of the old message's last fragment behind it. Neither
  -- fragment is empty.
  pub insert_fragment_late :
      find msg_id r.buffers ≡ none
      → ((insert_fragment r msg_id 1 false (b ∷ old)).0 ≡ [])
        × ((insert_fragment
              (insert_fragment r msg_id 1 false (b ∷ old)).1
              msg_id
              0
              true
              (c ∷ new)).0
            ≡ (c ∷ new) ++ b ∷ old)
  insert_fragment_late delivered = rw (late delivered) (refl, rw (next_message _ held) refl)
    where
      held :
          find msg_id (insert_or_assign msg_id (reopened (b ∷ old)) r.buffers)
          ≡ some (reopened (b ∷ old))
      held = rw (find-insert_or_assign msg_id msg_id (reopened (b ∷ old)) r.buffers) ground arith
