-- ===== src/Fragmentation/Rounds.antt =====
-- Any packets of a message, also those that come after it has been put together
-- (src/backend/fragmentation).
use networking_project_chat.Prelude.{
  ℕ, zero, suc, ◌<◌, ◌≤◌, ◌≡◌, ◌≢◌, refl, ◌∙◌, List, [], ◌∷◌, Bool, true, false, ◌&&◌, ◌==◌,
  ==_refl, none, arith, if◌then◌else◌, elem, All, inl, inr, Bool-cases,
}
use networking_project_chat.Prelude.Assoc.{
  find, insert_or_assign, erase, find-insert_or_assign, find-erase,
}
use networking_project_chat.Fragmentation.Fragmenter.{total_fragments}
use networking_project_chat.Fragmentation.Reassembler.{FragmentSet, Reassembler}
use networking_project_chat.Fragmentation.Chunks.{chunk}
use networking_project_chat.Fragmentation.Pieces.{Holds, no_fragments-Holds, store, store-Holds}
use networking_project_chat.Fragmentation.AnyOrder.{
  insert_all, insert_nth, buffer, not_empty, insert_nth_missing, insert_nth_last, SameElsewhere,
}

-- Whether all the numbers below `n` are in a list.
abbrev pub complete : ℕ → List ℕ → Bool
complete zero seen = true
complete (suc n) seen = elem n seen && complete n seen

pub complete_all :
    (n : ℕ) (seen : List ℕ) (j : ℕ) → complete n seen ≡ true → j < n → elem j seen ≡ true
complete_all zero seen j e h = absurd (omega arith)
complete_all (suc n) seen j e h = elim (Bool-cases (j == n)) [
  | inl same ↦ let eq : j ≡ n = ground (arith, same) in rw eq (ground (arith, e))
  | inr other ↦ complete_all n seen j (ground (arith, e)) (ground (arith, other))
]

pub complete_missing :
    (n : ℕ) (seen : List ℕ) → complete n seen ≡ false → (j : ℕ) × (j < n) × (elem j seen ≡ false)
complete_missing zero seen e = absurd (ground (arith, e))
complete_missing (suc n) seen e = elim (Bool-cases (elem n seen)) [
  | inl here ↦
      let (j, h, missing) = complete_missing n seen (ground (arith, e, here)) in
      (j, omega arith, missing)
  | inr away ↦ (n, omega arith, away)
]

-- What each fragment gives, when those of `seen` have come since the start or since the message was last
-- put together: the message, if all have come with it, and then the next fragments start afresh.
abbrev pub wholes : ℕ → List ℕ → List ℕ → List ℕ → List (List ℕ)
wholes n message seen [] = []
wholes n message seen (i ∷ is) =
    if complete n (i ∷ seen)
    then message ∷ wholes n message [] is
    else [] ∷ wholes n message (i ∷ seen) is

module _ (message : List ℕ) (src dst next_hop msg_id type : ℕ)
    (short : total_fragments message ≤ 256) (id_fits : msg_id < 256) where
  abbrev n : ℕ
  n = total_fragments message

  abbrev insert : Reassembler → ℕ → List ℕ × Reassembler
  insert = insert_nth message src dst next_hop msg_id type

  abbrev held : Reassembler → FragmentSet
  held = buffer message src dst next_hop msg_id type short id_fits

  abbrev Elsewhere : Reassembler → Reassembler → Type 0
  Elsewhere = SameElsewhere message src dst next_hop msg_id type short id_fits

  initial :
      (r : Reassembler) → 0 < n → find msg_id r.buffers ≡ none → Holds (chunk message) n [] (held r)
  initial r pos fresh = rw fresh (
      no_fragments-Holds (chunk message) n pos short
        (not_empty message src dst next_hop msg_id type short id_fits))

  insert_all-wholes :
      (ids seen : List ℕ) (r : Reassembler)
      → All (λ i. i < n) ids
      → Holds (chunk message) n seen (held r)
      → (end : Reassembler) × (insert_all message src dst next_hop msg_id type r ids
          ≡ (wholes n message seen ids, end))
        × Elsewhere r end
  unfolding insert_all
  insert_all-wholes [] seen r below v = (r, refl, λ k ne. refl)
  insert_all-wholes (i ∷ is) seen r below v = elim (Bool-cases (complete n (i ∷ seen))) [
    | inl whole ↦
        let r' : Reassembler = record { buffers = erase msg_id r.buffers } in
        let step =
          insert_nth_last message src dst next_hop msg_id type short id_fits seen r i below.0
            (λ j h. complete_all n (i ∷ seen) j whole h) v in
        let (end, rest, elsewhere) =
          insert_all-wholes is [] r' below.1 (initial r' (omega arith) gone) in
        (end, rw (whole, step, rest) refl, λ k ne. elsewhere k ne ∙ erased k ne)
    | inr part ↦
        let (j, h, missing) = complete_missing n (i ∷ seen) part in
        let fs : FragmentSet = store (chunk message) n (held r) i in
        let r' : Reassembler = record { buffers = insert_or_assign msg_id fs r.buffers } in
        let step =
          insert_nth_missing message src dst next_hop msg_id type short id_fits seen r i j below.0 h
            missing v in
        let v' =
          store-Holds (chunk message) n (omega arith) short
            (not_empty message src dst next_hop msg_id type short id_fits) seen (held r) i below.0
            v in
        let (end, rest, elsewhere) = insert_all-wholes is (i ∷ seen) r' below.1 (kept fs v') in
        (end, rw (part, step, rest) refl, λ k ne. elsewhere k ne ∙ assigned fs k ne)
  ]
    where
      gone : find msg_id (erase msg_id r.buffers) ≡ none
      gone = ground (arith, find-erase msg_id msg_id r.buffers)

      erased : (k : ℕ) → k ≢ msg_id → find k (erase msg_id r.buffers) ≡ find k r.buffers
      erased k ne = ground (arith, find-erase msg_id k r.buffers)

      kept :
          (fs : FragmentSet)
          → Holds (chunk message) n (i ∷ seen) fs
          → Holds
              (chunk message)
              n
              (i ∷ seen)
              (held (record { buffers = insert_or_assign msg_id fs r.buffers }))
      kept fs v' = rw (find-insert_or_assign msg_id msg_id fs r.buffers, ==_refl msg_id) v'

      assigned :
          (fs : FragmentSet) (k : ℕ)
          → k ≢ msg_id
          → find k (insert_or_assign msg_id fs r.buffers) ≡ find k r.buffers
      assigned fs k ne = ground (arith, find-insert_or_assign msg_id k fs r.buffers)

  -- Any fragments of a message of 1 to 256 fragments, in any order, any number of times and for as long
  -- as they come, under a number below 256 and with no buffer for it at the start: an insertion returns
  -- the message exactly when each fragment has come since the start or since the message was last
  -- returned, and nothing otherwise. The buffers of other messages are as before.
  pub insert_all_rounds :
      (r : Reassembler) (ids : List ℕ)
      → 0 < n
      → find msg_id r.buffers ≡ none
      → All (λ i. i < n) ids
      → (end : Reassembler) × (insert_all message src dst next_hop msg_id type r ids
          ≡ (wholes n message [] ids, end))
        × ((k : ℕ) → k ≢ msg_id → find k end.buffers ≡ find k r.buffers)
  insert_all_rounds r ids pos fresh below = insert_all-wholes ids [] r below (initial r pos fresh)
