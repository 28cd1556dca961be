-- ===== src/Fragmentation/Tests.antt =====
-- Fragmenting and reassembling at concrete messages.
use networking_project_chat.Prelude.{
  ℕ, ◌≡◌, refl, List, [], ◌∷◌, true, false, arith, none, replicate, ◌<◌, ◌==◌, if◌then◌else◌, elem,
}
use networking_project_chat.Prelude.Assoc.{find, insert_or_assign}
use networking_project_chat.Fragmentation.Fragmenter.{total_fragments, fragment_message}
use networking_project_chat.Fragmentation.Reassembler.{Reassembler, no_buffers, insert_fragment}
use networking_project_chat.Fragmentation.Late.{insert_fragment_late}
use networking_project_chat.Fragmentation.AnyOrder.{insert_nth, insert_all, insert_all_any_order}

-- Thirty bytes: two fragments.
abbrev thirty : List ℕ
thirty = replicate 30 65

two_fragments : total_fragments thirty ≡ 2
unfolding total_fragments
two_fragments = refl

out_of_order :
    (insert_nth thirty 1 2 3 5 1 (insert_all thirty 1 2 3 5 1 no_buffers (1 ∷ 1 ∷ [])).1 0).0
    ≡ thirty
unfolding insert_nth insert_all insert_fragment fragment_message find insert_or_assign
out_of_order = refl

one_comes_last : (j : ℕ) → j < total_fragments thirty → elem j (0 ∷ 1 ∷ 1 ∷ []) ≡ true
unfolding total_fragments
one_comes_last j h = grind arith

insert_all_any_order_example :
    (mid : Reassembler) × (done : Reassembler) × (insert_all thirty 1 2 3 5 1 no_buffers
        (1 ∷ 1 ∷ [])
      ≡ ([] ∷ [] ∷ [], mid))
    × (insert_nth thirty 1 2 3 5 1 mid 0 ≡ (thirty, done))
    × ((k : ℕ) → find k done.buffers ≡ (if 5 == k then none else find k []))
unfolding find total_fragments
insert_all_any_order_example =
    insert_all_any_order thirty 1 2 3 5 1 (omega arith) (omega arith) no_buffers (1 ∷ 1 ∷ []) 0 refl
      (omega arith) (omega arith) refl one_comes_last

-- The message "AB…", then one that begins with "C".
insert_fragment_late_example :
    ((insert_fragment no_buffers 5 1 false (66 ∷ [])).0 ≡ [])
    × ((insert_fragment (insert_fragment no_buffers 5 1 false (66 ∷ [])).1 5 0 true (67 ∷ [])).0
        ≡ 67 ∷ 66 ∷ [])
insert_fragment_late_example =
    insert_fragment_late no_buffers 5 66 67 [] [] (omega arith) (unfold find in refl)
