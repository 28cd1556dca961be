-- ===== src/Fragmentation/Completion.antt =====
-- When `Reassembler` takes a buffer for complete, and what it then collects.
use networking_project_chat.Prelude.{
  ℕ, zero, suc, ◌+◌, ◌<◌, ◌≤◌, ◌≡◌, refl, ap, sym, ◌∙◌, List, [], ◌++◌, Bool, true, false, not,
  ◌&&◌, arith, if◌then◌else◌, ◌==◌, Bool-cases, inl, inr,
}
use networking_project_chat.Prelude.Assoc.{insert_or_assign, contains, find-insert_or_assign}
use networking_project_chat.Fragmentation.Reassembler.{
  is_empty, payload_at, touch_from, complete_from, join_from,
}
use networking_project_chat.Fragmentation.Chunks.{chunk, chunks_from}
use mathlib.Core.List.{append_assoc, append-nil}

-- The entries that the printing loop leaves behind read as no entry.
payload_at-touch_from :
    (left i j : ℕ) (m : List (ℕ × List ℕ)) → payload_at j (touch_from left i m) ≡ payload_at j m
unfolding touch_from
payload_at-touch_from zero i j m = refl
payload_at-touch_from (suc left) i j m =
    payload_at-touch_from left (i + 1) j (if contains i m then m else insert_or_assign i [] m)
    ∙ touched
  where
    touched : payload_at j (if contains i m then m else insert_or_assign i [] m) ≡ payload_at j m
    touched = ground (arith, find-insert_or_assign i j [] m)

-- A stored payload is read back, and no other entry changes.
pub payload_at-stored :
    (left id j : ℕ) (payload : List ℕ) (m : List (ℕ × List ℕ))
    → payload_at j (touch_from left 0 (insert_or_assign id payload m))
      ≡ (if id == j then payload else payload_at j m)
payload_at-stored left id j payload m =
    payload_at-touch_from left 0 j (insert_or_assign id payload m)
    ∙ ground (arith, find-insert_or_assign id j payload m)

-- One round of the loop: a missing entry counts like an empty one.
complete_step :
    (i : ℕ) (m : List (ℕ × List ℕ)) (complete : Bool)
    → (if contains i m then complete && not (is_empty (payload_at i m)) else false)
      ≡ complete && not (is_empty (payload_at i m))
complete_step i m complete = ground arith

complete_from-false : (left i : ℕ) (m : List (ℕ × List ℕ)) → complete_from left i m false ≡ false
unfolding complete_from
complete_from-false zero i m = refl
complete_from-false (suc left) i m =
    rw (complete_step i m false) (complete_from-false left (i + 1) m)

-- With a payload at every key of the range the buffer is complete.
pub complete_from-true :
    (left i : ℕ) (m : List (ℕ × List ℕ))
    → ((j : ℕ) → i ≤ j → j < i + left → is_empty (payload_at j m) ≡ false)
    → complete_from left i m true ≡ true
unfolding complete_from
complete_from-true zero i m all = refl
complete_from-true (suc left) i m all =
    rw (complete_step i m true, all i (omega arith) (omega arith))
      (complete_from-true left (i + 1) m (λ j p q. all j (omega arith) (omega arith)))

pub &&-false : (b : Bool) → (b && false) ≡ false
&&-false true = refl
&&-false false = refl

-- With one payload missing it is not.
pub complete_from_missing :
    (left i j : ℕ) (m : List (ℕ × List ℕ)) (complete : Bool)
    → i ≤ j
    → j < i + left
    → is_empty (payload_at j m) ≡ true
    → complete_from left i m complete ≡ false
unfolding complete_from
complete_from_missing zero i j m complete p q e = absurd (omega arith)
complete_from_missing (suc left) i j m complete p q e = elim (Bool-cases (i == j)) [
  | inl here ↦
      rw (complete_step i m complete, same_key here, e, &&-false complete)
        (complete_from-false left (i + 1) m)
  | inr later ↦ complete_from_missing left (i + 1) j m _ (ground arith) (omega arith) e
]
  where
    same_key : (i == j) ≡ true → payload_at i m ≡ payload_at j m
    same_key h = ap (λ k. payload_at k m) (ground arith)

-- The collected message is the payloads in the order of their keys.
pub join_from-chunks :
    (message : List ℕ) (left i : ℕ) (m : List (ℕ × List ℕ)) (full : List ℕ)
    → ((j : ℕ) → i ≤ j → j < i + left → payload_at j m ≡ chunk message j)
    → join_from left i m full ≡ full ++ chunks_from message left i
unfolding join_from
join_from-chunks message zero i m full all = sym (append-nil full)
join_from-chunks message (suc left) i m full all = rw (all i (omega arith) (omega arith)) (
    join_from-chunks message left (i + 1) m (full ++ chunk message i)
      (λ j p q. all j (omega arith) (omega arith))
    ∙ append_assoc full (chunk message i) (chunks_from message left (i + 1)))
