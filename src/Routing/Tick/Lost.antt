-- ===== src/Routing/Tick/Lost.antt =====
-- The routes that a lost neighbour leaves.
use networking_project_chat.Prelude.{
  ℕ, zero, suc, ◌+◌, ◌≤◌, Option, none, some, true, not, ◌&&◌, ◌==◌, ltb, ◌≡◌, ap, ◌∙◌, inl, inr,
  arith, if◌then◌else◌, Option-cases, length, refl,
}
use networking_project_chat.Prelude.Assoc.{
  find, insert_or_assign, find-insert_or_assign, length-insert_or_assign,
}
use networking_project_chat.Routing.Route.{Route, Table}
use networking_project_chat.Routing.Tick.{clear_via}

-- A row once the routes through `i` are cleared.
pub cleared : ℕ → Option Route → Option Route
cleared i none = none
cleared i (some r) = if r.next_hop == i then some (record r { cost = 5; next_hop = 0 }) else some r

-- One round of the inner loop.
abbrev clear_row : ℕ → ℕ → Table → Table
clear_row i lo table = elim (find lo table) [
  | none ↦ table
  | some r ↦
      if r.next_hop == i
      then insert_or_assign lo (record r { cost = 5; next_hop = 0 }) table
      else table
]

clear_row-cleared :
    (i lo j : ℕ) (table : Table)
    → find j (clear_row i lo table) ≡ (if j == lo then cleared i (find j table) else find j table)
unfolding cleared
clear_row-cleared i lo j table = elim (Option-cases (find lo table)) [
  | inl absent ↦ ground (arith, absent, same_key)
  | inr (r, present) ↦ ground (
    arith,
    present,
    same_key,
    find-insert_or_assign lo j (record r { cost = 5; next_hop = 0 }) table,
  )
]
  where
    same_key : (j == lo) ≡ true → find j table ≡ find lo table
    same_key e = ap (λ k. find k table) (ground arith)

-- The rows from `lo` on, `left` of them, that go through node `i` become unreachable without a next
-- hop, and no other row changes.
clear_via-cleared :
    (left i lo j : ℕ) (table : Table)
    → find j (clear_via left i lo table)
      ≡ (if not (ltb j lo) && ltb j (lo + left) then cleared i (find j table) else find j table)
unfolding clear_via
clear_via-cleared zero i lo j table = ground arith
clear_via-cleared (suc left) i lo j table = ground (
  arith,
  clear_via-cleared left i (lo + 1) j (clear_row i lo table),
  clear_row-cleared i lo j table,
)

-- The number of rows stays.
length-clear_row : (i lo : ℕ) (table : Table) → length (clear_row i lo table) ≡ length table
length-clear_row i lo table = elim (Option-cases (find lo table)) [
  | inl absent ↦ ground (arith, absent)
  | inr (r, present) ↦
      ground
        (arith, present, length-insert_or_assign lo (record r { cost = 5; next_hop = 0 }) table)
]

pub length-clear_via :
    (left i lo : ℕ) (table : Table) → length (clear_via left i lo table) ≡ length table
unfolding clear_via
length-clear_via zero i lo table = refl
length-clear_via (suc left) i lo table =
    length-clear_via left i (lo + 1) (clear_row i lo table) ∙ length-clear_row i lo table

-- What the inner loop of `inactive_neighbours_handling` does for a node `i` that is lost: of the
-- rows for the numbers from 1 to 4, those through `i` get the infinite cost and no next hop, and
-- the others stay.
pub clear_via_four :
    (i j : ℕ) (r : Route) (table : Table)
    → 1 ≤ j
    → j ≤ 4
    → find j table ≡ some r
    → find j (clear_via 4 i 1 table)
      ≡ (if r.next_hop == i then some (record r { cost = 5; next_hop = 0 }) else some r)
unfolding cleared
clear_via_four i j r table p q e = clear_via-cleared 4 i 1 j table ∙ ground (arith, p, q, e)
