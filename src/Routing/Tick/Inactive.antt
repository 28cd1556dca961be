-- ===== src/Routing/Tick/Inactive.antt =====
-- `inactive_neighbours_handling` as a whole: which rows it makes unreachable.
use networking_project_chat.Prelude.{
  ℕ, zero, suc, ◌+◌, ◌<◌, ◌≤◌, List, Option, none, some, Bool, true, false, not, ◌&&◌, ◌==◌, ltb,
  leb, ◌≡◌, refl, ap, sym, ◌∙◌, inl, inr, arith, if◌then◌else◌, Bool-cases, length,
}
use networking_project_chat.Prelude.Assoc.{find, at_or}
use networking_project_chat.Routing.Route.{Route, Table}
use networking_project_chat.Routing.State.{Node}
use networking_project_chat.Routing.Tick.{clear_via, inactive_from, inactive_neighbours_handling}
use networking_project_chat.Routing.Tick.Lost.{clear_via_four, length-clear_via}
use networking_project_chat.Routing.Echo.Relax.{HasRows}

-- The next hop of a row, 0 where there is none.
abbrev pub next_hop_at : Table → ℕ → ℕ
next_hop_at t h = elim (find h t) [ none ↦ 0 | some r ↦ r.next_hop ]

-- A neighbour is lost: it is its own next hop, and no longer active.
unfoldable pub is_lost : ℕ → List (ℕ × Bool) → Table → ℕ → Bool
is_lost me neighbors t h =
    not (at_or false (find h neighbors)) && next_hop_at t h == h && not (h == me)

abbrev pub unreachable : Route → Route
unreachable r = record r { cost = 5; next_hop = 0 }

module _ (me : ℕ) (neighbors : List (ℕ × Bool)) where
  abbrev lost : Table → ℕ → Bool
  lost t h = is_lost me neighbors t h

  -- One round of the outer loop.
  abbrev cleared_round : ℕ → Table → Table
  cleared_round i t = if lost t i then clear_via 4 i 1 t else t

  round_row :
      (i j : ℕ) (r : Route) (t : Table)
      → 1 ≤ j
      → j ≤ 4
      → find j t ≡ some r
      → find j (cleared_round i t) ≡ some (if lost t i && r.next_hop == i then unreachable r else r)
  round_row i j r t p q e = elim (Bool-cases (lost t i)) [
    | inl yes_lost ↦ rw yes_lost (clear_via_four i j r t p q e ∙ ground arith)
    | inr not_lost ↦ rw not_lost e
  ]

  round-HasRows : (i : ℕ) (t : Table) → HasRows t → HasRows (cleared_round i t)
  round-HasRows i t has j p q =
      let (r, e) = has j p q in
      (if lost t i && r.next_hop == i then unreachable r else r, round_row i j r t p q e)

  length-round : (i : ℕ) (t : Table) → length (cleared_round i t) ≡ length t
  length-round i t = elim (Bool-cases (lost t i)) [
    | inl yes_lost ↦ rw yes_lost (length-clear_via 4 i 1 t)
    | inr not_lost ↦ rw not_lost
  ]

  -- A later round makes the same choice as at the start.
  round_lost :
      (i h : ℕ) (t : Table) → HasRows t → i < h → h ≤ 4 → lost (cleared_round i t) h ≡ lost t h
  unfolding is_lost
  round_lost i h t has p q =
      let (s, e) = has h (omega arith) q in ground (arith, e, round_row i h s t (omega arith) q e)

  next_hop_lem : (i : ℕ) (r : Route) (t : Table) → find i t ≡ some r → next_hop_at t i ≡ r.next_hop
  next_hop_lem i r t e = rw (e, next_hop_at)

  guard_lost :
      (i : ℕ) (r : Route) (t : Table)
      → find i t ≡ some r
      → (not (at_or false (find i neighbors)) && r.next_hop == i && not (i == me)) ≡ lost t i
  unfolding is_lost
  guard_lost i r t e =
      ap (λ k. not (at_or false (find i neighbors)) && k == i && not (i == me))
        (sym (next_hop_lem i r t e))

  inactive_from-suc :
      (left i : ℕ) (r : Route) (t : Table)
      → find i t ≡ some r
      → inactive_from (suc left) i me neighbors t
        ≡ inactive_from left (i + 1) me neighbors (cleared_round i t)
  unfolding inactive_from
  inactive_from-suc left i r t e = elim (Bool-cases (at_or false (find i neighbors))) [
    | inl active ↦ rw active (
        ap (λ b. inactive_from left (i + 1) me neighbors (if b then clear_via 4 i 1 t else t))
          (still active ∙ guard_lost i r t e))
    | inr silent ↦
        rw (silent, e)
          (ap (λ b. inactive_from left (i + 1) me neighbors (if b then clear_via 4 i 1 t else t))
            (gone silent ∙ guard_lost i r t e))
  ]
    where
      still :
          at_or false (find i neighbors) ≡ true
          → false ≡ (not (at_or false (find i neighbors)) && r.next_hop == i && not (i == me))
      still active = rw active refl

      gone :
          at_or false (find i neighbors) ≡ false
          → (r.next_hop == i && not (i == me))
            ≡ (not (at_or false (find i neighbors)) && r.next_hop == i && not (i == me))
      gone silent = rw silent refl

  -- What a run of rounds makes of the row of `j`.
  abbrev pub after_rounds : ℕ → ℕ → Table → Route → Route
  after_rounds i left t r =
      if leb i r.next_hop && ltb r.next_hop (i + left) && lost t r.next_hop
      then unreachable r
      else r

  after_first_round :
      (left i : ℕ) (r : Route) (t : Table)
      → HasRows t
      → 1 ≤ i
      → i + suc left ≤ 5
      → after_rounds
          (i + 1)
          left
          (cleared_round i t)
          (if lost t i && r.next_hop == i then unreachable r else r)
        ≡ after_rounds i (suc left) t r
  after_first_round left i r t has p q = elim (Bool-cases (lost t i && r.next_hop == i)) [
    | inl now ↦ ground arith
    | inr later ↦ ground (arith, round_lost i r.next_hop t has)
  ]

  pub record Cleared (i left : ℕ) (t : Table) (out : Option Table) : Type 0 where
    pub table : Table
    pub returns : out ≡ some table
    pub rows : HasRows table
    pub size : length table ≡ length t
    pub row :
        (j : ℕ) (r : Route)
        → (1 ≤ j) × (j ≤ 4)
        → find j t ≡ some r
        → find j table ≡ some (after_rounds i left t r)

  pub inactive_from-Cleared :
      (left i : ℕ) (t : Table)
      → HasRows t
      → 1 ≤ i
      → i + left ≤ 5
      → Cleared i left t (inactive_from left i me neighbors t)
  unfolding inactive_from
  inactive_from-Cleared zero i t has p q = record {
    table = t;
    returns = refl;
    rows = has;
    size = refl;
    row = λ j r within e. e ∙ ap some (none_left i r);
  }
    where
      none_left : (i : ℕ) (r : Route) → r ≡ after_rounds i 0 t r
      none_left i r = ground arith
  inactive_from-Cleared (suc left) i t has p q =
      let (s, here) = has i p (omega arith) in
      let rest =
        inactive_from-Cleared left (i + 1) (cleared_round i t) (round-HasRows i t has) (omega arith)
          (omega arith) in
      record {
        table = rest.table;
        returns = inactive_from-suc left i s t here ∙ rest.returns;
        rows = rest.rows;
        size = rest.size ∙ length-round i t;
        row = λ j r within e.
            rest.row j (if lost t i && r.next_hop == i then unreachable r else r) within
              (round_row i j r t within.0 within.1 e)
            ∙ ap some (after_first_round left i r t has p q);
      }

handling_returns :
    (n : Node) (me : ℕ) (t : Table)
    → n.addressing.addr_file ≡ some me
    → inactive_from 4 1 me n.neighbors n.routing_table ≡ some t
    → inactive_neighbours_handling n ≡ some (record n { routing_table = t })
unfolding inactive_neighbours_handling
handling_returns n me t file e = rw (file, e)

-- When the node has an address and a row for each of the four numbers, `inactive_neighbours_handling`
-- returns, changes the table alone and keeps the number of its rows. The row of each of the four numbers gets the infinite cost and
-- no next hop, when its next hop is one of the four that is not active, is its own next hop and is not
-- the node; otherwise it stays as it was.
pub inactive_neighbours_handling_lem :
    (n : Node) (me : ℕ)
    → n.addressing.addr_file ≡ some me
    → HasRows n.routing_table
    → (t : Table) × (inactive_neighbours_handling n ≡ some (record n { routing_table = t }))
      × HasRows t
      × (length t ≡ length n.routing_table)
      × ((j : ℕ) (r : Route)
          → (1 ≤ j) × (j ≤ 4)
          → find j n.routing_table ≡ some r
          → find j t
            ≡ some (
                if leb 1 r.next_hop
                  && ltb r.next_hop 5
                  && is_lost me n.neighbors n.routing_table r.next_hop
                then unreachable r
                else r))
inactive_neighbours_handling_lem n me file has =
    let result =
      inactive_from-Cleared me n.neighbors 4 1 n.routing_table has (omega arith) (omega arith) in
    (
      result.table,
      handling_returns n me result.table file result.returns,
      result.rows,
      result.size,
      λ j r within e. result.row j r within e,
    )
