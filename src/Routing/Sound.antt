-- ===== src/Routing/Sound.antt =====
-- Rows that can be used: a cost of at most the infinite one, and a next hop where the cost is finite.
use networking_project_chat.Prelude.{
  ℕ, ◌+◌, u8, ◌≤◌, ◌<◌, some, true, false, ◌==◌, ◌≡◌, inl, inr, arith, Bool-cases,
}
use networking_project_chat.Prelude.Assoc.{find}
use networking_project_chat.Routing.Route.{Route, Table}
use networking_project_chat.Routing.Echo.Relax.{replaces, relaxed}
use networking_project_chat.Routing.Echo.KeepsOthers.{entered}
use networking_project_chat.Routing.Echo.Neighbour.{start_row}
use networking_project_chat.Routing.State.{Node}
use networking_project_chat.Routing.Rows.{IsRunningWith, ClockLaws, EchoLaws}

pub record IsSound (r : Route) : Type 0 where
  pub at_most : r.cost ≤ 5
  pub hop : r.cost < 5 → (1 ≤ r.next_hop) × (r.next_hop ≤ 4)

-- What is asked of the rows of numbers other than `me`.
abbrev pub IsUsable : ℕ → ℕ → Route → Type 0
IsUsable me j r = (me == j) ≡ false → IsSound r

-- The node has an address, and its table a row for each of the four numbers, where those of the others
-- can be used.
abbrev pub IsRunning : ℕ → Node → Type 0
IsRunning me = IsRunningWith (IsUsable me) me

pub IsUsable-ClockLaws : (me : ℕ) → ClockLaws me (IsUsable me)
IsUsable-ClockLaws me = record {
  aged = λ j r usable other. record { at_most = (usable other).at_most; hop = (usable other).hop };
  lost = λ j r usable other. record { at_most = omega arith; hop = λ h. absurd (omega arith) };
  own = λ r usable other. absurd (ground (arith, other));
}

entered-IsSound :
    (src : ℕ) (row : Route) → (1 ≤ src) × (src ≤ 4) → IsSound row → IsSound (entered src row)
unfolding entered
entered-IsSound src row range sound = elim (Bool-cases (row.cost == 5)) [
  | inl new ↦ rw new (record { at_most = omega arith; hop = λ h. range })
  | inr known ↦ rw known sound
]

start_row-IsSound :
    (src j : ℕ) (row : Route) → (1 ≤ src) × (src ≤ 4) → IsSound row → IsSound (start_row src j row)
start_row-IsSound src j row range sound = elim (Bool-cases (src == j)) [
  | inl same ↦ rw same (entered-IsSound src row range sound)
  | inr other ↦ rw other sound
]

replaces_cost :
    (offered row : Route)
    → offered.cost ≤ 5
    → replaces offered row ≡ true
    → u8 (offered.cost + 1) ≤ 5
unfolding replaces
replaces_cost offered row cost better = ground arith

relaxed-IsSound :
    (src : ℕ) (offered row : Route)
    → (1 ≤ src) × (src ≤ 4)
    → offered.cost ≤ 5
    → IsSound row
    → IsSound (relaxed src offered row)
unfolding relaxed
relaxed-IsSound src offered row range cost sound = elim (Bool-cases (replaces offered row)) [
  | inl better ↦
      rw better (record { at_most = replaces_cost offered row cost better; hop = λ h. range })
  | inr kept ↦ rw kept sound
]

-- The row of a destination after an echo of `src`.
relaxed-start_row :
    (src j : ℕ) (offered row : Route)
    → (1 ≤ src) × (src ≤ 4)
    → offered.cost ≤ 5
    → IsSound row
    → IsSound (relaxed src offered (start_row src j row))
relaxed-start_row src j offered row range cost sound =
    relaxed-IsSound src offered (start_row src j row) range cost
      (start_row-IsSound src j row range sound)

pub IsUsable-EchoLaws :
    (me src : ℕ) (recv : Table)
    → (1 ≤ src) × (src ≤ 4)
    → ((j : ℕ) (r : Route) → (1 ≤ j) × (j ≤ 4) → find j recv ≡ some r → r.cost ≤ 5)
    → EchoLaws me src recv (IsUsable me)
IsUsable-EchoLaws me src recv range costs = record {
  entered_self = λ r usable other. absurd (ground (arith, other));
  relaxes = λ j offered r within ne e usable other.
      relaxed-start_row src j offered r range (costs j offered within e) (usable other);
}
