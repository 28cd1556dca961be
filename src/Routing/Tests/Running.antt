-- ===== src/Routing/Tests/Running.antt =====
-- Rounds of the clock and a broadcast of the table, on the nodes of the tests.
use mathlib.Core.Path.{subst}
use networking_project_chat.Prelude.{
  none, Option, length, ℕ, zero, suc, ◌≤◌, ◌≡◌, refl, [], ◌∷◌, some, false, ◌&&◌, ltb, leb,
  if◌then◌else◌, arith,
}
use networking_project_chat.Prelude.Assoc.{find}
use networking_project_chat.Routing.Sound.{IsSound, IsUsable, IsRunning}
use networking_project_chat.Routing.Rows.{HoldsRows}
use networking_project_chat.Routing.Route.{Route, Table}
use networking_project_chat.Routing.State.{Node}
use networking_project_chat.Routing.Echo.Relax.{HasRows}
use networking_project_chat.Routing.Tick.{inactive_neighbours_handling}
use networking_project_chat.Routing.Tick.Inactive.{
  is_lost, unreachable, inactive_neighbours_handling_lem,
}
use networking_project_chat.Routing.Tick.Silence.{IsGone, seconds, seconds-IsGone}
use networking_project_chat.Routing.Run.{
  IsEchoOfAnother, hears, ticks, pauses, wakes, run, run-IsRunning,
}
use networking_project_chat.Routing.Tests.{
  row, node_one, echo_two, header_two, received_two, echo_two_header, echo_two_table,
  four_rows-HasRows,
}

-- Node 1 has heard node 2, and goes to node 3 by way of it; node 2 has been silent since.
abbrev node_lost : Node
node_lost = record node_one {
  routing_table = (1, row 1 0 1) ∷ (2, row 2 1 2) ∷ (3, row 2 2 3) ∷ (4, row 0 5 4) ∷ [];
  neighbors = (2, false) ∷ [];
}

inactive_neighbours_handling_lem_example :
    (t : Table) × (inactive_neighbours_handling node_lost
      ≡ some (record node_lost { routing_table = t }))
    × HasRows t
    × (length t ≡ 4)
    × ((j : ℕ) (r : Route)
        → (1 ≤ j) × (j ≤ 4)
        → find j node_lost.routing_table ≡ some r
        → find j t
          ≡ some (
              if leb 1 r.next_hop
                && ltb r.next_hop 5
                && is_lost 1 node_lost.neighbors node_lost.routing_table r.next_hop
              then unreachable r
              else r))
inactive_neighbours_handling_lem_example =
    inactive_neighbours_handling_lem node_lost 1 refl (four_rows-HasRows _ _ _ _)

-- Node 2 stays silent, and in 40 seconds node 1 has lost the way to node 3.
seconds-IsGone_example :
    (n' : Node) × (r' : Route) × (seconds 1 (λ k. 0) 40 node_lost ≡ some n')
    × (find 3 n'.routing_table ≡ some r')
    × IsGone r'
unfolding find
seconds-IsGone_example =
    seconds-IsGone 1 (λ k. 0) 1 2 3 (omega arith) refl (omega arith) refl 40 node_lost (row 2 1 2)
      (row 2 2 3) (record { address = refl; awake = refl; rows = four_rows-HasRows _ _ _ _ }) refl
      refl (omega arith) (omega arith) refl refl

-- A row that has not been reached.
far-IsSound : (dest : ℕ) → IsSound (row 0 5 dest)
far-IsSound dest = record { at_most = omega arith; hop = λ h. absurd (omega arith) }

node_one-IsUsable : HoldsRows (IsUsable 1) node_one.routing_table
unfolding find
node_one-IsUsable zero range = tt
node_one-IsUsable (suc zero) range = λ other. absurd (ground (arith, other))
node_one-IsUsable (suc (suc zero)) range = λ other. far-IsSound 2
node_one-IsUsable (suc (suc (suc zero))) range = λ other. far-IsSound 3
node_one-IsUsable (suc (suc (suc (suc zero)))) range = λ other. far-IsSound 4
node_one-IsUsable (suc (suc (suc (suc (suc j))))) range = absurd (omega arith)

abbrev IsCheapAt : Option Route → Type 0
IsCheapAt none = Unit
IsCheapAt (some r) = r.cost ≤ 5

pub received_two_cheap : (j : ℕ) → (1 ≤ j) × (j ≤ 4) → IsCheapAt (find j received_two)
unfolding find
received_two_cheap zero range = tt
received_two_cheap (suc zero) range = omega arith
received_two_cheap (suc (suc zero)) range = omega arith
received_two_cheap (suc (suc (suc zero))) range = omega arith
received_two_cheap (suc (suc (suc (suc zero)))) range = omega arith
received_two_cheap (suc (suc (suc (suc (suc j))))) range = absurd (omega arith)

pub node_one-IsRunning : IsRunning 1 node_one
node_one-IsRunning = record {
  address = refl;
  rows = four_rows-HasRows _ _ _ _;
  holds = node_one-IsUsable;
}

abbrev pub echo_two-IsEchoOfAnother : IsEchoOfAnother 1 echo_two
echo_two-IsEchoOfAnother = record {
  header = header_two;
  recv = received_two;
  read = echo_two_header;
  parsed = echo_two_table;
  rows = four_rows-HasRows _ _ _ _;
  costs = λ j r range e. subst IsCheapAt e (received_two_cheap j range);
  from_four = omega arith;
  other = refl;
}

-- Node 1 pauses, hears node 2, wakes up and lets a round pass.
run-IsRunning_example :
    (n' : Node) × (run 1 (λ k. 0) (pauses ∷ hears echo_two ∷ wakes ∷ ticks ∷ []) node_one ≡ some n')
    × IsRunning 1 n'
run-IsRunning_example =
    run-IsRunning 1 (λ k. 0) 1 (pauses ∷ hears echo_two ∷ wakes ∷ ticks ∷ []) node_one (omega arith)
      (tt, (echo_two-IsEchoOfAnother, (tt, (tt, tt)))) node_one-IsRunning
