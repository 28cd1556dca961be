-- ===== src/Routing/Tests/Silence.antt =====
-- Node 3 is not heard from: node 1 pauses, goes on, hears node 2, and has lost the ways through node 3.
use networking_project_chat.Prelude.{ℕ, ◌≤◌, ◌==◌, ◌≡◌, refl, List, [], ◌∷◌, some, false, arith}
use networking_project_chat.Prelude.Assoc.{find}
use networking_project_chat.Routing.Route.{Route}
use networking_project_chat.Routing.State.{Node}
use networking_project_chat.Routing.Run.{Event, hears, ticks, pauses, wakes, run}
use networking_project_chat.Routing.Silence.Lost.{run-Avoids}
use networking_project_chat.Routing.Tests.{row, node_one, echo_two, four_rows-HasRows}
use networking_project_chat.Routing.Tests.Running.{echo_two-IsEchoOfAnother}

-- Node 3 has two seconds to live, and node 4 is behind it.
abbrev node_near : Node
node_near = record node_one {
  routing_table =
      (1, row 1 0 1) ∷ (2, row 0 5 2) ∷ (3, record (row 3 1 3) { ttl = 2 }) ∷ (4, row 3 2 4) ∷ [];
}

abbrev events : List Event
events = pauses ∷ ticks ∷ wakes ∷ ticks ∷ hears echo_two ∷ ticks ∷ []

run-Avoids_example :
    (n' : Node) × (run 1 (λ k. 0) events node_near ≡ some n')
    × ((j : ℕ)
        → (1 ≤ j) × (j ≤ 4)
        → (1 == j) ≡ false
        → (w : Route) × (find j n'.routing_table ≡ some w) × ((w.next_hop == 3) ≡ false))
unfolding find
run-Avoids_example =
    run-Avoids 1 (λ k. 0) 1 3 (omega arith) (omega arith) refl events 2 node_near
      (record (row 3 1 3) { ttl = 2 })
      (tt, (tt, (tt, (tt, ((echo_two-IsEchoOfAnother, refl), (tt, tt)))))) refl
      (four_rows-HasRows _ _ _ _) refl refl (omega arith) (omega arith) (omega arith)
