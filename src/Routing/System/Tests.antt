-- ===== src/Routing/System/Tests.antt =====
-- Four nodes in a line, where each knows only itself at first.
use networking_project_chat.Prelude.{
  ℕ, zero, suc, List, [], ◌∷◌, some, Bool, true, ◌&&◌, ◌==◌, ◌≡◌, refl, inl, inr, arith, get_elem?,
  any, Bool-cases, if◌then◌else◌,
}
use networking_project_chat.Prelude.Assoc.{find}
use networking_project_chat.Routing.Route.{Route}
use networking_project_chat.Routing.State.{Node}
use networking_project_chat.Routing.Tests.{row, node_one, four_rows-HasRows}
use networking_project_chat.Routing.Rows.{HoldsRows}
use networking_project_chat.Routing.System.{
  System, Event, sends, receives, ticks, pauses, wakes, run,
}
use networking_project_chat.Routing.System.Walk.{IsTopology, IsWalked, IsShortest}
use networking_project_chat.Routing.System.Kept.{IsNode, IsWalkedSystem}
use networking_project_chat.Routing.System.Costs.{run-IsWalkedSystem}
use networking_project_chat.Routing.System.Exchange.{IsFresh, IsLive}
use networking_project_chat.Routing.System.Shortest.{rounds, Covers, rounds-IsShortest}

-- The links that a list names.
abbrev linked_by : List (ℕ × ℕ) → ℕ → ℕ → Bool
linked_by links i k = any (λ p. p.0 == i && p.1 == k) links

linked_by-each :
    (links : List (ℕ × ℕ)) (i k : ℕ)
    → linked_by links i k ≡ true
    → (n : ℕ) × (get_elem? links n ≡ some (i, k))
linked_by-each [] i k e = absurd (ground arith)
linked_by-each ((a, b) ∷ links) i k e = elim (Bool-cases (a == i && b == k)) [
  | inl first ↦
      let e1 : a ≡ i = ground (arith, first) in
      let e2 : b ≡ k = ground (arith, first) in (0, rw (e1, e2) refl)
  | inr later ↦ let (n, e') = linked_by-each links i k (ground (arith, e, later)) in (suc n, e')
]

abbrev line : List (ℕ × ℕ)
line = (1, 2) ∷ (2, 1) ∷ (2, 3) ∷ (3, 2) ∷ (3, 4) ∷ (4, 3) ∷ []

line-IsTopology : IsTopology (linked_by line)
line-IsTopology i k e = ground (arith, e)

line-Covers : Covers (linked_by line) line
line-Covers = record {
  only = (refl, (refl, (refl, (refl, (refl, (refl, tt))))));
  each = linked_by-each line;
}

abbrev first_row : ℕ → ℕ → Route
first_row i j = if i == j then row i 0 j else row 0 5 j

abbrev node : ℕ → Node
node i = record node_one {
  addressing = record { addr_file = some i; addr_in_use = []; reachable_nodes = [] };
  routing_table =
      (1, first_row i 1) ∷ (2, first_row i 2) ∷ (3, first_row i 3) ∷ (4, first_row i 4) ∷ [];
}

abbrev start : System
start = record { nodes = node; air = [] }

-- What holds of each first row holds of the table.
first_rows_hold :
    (P : ℕ → Route → Type 0) (i : ℕ)
    → ((j : ℕ) → P j (first_row i j))
    → HoldsRows P (node i).routing_table
unfolding find
first_rows_hold P i each zero range = tt
first_rows_hold P i each (suc zero) range = each 1
first_rows_hold P i each (suc (suc zero)) range = each 2
first_rows_hold P i each (suc (suc (suc zero))) range = each 3
first_rows_hold P i each (suc (suc (suc (suc zero)))) range = each 4
first_rows_hold P i each (suc (suc (suc (suc (suc j))))) range = absurd (omega arith)

first_row-IsWalked : (i j : ℕ) → IsWalked (linked_by line) i j (first_row i j)
first_row-IsWalked i j = elim (Bool-cases (i == j)) [
  | inl own ↦
      let e : i ≡ j = ground (arith, own) in
      rw own (record { names = refl; at_most = omega arith; walk = λ h. e })
  | inr other ↦
      rw other (record { names = refl; at_most = omega arith; walk = λ h. absurd (omega arith) })
]

first_row-IsFresh : (i j : ℕ) → IsFresh i j (first_row i j)
first_row-IsFresh i j = elim (Bool-cases (i == j)) [
  | inl own ↦ rw own (record { alive = omega arith; own = λ same. refl })
  | inr other ↦
      rw other (record { alive = omega arith; own = λ same. absurd (ground (arith, same, other)) })
]

start-IsWalkedSystem : IsWalkedSystem (linked_by line) start
start-IsWalkedSystem = record {
  nodes = λ i range. record {
    running = record {
      address = refl;
      rows = four_rows-HasRows _ _ _ _;
      holds = first_rows_hold (IsWalked (linked_by line) i) i (first_row-IsWalked i);
    };
    size = refl;
  };
  air = tt;
}

start-IsLive : IsLive (linked_by line) start
start-IsLive = record {
  awake = λ i range. refl;
  walked = start-IsWalkedSystem;
  fresh = λ i range. first_rows_hold (IsFresh i) i (first_row-IsFresh i);
}

-- Node 2 sends its table, which nodes 3 and 1 hear late, node 1 twice.
abbrev delayed : List Event
delayed =
    sends 2
    ∷ ticks 1
    ∷ pauses 3
    ∷ sends 1
    ∷ receives 3 1
    ∷ receives 1 1
    ∷ wakes 3
    ∷ receives 1 1
    ∷ []

run-IsWalkedSystem_example :
    (s' : System) × (run (linked_by line) 1 (λ k. 0) delayed start ≡ some s')
    × IsWalkedSystem (linked_by line) s'
run-IsWalkedSystem_example =
    run-IsWalkedSystem (linked_by line) line-IsTopology 1 (λ k. 0) delayed start
      (
        omega arith,
        (
          omega arith,
          (
            omega arith,
            (omega arith, (omega arith, (omega arith, (omega arith, (omega arith, tt))))),
          ),
        ),
      )
      start-IsWalkedSystem

rounds-IsShortest_example :
    (s' : System) × (run (linked_by line) 1 (λ k. 0) (rounds 4 line) start ≡ some s')
    × ((i j : ℕ)
        → IsNode i
        → IsNode j
        → (r : Route) × (find j (s'.nodes i).routing_table ≡ some r)
          × IsShortest (linked_by line) i j r)
rounds-IsShortest_example =
    rounds-IsShortest (linked_by line) line-IsTopology 1 (λ k. 0) 4 line start (omega arith)
      line-Covers start-IsLive
