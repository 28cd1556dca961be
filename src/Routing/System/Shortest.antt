-- ===== src/Routing/System/Shortest.antt =====
-- Rounds in which every link is used bring every node the shortest ways.
use mathlib.Core.Path.{subst}
use networking_project_chat.Prelude.{
  ℕ, zero, suc, ◌+◌, ◌≤◌, List, [], ◌++◌, some, Bool, true, ◌≡◌, refl, ◌∙◌, arith, get_elem?, All,
}
use networking_project_chat.Prelude.Assoc.{find}
use networking_project_chat.Routing.Route.{Route}
use networking_project_chat.Routing.Rows.{HoldsRows-find}
use networking_project_chat.Routing.System.{System, Event, run}
use networking_project_chat.Routing.System.Walk.{IsTopology, Walk, here, via, IsWalked, IsShortest}
use networking_project_chat.Routing.System.Kept.{IsNode, All-get_elem?}
use networking_project_chat.Routing.System.Exchange.{IsFresh, IsLive, cost_in, cost_at}
use networking_project_chat.Routing.System.Passed.{exchanges, run-append, Passed, exchanges-Passed}

abbrev pub rounds : ℕ → List (ℕ × ℕ) → List Event
rounds zero ps = []
rounds (suc n) ps = exchanges ps ++ rounds n ps

-- The pairs are the links, all of them, in any order.
pub record Covers (linked : ℕ → ℕ → Bool) (ps : List (ℕ × ℕ)) : Type 0 where
  pub only : All (λ p. linked p.0 p.1 ≡ true) ps
  pub each : (i k : ℕ) → linked i k ≡ true → (n : ℕ) × (get_elem? ps n ≡ some (i, k))

module _ (linked : ℕ → ℕ → Bool) (topology : IsTopology linked) (fuel : ℕ) (rand : ℕ → ℕ) where
  -- No walk of at most so many links is shorter than the cost.
  abbrev Near : ℕ → System → Type 0
  Near n s = (i j d : ℕ) → IsNode i → IsNode j → d ≤ n → Walk linked d i j → cost_at s i j ≤ d

  own_cost : (i : ℕ) (s : System) → IsNode i → IsLive linked s → cost_at s i i ≡ 0
  own_cost i s node live =
      let v = (live.walked.nodes i node).running in
      let (r, e) = v.rows i node.0 node.1 in
      let fresh =
        HoldsRows-find (IsFresh i) i r (s.nodes i).routing_table (live.fresh i node) node e in
      rw e (fresh.own (ground arith))

  Near-zero : (s : System) → IsLive linked s → Near 0 s
  Near-zero s live i j zero node_i node_j p here = omega (arith, own_cost i s node_i live)
  Near-zero s live i j (suc d) node_i node_j p (via link w) = absurd (omega arith)

  Near-suc :
      (n : ℕ) (ps : List (ℕ × ℕ)) (s : System)
      → Covers linked ps
      → Near n s
      → (passed : Passed linked topology fuel rand ps s) → Near (suc n) passed.after
  Near-suc n ps s covers near passed i j zero node_i node_j p here =
      omega (arith, own_cost i passed.after node_i passed.live)
  Near-suc n ps s covers near passed i j (suc d) node_i node_j p (via {k = k} link w) =
      let (at, e) = covers.each i k link in
      let (_, node_k, apart) = topology i k link in
      let heard = All-get_elem? _ ps at (i, k) passed.heard e in
      omega (arith, heard j node_j, near k j d node_k node_j (omega arith) w)

  rounds-Near :
      (n m : ℕ) (ps : List (ℕ × ℕ)) (s : System)
      → Covers linked ps
      → IsLive linked s
      → Near m s
      → (s' : System) × (run linked fuel rand (rounds n ps) s ≡ some s')
        × IsLive linked s'
        × Near (n + m) s'
  unfolding run
  rounds-Near zero m ps s covers live near =
      (s, refl, live, λ i j d node_i node_j p. near i j d node_i node_j (omega arith))
  rounds-Near (suc n) m ps s covers live near =
      let one = exchanges-Passed linked topology fuel rand ps s covers.only live in
      let (s', rest, live', near') =
        rounds-Near n (suc m) ps one.after covers one.live (Near-suc m ps s covers near one) in
      (
        s',
        run-append linked topology fuel rand (exchanges ps) (rounds n ps) s one.after one.returns
            ∙ rest,
        live',
        λ i j d node_i node_j p. near' i j d node_i node_j (omega arith),
      )

  row-IsShortest :
      (i j : ℕ) (s : System) (m : ℕ)
      → 4 ≤ m
      → IsNode i
      → IsNode j
      → IsLive linked s
      → Near m s
      → (r : Route) × (find j (s.nodes i).routing_table ≡ some r) × IsShortest linked i j r
  row-IsShortest i j s m enough node_i node_j live near =
      let v = (live.walked.nodes i node_i).running in
      let (r, e) = v.rows j node_j.0 node_j.1 in
      let w = HoldsRows-find (IsWalked linked i) j r (s.nodes i).routing_table v.holds node_j e in
      (
        r,
        e,
        record {
          at_most = w.at_most;
          reached = w.walk;
          shortest = λ d walk.
              let within : d ≤ m → r.cost ≤ d =
                λ p. subst (λ o. cost_in o ≤ d) e (near i j d node_i node_j p walk) in
              ground (arith, within, w.at_most, enough);
        },
      )

  -- Take nodes 1 to 4, with four rows each and their numbers as addresses, that do not pause, where each row names its
  -- destination and has not expired, a cost below 5 (the infinite cost) is the length of a walk along links
  -- that begins with the next hop, and each node is at cost 0 from itself. After four or more rounds, in each
  -- of which every link is used once or more, in any order, by a node that hears what its neighbour has just
  -- sent, no node has faulted, and each row is right: a cost below 5 is the length of a shortest walk, which
  -- begins with the next hop, and the cost is 5 when no walk has fewer links.
  pub rounds-IsShortest :
      (n : ℕ) (ps : List (ℕ × ℕ)) (s : System)
      → 4 ≤ n
      → Covers linked ps
      → IsLive linked s
      → (s' : System) × (run linked fuel rand (rounds n ps) s ≡ some s')
        × ((i j : ℕ)
            → IsNode i
            → IsNode j
            → (r : Route) × (find j (s'.nodes i).routing_table ≡ some r) × IsShortest linked i j r)
  rounds-IsShortest n ps s enough covers live =
      let (s', returns, live', near) = rounds-Near n 0 ps s covers live (Near-zero s live) in
      (
        s',
        returns,
        λ i j node_i node_j. row-IsShortest i j s' (n + 0) (omega arith) node_i node_j live' near,
      )
