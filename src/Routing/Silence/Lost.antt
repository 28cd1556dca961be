-- ===== src/Routing/Silence/Lost.antt =====
-- The rows through a neighbour that is not heard from, over a run of events.
use mathlib.Core.Logic.{⊎_elim}
use networking_project_chat.Prelude.{
  ℕ, ◌+◌, ◌-◌, ◌≤◌, List, [], ◌∷◌, some, false, ◌==◌, ◌≡◌, refl, ap, inr, arith, All,
}
use networking_project_chat.Prelude.Assoc.{find}
use networking_project_chat.Routing.Route.{Route}
use networking_project_chat.Routing.State.{Node}
use networking_project_chat.Routing.Echo.Relax.{HasRows}
use networking_project_chat.Routing.Run.{Event, run}
use networking_project_chat.Routing.Silence.{
  pause_after, awake_second, awake_seconds, IsSilent, IsSetUp,
}
use networking_project_chat.Routing.Silence.Steps.{State, weaken, step-Stepped}

module _ (fuel : ℕ) (rand : ℕ → ℕ) (me h : ℕ) (me_range : (1 ≤ me) × (me ≤ 4))
    (h_range : (1 ≤ h) × (h ≤ 4)) (h_other : (me == h) ≡ false) where
  abbrev AtMost : ℕ → Node → Type 0
  AtMost = State fuel rand me h me_range h_range h_other

  abbrev still : (left left' : ℕ) (n : Node) → left ≤ left' → AtMost left n → AtMost left' n
  still = weaken fuel rand me h me_range h_range h_other

  run-State :
      (es : List Event) (left : ℕ) (n : Node)
      → All (IsSilent me h) es
      → IsSetUp me n
      → AtMost left n
      → (n' : Node) × (run fuel rand es n ≡ some n')
        × AtMost (left - awake_seconds es n.pause_flag) n'
  unfolding run
  run-State [] left n silent v s = (n, refl, still left (left - 0) n (omega arith) s)
  run-State (e ∷ es) left n silent v s =
      let first = step-Stepped fuel rand me h me_range h_range h_other e n silent.0 v in
      let (n', returns, s') =
        run-State es (left - awake_second e n.pause_flag) first.after silent.1 first.set_up
          (first.leads left s) in
      (
        n',
        rw (first.returns, returns),
        still (left - awake_second e n.pause_flag - awake_seconds es first.after.pause_flag)
            (left - (awake_second e n.pause_flag + awake_seconds es (pause_after e n.pause_flag)))
            n' (omega (arith, ap (awake_seconds es) first.pause)) s',
      )

  -- At a node `me` from 1 to 4 that has an address and a row for each of the four numbers, take a neighbour
  -- `h`, another of the four: its row has itself as next hop, a cost of at most 1, and some seconds to
  -- live, at most `left`. Over any run of rounds of the clock, pauses, ends of pauses, and echoes of nodes
  -- other than `me` and `h`, with four rows and costs of at most 5, in which at least `left` rounds of the
  -- clock come while the node does not pause: the run returns, and then no row of another node has `h` as
  -- next hop. A row that was heard of has 40 seconds to live.
  pub run-Avoids :
      (es : List Event) (left : ℕ) (n : Node) (r : Route)
      → All (IsSilent me h) es
      → n.addressing.addr_file ≡ some me
      → HasRows n.routing_table
      → find h n.routing_table ≡ some r
      → r.next_hop ≡ h
      → r.cost ≤ 1
      → (1 ≤ r.ttl) × (r.ttl ≤ left)
      → left ≤ awake_seconds es n.pause_flag
      → (n' : Node) × (run fuel rand es n ≡ some n')
        × ((j : ℕ)
            → (1 ≤ j) × (j ≤ 4)
            → (me == j) ≡ false
            → (w : Route) × (find j n'.routing_table ≡ some w) × ((w.next_hop == h) ≡ false))
  run-Avoids es left n r silent file has found hop near lives enough =
      let (n', returns, s) =
        run-State es left n silent (record { address = file; rows = has })
          (inr (r, found, hop, near, lives.0, lives.1)) in
      (
        n',
        returns,
        ⊎_elim (λ a. a)
            (λ l.
              let (w, found', hop', near', alive, over) = l in
              absurd (omega (arith, alive, over, enough)))
            s,
      )
