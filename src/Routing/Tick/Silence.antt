-- ===== src/Routing/Tick/Silence.antt =====
-- The routes through a neighbour that is not heard from, second by second.
use mathlib.Core.Logic.{⊎_elim}
use networking_project_chat.Prelude.{
  ℕ, zero, suc, ◌≤◌, Option, some, Bool, false, ◌==◌, ◌≡◌, refl, ◌∙◌, ◌⊎◌, inl, inr, arith,
  Bool-cases, ◌>>=◌,
}
use networking_project_chat.Prelude.Assoc.{find}
use networking_project_chat.Routing.Route.{Route}
use networking_project_chat.Routing.State.{Node}
use networking_project_chat.Routing.Tick.{tick}
use networking_project_chat.Routing.Tick.Ageing.{aged}
use networking_project_chat.Routing.Tick.Second.{IsAwake, Second, tick-Second}
use networking_project_chat.Routing.Tick.Inactive.{unreachable}

-- Some rounds of `tick`, one a second, at a node that has chosen its address.
pub seconds : ℕ → (ℕ → ℕ) → ℕ → Node → Option Node
seconds fuel rand zero n = some n
seconds fuel rand (suc k) n = do (first_run, n) ← tick fuel rand false n; seconds fuel rand k n

-- A row that leads nowhere.
abbrev pub IsGone : Route → Type 0
IsGone r = (r.cost ≡ 5) × (r.next_hop ≡ 0)

module _ (fuel : ℕ) (rand : ℕ → ℕ) (me h j : ℕ) (h_range : (1 ≤ h) × (h ≤ 4))
    (h_other : (me == h) ≡ false) (j_range : (1 ≤ j) × (j ≤ 4)) (j_other : (me == j) ≡ false) where
  -- The row of `j` leads nowhere.
  abbrev pub HasLost : Node → Type 0
  HasLost n = (r : Route) × (find j n.routing_table ≡ some r) × IsGone r

  -- The row of `j` goes through `h`, whose own row is that of a neighbour, with at most so many seconds to
  -- live, and with some.
  abbrev pub HasSeconds : ℕ → Node → Type 0
  HasSeconds left n =
      (r : Route) × (w : Route) × (find h n.routing_table ≡ some r)
      × (r.next_hop ≡ h)
      × (r.ttl ≤ left)
      × (1 ≤ left)
      × (find j n.routing_table ≡ some w)
      × (w.next_hop ≡ h)

  still_lost :
      (n : Node) {out : Option (Bool × Node)} → HasLost n → (s : Second me n out) → HasLost s.after
  still_lost n (r, e, (cost, hop)) s = elim (Bool-cases (s.lost r.next_hop)) [
    | inl lost ↦ (unreachable (aged r), s.row j r j_range j_other e ∙ rw lost refl, (refl, refl))
    | inr kept ↦ (aged r, s.row j r j_range j_other e ∙ rw kept refl, (cost, hop))
  ]

  one_less :
      (left : ℕ) (n : Node) {out : Option (Bool × Node)}
      → HasSeconds (suc left) n
      → (s : Second me n out) → HasLost s.after ⊎ HasSeconds left s.after
  one_less left n (r, w, e, hop, ttl, some_left, e', hop') s = elim (Bool-cases (s.lost h)) [
    | inl lost ↦
        inl
          (unreachable (aged w), s.row j w j_range j_other e' ∙ rw (hop', lost) refl, (refl, refl))
    | inr kept ↦
        let alive : ¬ (r.ttl ≤ 1) =
          λ old. let now = s.silent h r h_range h_other e hop old in ground (arith, kept, now) in
        inr (
          aged r,
          aged w,
          s.row h r h_range h_other e ∙ rw (hop, kept) refl,
          hop,
          omega (arith, alive),
          omega (arith, alive),
          s.row j w j_range j_other e' ∙ rw (hop', kept) refl,
          hop',
        )
  ]

  seconds-HasLost :
      (left : ℕ) (n : Node)
      → IsAwake me n
      → HasLost n ⊎ HasSeconds left n
      → (n' : Node) × (seconds fuel rand left n ≡ some n') × HasLost n'
  unfolding seconds
  seconds-HasLost zero n v (inl lost) = (n, refl, lost)
  seconds-HasLost zero n v (inr (r, w, e, hop, ttl, some_left, e', hop')) = absurd (omega arith)
  seconds-HasLost (suc left) n v state =
      let s = tick-Second fuel rand me n v in
      let next : HasLost s.after ⊎ HasSeconds left s.after =
        ⊎_elim (λ lost. inl (still_lost n lost s)) (λ waits. one_less left n waits s) state in
      let (n', returns, lost) = seconds-HasLost left s.after s.awake next in
      (n', rw s.returns returns, lost)

  -- At a node `me` that has an address, a row for each of the four numbers and no pause, take a neighbour
  -- `h`, whose row has itself as next hop and at most `left` seconds to live, of at least one, and a row `j`,
  -- perhaps that of `h`, that goes through `h`, neither of them the node's own. When the node hears no echo,
  -- `left` rounds of its clock, one a second, return, and then the row of `j` has the infinite cost and no
  -- next hop. A row that was heard of has 40 seconds to live.
  pub seconds-IsGone :
      (left : ℕ) (n : Node) (r w : Route)
      → IsAwake me n
      → find h n.routing_table ≡ some r
      → r.next_hop ≡ h
      → r.ttl ≤ left
      → 1 ≤ left
      → find j n.routing_table ≡ some w
      → w.next_hop ≡ h
      → (n' : Node) × (r' : Route) × (seconds fuel rand left n ≡ some n')
        × (find j n'.routing_table ≡ some r')
        × IsGone r'
  seconds-IsGone left n r w v e hop ttl some_left e' hop' =
      let (n', returns, (r', found, gone)) =
        seconds-HasLost left n v (inr (r, w, e, hop, ttl, some_left, e', hop')) in
      (n', r', returns, found, gone)
