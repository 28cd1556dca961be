-- ===== src/Routing/Rows.antt =====
-- A property of the rows of a node's table, for the numbers from 1 to 4, and what the handlers of a node
-- ask of a property that they are to keep.
use mathlib.Core.Path.{subst}
use networking_project_chat.Prelude.{
  ℕ, ◌-◌, ◌≤◌, Option, none, some, false, ◌==◌, ◌≡◌, ap, sym, ◌∙◌, inl, inr, arith, Bool-cases,
}
use networking_project_chat.Prelude.Assoc.{find, insert_or_assign, find-insert_or_assign}
use networking_project_chat.Routing.Route.{Route, Table}
use networking_project_chat.Routing.State.{Node}
use networking_project_chat.Routing.Echo.Relax.{HasRows, relaxed}
use networking_project_chat.Routing.Echo.Neighbour.{start_row, Outcome}
use networking_project_chat.Routing.Tick.Inactive.{unreachable}

abbrev pub IsAt : (Route → Type 0) → Option Route → Type 0
IsAt P none = Unit
IsAt P (some r) = P r

abbrev pub HoldsRows : (ℕ → Route → Type 0) → Table → Type 0
HoldsRows P t = (j : ℕ) → (1 ≤ j) × (j ≤ 4) → IsAt (P j) (find j t)

-- The node has an address, and its table a row for each of the four numbers, where `P` holds.
pub record IsRunningWith (P : ℕ → Route → Type 0) (me : ℕ) (n : Node) : Type 0 where
  pub address : n.addressing.addr_file ≡ some me
  pub rows : HasRows n.routing_table
  pub holds : HoldsRows P n.routing_table

-- What keeps `P` in the table of node `me` while its clock runs: a lifetime that falls, a route that is
-- lost, and the node's own row at cost 0.
pub record ClockLaws (me : ℕ) (P : ℕ → Route → Type 0) : Type 0 where
  pub aged : (j : ℕ) (r : Route) → P j r → P j (record r { ttl = r.ttl - 1 })
  pub lost : (j : ℕ) (r : Route) → P j r → P j (unreachable r)
  pub own : (r : Route) → P me r → P me (record r { cost = 0 })

-- What keeps `P` there when node `src` offers the rows of `recv`: the node's own row entered, and each
-- other row relaxed.
pub record EchoLaws (me src : ℕ) (recv : Table) (P : ℕ → Route → Type 0) : Type 0 where
  pub entered_self :
      (r : Route) → P me r → P me (record r { next_hop = me; cost = 0; destination_node = me })
  pub relaxes :
      (j : ℕ) (offered r : Route)
      → (1 ≤ j) × (j ≤ 4)
      → (me == j) ≡ false
      → find j recv ≡ some offered
      → P j r
      → P j (relaxed src offered (start_row src j r))

module _ (P : ℕ → Route → Type 0) where
  pub HoldsRows-find :
      (j : ℕ) (r : Route) (t : Table)
      → HoldsRows P t
      → (1 ≤ j) × (j ≤ 4)
      → find j t ≡ some r
      → P j r
  HoldsRows-find j r t holds range e = subst (IsAt (P j)) e (holds j range)

  pub insert_or_assign-HoldsRows :
      (k : ℕ) (v : Route) (t : Table) → P k v → HoldsRows P t → HoldsRows P (insert_or_assign k v t)
  insert_or_assign-HoldsRows k v t good holds j range = elim (Bool-cases (k == j)) [
    | inl same ↦
        rw (find-insert_or_assign k j v t, same)
          (let e : k ≡ j = ground (arith, same) in subst (λ i. P i v) e good)
    | inr apart ↦ rw (find-insert_or_assign k j v t, apart) (holds j range)
  ]

  -- The node's own row after the echo of `src`.
  own_row_holds :
      (me src : ℕ) (recv : Table) (n : Node) {out : Option Node} (r : Route)
      → EchoLaws me src recv P
      → (o : Outcome me src recv n out) → find me n.routing_table ≡ some r
      → P me r
      → IsAt (P me) (find me o.after.routing_table)
  own_row_holds me src recv n r laws o e good = elim (o.own r e) [
    | inl kept ↦ rw kept good
    | inr entered ↦ rw entered (laws.entered_self r good)
  ]

  -- The table after the echo of `src`.
  pub Outcome-HoldsRows :
      (me src : ℕ) (recv : Table) (n : Node) {out : Option Node}
      → HasRows recv
      → EchoLaws me src recv P
      → IsRunningWith P me n
      → (o : Outcome me src recv n out) → HoldsRows P o.after.routing_table
  Outcome-HoldsRows me src recv n offers laws v o j range =
      let (offered, e) = offers j range.0 range.1 in
      let (row, e') = v.rows j range.0 range.1 in
      let good = HoldsRows-find j row n.routing_table v.holds range e' in
      elim (Bool-cases (me == j)) [
        | inl self ↦
            let same : j ≡ me = ground (arith, self) in
            subst (λ k. IsAt (P k) (find k o.after.routing_table)) (sym same)
              (own_row_holds me src recv n row laws o
                (ap (λ k. find k n.routing_table) (sym same) ∙ e') (subst (λ k. P k row) same good))
        | inr other ↦
            rw (o.row j offered row range other e e')
              (laws.relaxes j offered row range other e good)
      ]
