-- ===== src/Routing/Echo/Improve.antt =====
-- `register_echo` on the echo of a neighbour with another address, destination by destination: what
-- distance-vector routing promises of one exchange.
use networking_project_chat.Prelude.{
  ℕ, ◌+◌, ◌≤◌, ◌<◌, List, length, some, false, ◌==◌, ◌≡◌, ◌⊎◌, arith,
}
use networking_project_chat.Prelude.Assoc.{find}
use networking_project_chat.Packet.{Header, extract_header}
use networking_project_chat.Routing.Route.{Route, Table}
use networking_project_chat.Routing.State.{Node}
use networking_project_chat.Routing.Table.{process_payload}
use networking_project_chat.Routing.Echo.{register_echo}
use networking_project_chat.Routing.Echo.Relax.{HasRows, replaces, relaxed}
use networking_project_chat.Routing.Echo.KeepsOthers.{entered}
use networking_project_chat.Routing.Echo.Neighbour.{start_row, Outcome, register_echo-Outcome}

-- The row of `j` after the offer of `src`: kept, when there is no offer, or the row leads somewhere, is alive
-- and is not dearer than the offer; or the route through `src`, when the row has expired, leads nowhere
-- or is dearer.
abbrev pub Improved : ℕ → Route → Route → Route → Type 0
Improved src offered row row' =
    ((row' ≡ row)
      × ((offered.cost ≡ 5) ⊎ ((row.cost ≤ offered.cost + 1) × (row.cost < 5) × (1 ≤ row.ttl))))
    ⊎ ((row' ≡ record row { next_hop = src; cost = offered.cost + 1; ttl = 40 })
        × (offered.cost < 5)
        × ((row.ttl ≡ 0) ⊎ (row.cost ≡ 5) ⊎ (offered.cost + 1 < row.cost)))

-- A neighbour that says it is at cost 0 from itself is then at cost 1.
neighbour_cost :
    (src : ℕ) (offered row : Route)
    → offered.cost ≡ 0
    → 1 ≤ row.cost
    → row.cost ≤ 5
    → (relaxed src offered (start_row src src row)).cost ≡ 1
unfolding relaxed replaces entered
neighbour_cost src offered row e p q = ground (arith, e, p, q)

module _ (fuel : ℕ) (rand : ℕ → ℕ) (payload : List ℕ) (n : Node) (me : ℕ) (h : Header)
    (recv : Table) (file : n.addressing.addr_file ≡ some me) (me_range : (1 ≤ me) × (me ≤ 4))
    (has : HasRows n.routing_table) (header : extract_header payload ≡ some h)
    (table : process_payload payload ≡ some recv) (offers : HasRows recv)
    (range : (1 ≤ h.source_address) × (h.source_address ≤ 4))
    (other : (h.source_address == me) ≡ false) where
  outcome : Outcome me h.source_address recv n (register_echo fuel rand payload n)
  outcome =
      register_echo-Outcome fuel rand payload n me h recv file me_range has header table offers
        range other

  -- When the node has an address and a row for each of the four numbers, and an echo with four rows
  -- has come from another address, `register_echo` returns, and keeps the node's address and the
  -- rows of its table, of which there are as many as before.
  pub register_echo-HasRows :
      (after : Node) × (register_echo fuel rand payload n ≡ some after)
      × (after.addressing.addr_file ≡ some me)
      × HasRows after.routing_table
      × (length after.routing_table ≡ length n.routing_table)
  register_echo-HasRows = let o = outcome in (o.after, o.returns, o.address, o.rows, o.size)

  -- When the node has an address and a row for each of the four numbers, and an echo with four rows
  -- has come from another address, which gives the sender's cost to itself as 0, and the node has the
  -- sender at a cost from 1 to 5, then the node has the sender at cost 1.
  pub register_echo_neighbour_cost :
      (offered row : Route)
      → find h.source_address recv ≡ some offered
      → find h.source_address n.routing_table ≡ some row
      → offered.cost ≡ 0
      → 1 ≤ row.cost
      → row.cost ≤ 5
      → (after : Node) × (row' : Route) × (register_echo fuel rand payload n ≡ some after)
        × (find h.source_address after.routing_table ≡ some row')
        × (row'.cost ≡ 1)
  register_echo_neighbour_cost offered row o r e p q =
      let result = outcome in
      (
        result.after,
        relaxed h.source_address offered (start_row h.source_address h.source_address row),
        result.returns,
        result.row h.source_address offered row range (ground (arith, other)) o r,
        neighbour_cost h.source_address offered row e p q,
      )
