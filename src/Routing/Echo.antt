-- ===== src/Routing/Echo.antt =====
-- src/backend/routing/VectorRoutingProtocol.cpp: `register_echo`, what a node does with the table of
-- a neighbour. `none` is a null route dereferenced, a read beyond the packet, or (in `draw_addr`)
-- fuel run out.
pub mod Relax
pub mod KeepsOthers
pub mod SameRoutes
pub mod Neighbour
pub mod Improve
pub mod Collision
use networking_project_chat.Prelude.{
  ℕ, zero, suc, ◌+◌, List, [], ◌∷◌, Option, none, some, Bool, true, false, not, ◌&&◌, ◌||◌, ◌==◌,
  ltb, u8, ◌>>=◌, if◌then◌else◌,
}
use networking_project_chat.Prelude.Assoc.{find, insert_or_assign}
use networking_project_chat.Packet.{extract_header}
use networking_project_chat.Addressing.{
  get_my_addr, gen_random_addr, update_connected_nodes_list_from_rt,
}
use networking_project_chat.Routing.Route.{
  Route, Table, infinity_cost, maximum_cost, max_node_number, max_ttl,
}
use networking_project_chat.Routing.State.{
  Node, register_active_neighbour, register_active_node, notify_unreachable_node,
  start_broadcasting_thread,
}
use networking_project_chat.Routing.Table.{process_payload}

unfoldable pub calculate_link_cost_from_rtt : ℕ → ℕ
calculate_link_cost_from_rtt rtt = 1

abbrev link_cost : ℕ
link_cost = u8 (calculate_link_cost_from_rtt 1)

-- `register_echo` enters the node itself until the first table has come, or the wait is over.
unfoldable pub register_self : ℕ → Node → Option Node
register_self my_addr n =
    if not n.first_table_received || n.wait_first_echo_recv_to == 0
    then (do
      r ← find my_addr n.routing_table
      some (record n {
        routing_table =
            insert_or_assign my_addr
              (record r { next_hop = my_addr; cost = 0; destination_node = my_addr })
              n.routing_table;
      }))
    else some n

unfoldable pub handle_collision : ℕ → (ℕ → ℕ) → Node → Option Node
unfolding gen_random_addr get_my_addr
handle_collision fuel rand n =
    if n.first_table_received
    then (do
      a ← gen_random_addr false fuel rand n.addressing
      let (new_addr, a') = get_my_addr a
      r ← find new_addr n.routing_table
      some (record n {
        addressing = a';
        routing_table =
            insert_or_assign new_addr
              (record { destination_node = new_addr; next_hop = new_addr; cost = 0; ttl = max_ttl })
              n.routing_table;
      }))
    else some n

-- The row of a neighbour that is new, or that has the node's own address. The result says whether
-- the table has changed.
unfoldable pub discover : ℕ → (ℕ → ℕ) → ℕ → ℕ → Node → Option (Node × Bool)
unfolding calculate_link_cost_from_rtt
discover fuel rand my_addr src n = do
  row ← find src n.routing_table
  if row.cost == infinity_cost || src == my_addr
      then (do
        n ← if src == my_addr then handle_collision fuel rand n else some n
        r ← find src n.routing_table
        some (
          record n {
            routing_table =
                insert_or_assign src
                  (record {
                    destination_node = src;
                    next_hop = src;
                    cost = link_cost;
                    ttl = max_ttl;
                  })
                  n.routing_table;
          },
          true,
        ))
      else some (n, false)

-- The body of the loop over the destinations at a route that the table has.
unfoldable pub relax_row : ℕ → ℕ → Route → Table → Bool → ℕ → Table × Bool
relax_row src potential_new_cost row table changes dest_node =
    if ltb potential_new_cost row.cost || row.cost == infinity_cost || row.ttl == 0
    then (
      insert_or_assign dest_node
          (record row { cost = potential_new_cost; next_hop = src; ttl = max_ttl }) table,
      true,
    )
    else (
      table,
      if ltb row.cost potential_new_cost && not (row.next_hop == src) then true else changes,
    )

-- The body of the loop over the destinations.
unfoldable pub relax_dest : ℕ → ℕ → Table → Table × Bool → ℕ → Option (Table × Bool)
unfolding relax_row calculate_link_cost_from_rtt
relax_dest my_addr src recv (table, changes) dest_node =
    if my_addr == dest_node then some (table, changes) else (do
      offered ← find dest_node recv
      let potential_new_cost = u8 (offered.cost + link_cost)
      if not (offered.cost == infinity_cost)
          then if ltb maximum_cost potential_new_cost
            then some (table, changes)
            else (elim (find dest_node table) [
              | some row ↦ some (relax_row src potential_new_cost row table changes dest_node)
              | none ↦ do
                r ← find src table
                some (
                  insert_or_assign src
                      (record r { next_hop = src; cost = potential_new_cost; ttl = max_ttl }) table,
                  true,
                )
            ])
          else (do
            row ← find dest_node table
            some (
              table,
              if row.next_hop == src && not (dest_node == my_addr) then true else changes,
            )))

unfoldable pub relax_from : ℕ → ℕ → ℕ → ℕ → Table → Table × Bool → Option (Table × Bool)
unfolding relax_dest
relax_from zero i my_addr src recv s = some s
relax_from (suc left) i my_addr src recv s = do
  s' ← relax_dest my_addr src recv s i
  relax_from left (i + 1) my_addr src recv s'

-- The loop that tells which nodes can be reached.
unfoldable pub publish_from : ℕ → ℕ → Node → Option Node
unfolding register_active_node notify_unreachable_node
publish_from zero i n = some n
publish_from (suc left) i n = do
  row ← find i n.routing_table
  publish_from left (i + 1)
      (if row.cost == infinity_cost then notify_unreachable_node i n else register_active_node i n)

unfoldable pub register_echo : ℕ → (ℕ → ℕ) → List ℕ → Node → Option Node
register_echo fuel rand payload n = do
  h ← extract_header payload
  let src = h.source_address
  recv ← process_payload payload
  let (my_addr, a) = get_my_addr n.addressing
  n ← register_self my_addr (record n { addressing = a })
  (n, discovered) ← discover fuel rand my_addr src (register_active_neighbour src n)
  (table, changes) ← relax_from max_node_number 1 my_addr src recv (n.routing_table, discovered)
  let n : Node = record n { routing_table = table }
  n ← if changes then publish_from max_node_number 1 n else some n
  let n : Node = record n {
    addressing = update_connected_nodes_list_from_rt table n.addressing;
    first_table_received = true;
  }
  some (if changes then start_broadcasting_thread n else n)
