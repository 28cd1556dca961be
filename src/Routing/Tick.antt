-- ===== src/Routing/Tick.antt =====
-- src/backend/routing/VectorRoutingProtocol.cpp: `tick`, which runs once a second, and
-- `inactive_neighbours_handling`. `none` is a null route, or (in `gen_random_addr`) fuel run out.
pub mod Lost
pub mod Inactive
pub mod Stages
pub mod Ageing
pub mod Expiry
pub mod Second
pub mod Silence
pub mod Rounds
use networking_project_chat.Prelude.{
  ℕ, zero, suc, ◌+◌, ◌-◌, ◌%◌, ◌^◌, List, [], ◌∷◌, Option, none, some, Bool, true, false, not, ◌&&◌,
  ◌||◌, ◌==◌, ltb, u32, ◌>>=◌, if◌then◌else◌,
}
use networking_project_chat.Prelude.Assoc.{find, insert_or_assign, at_or}
use networking_project_chat.Addressing.{Addressing, get_my_addr, gen_random_addr}
use networking_project_chat.Routing.Route.{Route, Table, infinity_cost, max_node_number}
use networking_project_chat.Routing.State.{
  Node, put_neighbour_as_inactive, notify_unreachable_node, start_broadcasting_thread,
}

-- The inner loop of `inactive_neighbours_handling`: the rows through node `i`, from row `j` on.
unfoldable pub clear_via : ℕ → ℕ → ℕ → Table → Table
clear_via zero i j table = table
clear_via (suc left) i j table = clear_via left i (j + 1) (elim (find j table) [
  | none ↦ table
  | some r ↦
      if r.next_hop == i
      then insert_or_assign j (record r { cost = infinity_cost; next_hop = 0 }) table
      else table
])

-- The outer loop, at the neighbours from `i` on.
unfoldable pub inactive_from : ℕ → ℕ → ℕ → List (ℕ × Bool) → Table → Option Table
unfolding clear_via
inactive_from zero i my_addr neighbors table = some table
inactive_from (suc left) i my_addr neighbors table = do
  table ← if at_or false (find i neighbors) then some table else (do
    r ← find i table
    some (
        if r.next_hop == i && not (i == my_addr)
        then clear_via max_node_number i 1 table
        else table))
  inactive_from left (i + 1) my_addr neighbors table

-- The address is read once here, and in the program for each neighbour that is not active: with an address
-- in the file this is the same.
unfoldable pub inactive_neighbours_handling : Node → Option Node
unfolding get_my_addr
inactive_neighbours_handling n = do
  let (my_addr, a) = get_my_addr n.addressing
  table ← inactive_from max_node_number 1 my_addr n.neighbors n.routing_table
  some (record n { addressing = a; routing_table = table })

-- A node whose row has expired is neither a neighbour nor reachable.
unfoldable pub lapse : ℕ → ℕ → Node → Node
unfolding put_neighbour_as_inactive notify_unreachable_node
lapse i ttl n = if ttl == 0 then notify_unreachable_node i (put_neighbour_as_inactive i n) else n

-- The node's own row, given as `r`, gets the cost 0.
unfoldable pub check_myself : ℕ → Route → Node → Node
unfolding get_my_addr
check_myself i r n =
    let (my_addr, a) = get_my_addr n.addressing in
    record n {
      addressing = a;
      routing_table =
          if i == my_addr
          then insert_or_assign i (record r { cost = 0 }) n.routing_table
          else n.routing_table;
    }

-- One round of the loop of `tick` over the rows, where lifetimes fall.
unfoldable pub expire_row : Bool → ℕ → Node → Option Node
expire_row first_run i n = do
  r ← find i n.routing_table
  let aged : Route = record r { ttl = r.ttl - 1 }
  let n : Node =
      lapse i aged.ttl (record n { routing_table = insert_or_assign i aged n.routing_table })
  some (if first_run then n else check_myself i aged n)

unfoldable pub expire_from : ℕ → ℕ → Bool → Node → Option Node
expire_from zero i first_run n = some n
expire_from (suc left) i first_run n = do
  n ← expire_row first_run i n
  expire_from left (i + 1) first_run n

-- The timers at the end of a round: the counters are `unsigned int`.
unfoldable pub count_down : Bool → Node → Node
count_down first_run n = record n {
  broadcast_to =
      if ltb 0 n.broadcast_to && not n.pause_flag then n.broadcast_to - 1 else n.broadcast_to;
  wait_first_echo_recv_to =
      if first_run
      then u32 (n.wait_first_echo_recv_to + (2 ^ 32 - 1))
      else n.wait_first_echo_recv_to;
}

-- The first round in which a table has come, or the wait is over, gives the node its address.
unfoldable pub start_up : ℕ → (ℕ → ℕ) → Bool → Node → Option (Bool × Node)
start_up fuel rand first_run n =
    if first_run && n.first_table_received || first_run && n.wait_first_echo_recv_to == 0
    then (do
      a ← gen_random_addr true fuel rand n.addressing
      some (false, record n { addressing = a }))
    else some (first_run, n)

-- One round of `tick`. The result carries `first_run` to the next.
unfoldable pub tick : ℕ → (ℕ → ℕ) → Bool → Node → Option (Bool × Node)
tick fuel rand first_run n = do
  (first_run, n) ← start_up fuel rand first_run n
  let n : Node =
      if n.broadcast_to == 0 && not first_run && not n.pause_flag
      then start_broadcasting_thread n
      else n
  n ←
      if not n.pause_flag
      then (do n ← expire_from max_node_number 1 first_run n; inactive_neighbours_handling n)
      else some n
  some (first_run, count_down first_run n)
