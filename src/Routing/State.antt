-- ===== src/Routing/State.antt =====
-- The state of `VectorRoutingProtocol` and of the globals of its namespace, and the operations
-- that change single parts of it. One handler runs at a time.
use networking_project_chat.Prelude.{
  ℕ, zero, suc, ◌+◌, ◌-◌, List, [], Option, Bool, true, false, if◌then◌else◌,
}
use networking_project_chat.Prelude.Assoc.{insert_or_assign}
use networking_project_chat.Addressing.{
  Addressing, dynamic_addressing, register_addr_used_by_another_node,
  remove_addr_used_by_another_node,
}
use networking_project_chat.Routing.Route.{
  Route, Table, infinity_cost, max_node_number, max_ttl, bcast_timeout,
  wait_first_echo_recv_timeout,
}

-- `broadcast_threads` counts the threads in `broadcast_table`, `resume_timers` those that wait in
-- `resume_protocol_to`.
pub record Node : Type 0 where
  pub addressing : Addressing
  pub routing_table : Table
  pub neighbors : List (ℕ × Bool)
  pub pause_flag : Bool
  pub broadcast_to : ℕ
  pub first_table_received : Bool
  pub wait_first_echo_recv_to : ℕ
  pub update_broadcast_pending : Bool
  pub broadcast_threads : ℕ
  pub resume_timers : ℕ

abbrev initial_route : ℕ → Route
initial_route i = record { next_hop = 0; cost = infinity_cost; destination_node = i; ttl = max_ttl }

-- The loop of `init_internal_table`, over the table and the reachable nodes.
unfoldable pub init_internal_table : ℕ → ℕ → Table → List (ℕ × Bool) → Table × List (ℕ × Bool)
init_internal_table zero i table reachable = (table, reachable)
init_internal_table (suc left) i table reachable =
    init_internal_table left (i + 1) (insert_or_assign i (initial_route i) table)
      (insert_or_assign i false reachable)

unfoldable pub vector_routing_protocol : Option ℕ → Node
unfolding init_internal_table dynamic_addressing
vector_routing_protocol file =
    let (table, reachable) = init_internal_table max_node_number 1 [] [] in
    record {
      addressing = dynamic_addressing file reachable;
      routing_table = table;
      neighbors = [];
      pause_flag = false;
      broadcast_to = bcast_timeout;
      first_table_received = false;
      wait_first_echo_recv_to = wait_first_echo_recv_timeout;
      update_broadcast_pending = false;
      broadcast_threads = 0;
      resume_timers = 0;
    }

unfoldable pub register_active_neighbour : ℕ → Node → Node
register_active_neighbour i n = record n { neighbors = insert_or_assign i true n.neighbors }

unfoldable pub put_neighbour_as_inactive : ℕ → Node → Node
unfolding remove_addr_used_by_another_node
put_neighbour_as_inactive i n = record n {
  addressing = remove_addr_used_by_another_node i n.addressing;
  neighbors = insert_or_assign i false n.neighbors;
}

unfoldable pub register_active_node : ℕ → Node → Node
unfolding register_addr_used_by_another_node
register_active_node i n =
    let a = register_addr_used_by_another_node i n.addressing in
    record n {
      addressing = record a { reachable_nodes = insert_or_assign i true a.reachable_nodes };
    }

unfoldable pub notify_unreachable_node : ℕ → Node → Node
unfolding remove_addr_used_by_another_node
notify_unreachable_node i n =
    let a = remove_addr_used_by_another_node i n.addressing in
    record n {
      addressing = record a { reachable_nodes = insert_or_assign i false a.reachable_nodes };
    }

-- The two branches of `start_broadcasting_thread`, once the flag is tested.
unfoldable pub launch_broadcast : Node → Node
launch_broadcast n = record n {
  update_broadcast_pending = true;
  broadcast_threads = n.broadcast_threads + 1;
}

unfoldable pub postpone_broadcast : Node → Node
postpone_broadcast n = record n { broadcast_to = bcast_timeout }

-- With no other thread between the test of the flag and its setting; Broadcast.Race has them apart.
unfoldable pub start_broadcasting_thread : Node → Node
unfolding launch_broadcast postpone_broadcast
start_broadcasting_thread n =
    if n.update_broadcast_pending then postpone_broadcast n else launch_broadcast n

unfoldable pub pause_protocol : Node → Node
pause_protocol n = record n { pause_flag = true; resume_timers = n.resume_timers + 1 }

unfoldable pub resume_protocol : Node → Node
resume_protocol n = record n { pause_flag = false }

-- The end of a thread in `resume_protocol_to`, after its 80 seconds.
unfoldable pub resume_protocol_to : Node → Node
unfolding resume_protocol
resume_protocol_to n = record (resume_protocol n) { resume_timers = n.resume_timers - 1 }
