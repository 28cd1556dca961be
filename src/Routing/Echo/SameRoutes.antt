-- ===== src/Routing/Echo/SameRoutes.antt =====
-- The end of `register_echo`, which leaves the table and the address alone.
use networking_project_chat.Prelude.{
  ℕ, zero, suc, ◌+◌, ◌≤◌, some, Bool, true, false, ◌==◌, ◌≡◌, refl, ◌∙◌, if◌then◌else◌, arith,
}
use networking_project_chat.Addressing.{
  Addressing, get_my_addr, register_from, update_connected_nodes_list_from_rt,
}
use networking_project_chat.Routing.Route.{Table}
use networking_project_chat.Routing.State.{
  Node, register_active_node, notify_unreachable_node, start_broadcasting_thread,
}
use networking_project_chat.Routing.Echo.{publish_from}
use networking_project_chat.Routing.Echo.Relax.{HasRows}

-- Publishing which nodes can be reached leaves the table, the node's address, its first wait
-- and its pause alone.
pub record SameRoutes (n n' : Node) : Type 0 where
  pub table : n'.routing_table ≡ n.routing_table
  pub address : n'.addressing.addr_file ≡ n.addressing.addr_file
  pub wait : n'.wait_first_echo_recv_to ≡ n.wait_first_echo_recv_to
  pub pause : n'.pause_flag ≡ n.pause_flag

publish-SameRoutes :
    (i : ℕ) (b : Bool) (n : Node)
    → SameRoutes n (if b then notify_unreachable_node i n else register_active_node i n)
unfolding notify_unreachable_node register_active_node
publish-SameRoutes i true n = record { table = refl; address = refl; wait = refl; pause = refl }
publish-SameRoutes i false n = record { table = refl; address = refl; wait = refl; pause = refl }

publish_from-SameRoutes :
    (left i : ℕ) (n : Node)
    → HasRows n.routing_table
    → 1 ≤ i
    → i + left ≤ 5
    → (n' : Node) × (publish_from left i n ≡ some n') × SameRoutes n n'
unfolding publish_from
publish_from-SameRoutes zero i n has p q =
    (n, refl, record { table = refl; address = refl; wait = refl; pause = refl })
publish_from-SameRoutes (suc left) i n has p q =
    let (row, e) = has i p (omega arith) in
    let first = publish-SameRoutes i (row.cost == 5) n in
    let rest =
      publish_from-SameRoutes left (i + 1)
        (if row.cost == 5 then notify_unreachable_node i n else register_active_node i n)
        (rw first.table has) (omega arith) (omega arith) in
    (
      rest.0,
      rw e rest.1,
      record {
        table = rest.2.table ∙ first.table;
        address = rest.2.address ∙ first.address;
        wait = rest.2.wait ∙ first.wait;
        pause = rest.2.pause ∙ first.pause;
      },
    )

addr_file-register_from :
    (left i : ℕ) (rt : Table) (a : Addressing) → (register_from left i rt a).addr_file ≡ a.addr_file
unfolding register_from
addr_file-register_from zero i rt a = refl
addr_file-register_from (suc left) i rt a = addr_file-register_from left (i + 1) rt _ ∙ ground arith

pub addr_file-update :
    (rt : Table) (a : Addressing)
    → (update_connected_nodes_list_from_rt rt a).addr_file ≡ a.addr_file
unfolding update_connected_nodes_list_from_rt
addr_file-update rt a = addr_file-register_from 4 1 rt _

pub get_my_addr_lem :
    (a : Addressing) (me : ℕ)
    → a.addr_file ≡ some me
    → get_my_addr a ≡ (me, record a { addr_file = some me })
unfolding get_my_addr
get_my_addr_lem a me e = ground arith

pub broadcast-SameRoutes :
    (b : Bool) (n : Node) → SameRoutes n (if b then start_broadcasting_thread n else n)
unfolding start_broadcasting_thread
broadcast-SameRoutes true n = record {
  table = ground arith;
  address = ground arith;
  wait = ground arith;
  pause = ground arith;
}
broadcast-SameRoutes false n = record { table = refl; address = refl; wait = refl; pause = refl }

pub published-SameRoutes :
    (b : Bool) (n : Node)
    → HasRows n.routing_table
    → (n' : Node) × ((if b then publish_from 4 1 n else some n) ≡ some n') × SameRoutes n n'
published-SameRoutes true n has = publish_from-SameRoutes 4 1 n has (omega arith) (omega arith)
published-SameRoutes false n has =
    (n, refl, record { table = refl; address = refl; wait = refl; pause = refl })
