-- ===== src/Routing/Route.antt =====
-- src/backend/routing/Route.h, and the constants of VectorRoutingProtocol.h that its users share.
use networking_project_chat.Prelude.{ℕ, List}

-- Every field is an `unsigned char`.
pub record Route : Type 0 where
  pub next_hop : ℕ
  pub cost : ℕ
  pub destination_node : ℕ
  pub ttl : ℕ

-- `std::map<unsigned char, Route *>`. Each route belongs to one table, and the copies of a table are
-- only read, so that the pointers are not modelled.
abbrev pub Table : Type 0
Table = List (ℕ × Route)

abbrev pub infinity_cost : ℕ
infinity_cost = 5

abbrev pub maximum_cost : ℕ
maximum_cost = 7

abbrev pub max_node_number : ℕ
max_node_number = 4

abbrev pub max_ttl : ℕ
max_ttl = 40

abbrev pub bcast_timeout : ℕ
bcast_timeout = 10

abbrev pub wait_first_echo_recv_timeout : ℕ
wait_first_echo_recv_timeout = 30
