-- ===== src/Routing/Table.antt =====
-- src/backend/routing/VectorRoutingProtocol.cpp: a routing table as the payload of an echo.
pub mod RoundTrip
pub mod Offers
use networking_project_chat.Prelude.{
  ℕ, zero, suc, ◌+◌, ◌/◌, List, [], ◌∷◌, ◌++◌, Option, none, some, length, drop, ◌>>=◌,
}
use networking_project_chat.Prelude.Assoc.{find, insert_or_assign}
use networking_project_chat.Packet.{
  Header, echo, build_header, bytes_vector_to_header_int, get_separated_header, extract_header,
}
use networking_project_chat.Routing.Route.{Route, Table}

-- One round of `serialize_table` for each number from `i` on. A number that is no key gives a null
-- route, whose fields cannot be read.
unfoldable pub serialize_from : ℕ → ℕ → Table → Option (List ℕ)
serialize_from zero i table = some []
serialize_from (suc left) i table = do
  r ← find i table
  payload ← serialize_from left (i + 1) table
  some (r.destination_node ∷ r.cost ∷ payload)

unfoldable pub serialize_table : Table → Option (List ℕ)
unfolding serialize_from
serialize_table table = serialize_from (length table) 1 table

-- The loop of `process_payload`: each round takes two bytes. The TTL of a received route is not
-- initialised and never read; 0 stands for it.
unfoldable pub rows_from : ℕ → ℕ → List ℕ → Table → Option Table
rows_from zero src bytes table = some table
rows_from (suc rounds) src (destination ∷ cost ∷ bytes) table = rows_from rounds src bytes (
    insert_or_assign destination
      (record { next_hop = src; destination_node = destination; cost = cost; ttl = 0 }) table)
rows_from (suc rounds) src _ table = none

unfoldable pub process_payload : List ℕ → Option Table
unfolding rows_from
process_payload payload = do
  h ← extract_header payload
  rows_from ((h.payload_length + 1) / 2) h.source_address (drop 4 payload) []

-- `build_custom_echo`, where `my_addr` is what `get_my_addr` returns.
unfoldable pub build_custom_echo : ℕ → ℕ → Table → Option (List ℕ)
unfolding serialize_table
build_custom_echo my_addr dest_node table = do
  payload ← serialize_table table
  some (build_header (echo_header my_addr dest_node) ++ payload)
  where
    echo_header : ℕ → ℕ → Header
    echo_header src dest = record {
      dest_address = dest;
      next_hop_address = dest;
      source_address = src;
      message_id = 1;
      fragment_id = 0;
      payload_length = 8;
      more_fragments = 0;
      type = echo;
    }
