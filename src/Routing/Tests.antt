-- ===== src/Routing/Tests.antt =====
-- An exchange of tables between two nodes.
mod Running
mod Program
mod Silence
mod Collision
use networking_project_chat.Prelude.{
  ℕ, zero, suc, ◌≡◌, refl, List, [], ◌∷◌, length, some, true, false, ◌>>=◌, arith,
}
use networking_project_chat.Prelude.Assoc.{find, insert_or_assign}
use networking_project_chat.Packet.{
  Header, extract_header, bytes_vector_to_header_int, get_separated_header,
}
use networking_project_chat.Routing.Route.{Route, Table}
use networking_project_chat.Routing.State.{Node}
use networking_project_chat.Routing.Table.{rows_from, process_payload, build_custom_echo}
use networking_project_chat.Routing.Table.RoundTrip.{process_payload-build_custom_echo}
use networking_project_chat.Routing.Echo.Relax.{HasRows}

abbrev pub row : ℕ → ℕ → ℕ → Route
row hop cost dest = record { next_hop = hop; cost = cost; destination_node = dest; ttl = 40 }

-- Node 1 knows only itself.
abbrev pub node_one : Node
node_one = record {
  addressing = record { addr_file = some 1; addr_in_use = []; reachable_nodes = [] };
  routing_table = (1, row 1 0 1) ∷ (2, row 0 5 2) ∷ (3, row 0 5 3) ∷ (4, row 0 5 4) ∷ [];
  neighbors = [];
  pause_flag = false;
  broadcast_to = 10;
  first_table_received = true;
  wait_first_echo_recv_to = 0;
  update_broadcast_pending = false;
  broadcast_threads = 0;
  resume_timers = 0;
}

-- Node 2 has node 3 at cost 1.
abbrev table_two : Table
table_two = (1, row 0 5 1) ∷ (2, row 2 0 2) ∷ (3, row 3 1 3) ∷ (4, row 0 5 4) ∷ []

process_payload-build_custom_echo_example :
    (build_custom_echo 2 0 table_two >>= process_payload)
    ≡ some (
        (1, record (row 2 5 1) { ttl = 0 })
        ∷ (2, record (row 2 0 2) { ttl = 0 })
        ∷ (3, record (row 2 1 3) { ttl = 0 })
        ∷ (4, record (row 2 5 4) { ttl = 0 })
        ∷ [])
unfolding find
process_payload-build_custom_echo_example =
    process_payload-build_custom_echo 2 0 table_two (row 0 5 1) (row 2 0 2) (row 3 1 3) (row 0 5 4)
      (omega arith) refl refl refl refl refl refl refl refl refl

abbrev pub header_two : Header
header_two = record {
  dest_address = 0;
  next_hop_address = 0;
  source_address = 2;
  message_id = 1;
  fragment_id = 0;
  payload_length = 8;
  more_fragments = 0;
  type = 0;
}

abbrev pub echo_two : List ℕ
echo_two = 0x40 ∷ 0x08 ∷ 0x00 ∷ 0x08 ∷ 1 ∷ 5 ∷ 2 ∷ 0 ∷ 3 ∷ 1 ∷ 4 ∷ 5 ∷ []

abbrev pub received_two : Table
received_two =
    (1, record (row 2 5 1) { ttl = 0 })
    ∷ (2, record (row 2 0 2) { ttl = 0 })
    ∷ (3, record (row 2 1 3) { ttl = 0 })
    ∷ (4, record (row 2 5 4) { ttl = 0 })
    ∷ []

pub echo_two_header : extract_header echo_two ≡ some header_two
unfolding extract_header bytes_vector_to_header_int get_separated_header
echo_two_header = refl

pub echo_two_table : process_payload echo_two ≡ some received_two
unfolding process_payload extract_header bytes_vector_to_header_int get_separated_header rows_from
    insert_or_assign
echo_two_table = refl

pub four_rows-HasRows : (r1 r2 r3 r4 : Route) → HasRows ((1, r1) ∷ (2, r2) ∷ (3, r3) ∷ (4, r4) ∷ [])
unfolding find
four_rows-HasRows r1 r2 r3 r4 zero p q = absurd (omega arith)
four_rows-HasRows r1 r2 r3 r4 (suc zero) p q = (r1, refl)
four_rows-HasRows r1 r2 r3 r4 (suc (suc zero)) p q = (r2, refl)
four_rows-HasRows r1 r2 r3 r4 (suc (suc (suc zero))) p q = (r3, refl)
four_rows-HasRows r1 r2 r3 r4 (suc (suc (suc (suc zero)))) p q = (r4, refl)
four_rows-HasRows r1 r2 r3 r4 (suc (suc (suc (suc (suc i))))) p q = absurd (omega arith)
