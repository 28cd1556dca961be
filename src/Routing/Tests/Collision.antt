-- ===== src/Routing/Tests/Collision.antt =====
-- Node 1 hears another node 1.
use networking_project_chat.Prelude.{ℕ, ◌≡◌, refl, List, [], ◌∷◌, some, arith}
use networking_project_chat.Prelude.Assoc.{find, insert_or_assign}
use networking_project_chat.Packet.{
  Header, extract_header, bytes_vector_to_header_int, get_separated_header,
}
use networking_project_chat.Routing.Route.{Table}
use networking_project_chat.Routing.Table.{rows_from, process_payload}
use networking_project_chat.Routing.Echo.{register_echo}
use networking_project_chat.Routing.Echo.Collision.{Parted, register_echo-Parted}
use networking_project_chat.Routing.Tests.{row, node_one, header_two, four_rows-HasRows}

-- The other node has node 3 at cost 1.
abbrev echo_one : List ℕ
echo_one = 0x20 ∷ 0x08 ∷ 0x00 ∷ 0x08 ∷ 1 ∷ 0 ∷ 2 ∷ 5 ∷ 3 ∷ 1 ∷ 4 ∷ 5 ∷ []

abbrev header_one : Header
header_one = record header_two { source_address = 1 }

abbrev received_one : Table
received_one =
    (1, record (row 1 0 1) { ttl = 0 })
    ∷ (2, record (row 1 5 2) { ttl = 0 })
    ∷ (3, record (row 1 1 3) { ttl = 0 })
    ∷ (4, record (row 1 5 4) { ttl = 0 })
    ∷ []

echo_one_header : extract_header echo_one ≡ some header_one
unfolding extract_header bytes_vector_to_header_int get_separated_header
echo_one_header = refl

echo_one_table : process_payload echo_one ≡ some received_one
unfolding process_payload extract_header bytes_vector_to_header_int get_separated_header rows_from
    insert_or_assign
echo_one_table = refl

register_echo-Parted_example :
    (addr : ℕ) × Parted 1 addr node_one (register_echo 1 (λ k. 2) echo_one node_one)
unfolding find
register_echo-Parted_example =
    register_echo-Parted 1 (λ k. 2) echo_one node_one 1 0 header_one received_one refl (omega arith)
      (four_rows-HasRows _ _ _ _) refl echo_one_header echo_one_table (four_rows-HasRows _ _ _ _)
      refl (omega arith) refl
