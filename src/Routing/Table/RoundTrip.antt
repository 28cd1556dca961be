-- ===== src/Routing/Table/RoundTrip.antt =====
-- src/backend/routing/VectorRoutingProtocol.cpp: `process_payload` reads what `build_custom_echo` writes.
use networking_project_chat.Prelude.{
  ℕ, ◌+◌, ◌/◌, ◌<◌, ◌%◌, List, [], ◌∷◌, length, some, ◌>>=◌, ◌≡◌, ◌∙◌, arith, Option,
}
use networking_project_chat.Prelude.Assoc.{find, insert_or_assign}
use networking_project_chat.Packet.{Header, echo, extract_header, add_header_to_payload}
use networking_project_chat.Packet.Fields.{truncate}
use networking_project_chat.Packet.RoundTrip.{
  extract_header-add_header_to_payload, drop-add_header_to_payload,
}
use networking_project_chat.Routing.Route.{Route, Table}
use networking_project_chat.Routing.Table.{
  serialize_from, serialize_table, rows_from, process_payload, build_custom_echo,
}

-- A row as the receiver of an echo has it.
abbrev pub received : ℕ → Route → Route
received src r = record {
  next_hop = src;
  destination_node = r.destination_node;
  cost = r.cost;
  ttl = 0;
}

serialize_table_rows :
    (table : Table) (r1 r2 r3 r4 : Route)
    → length table ≡ 4
    → find 1 table ≡ some r1
    → find 2 table ≡ some r2
    → find 3 table ≡ some r3
    → find 4 table ≡ some r4
    → serialize_table table
      ≡ some (
          r1.destination_node ∷ r1.cost ∷ r2.destination_node ∷ r2.cost ∷ r3.destination_node
          ∷ r3.cost ∷ r4.destination_node ∷ r4.cost ∷ [])
unfolding serialize_table serialize_from
serialize_table_rows table r1 r2 r3 r4 size e1 e2 e3 e4 = rw (size, e1, e2, e3, e4)

process_payload-add_header_to_payload :
    (h : Header) (payload : List ℕ)
    → process_payload (add_header_to_payload h payload)
      ≡ rows_from (((truncate h).payload_length + 1) / 2) (truncate h).source_address payload []
unfolding process_payload
process_payload-add_header_to_payload h payload =
    rw (extract_header-add_header_to_payload h payload, drop-add_header_to_payload h payload)

four_rows :
    (src : ℕ) (r1 r2 r3 r4 : Route)
    → r1.destination_node ≡ 1
    → r2.destination_node ≡ 2
    → r3.destination_node ≡ 3
    → r4.destination_node ≡ 4
    → rows_from 4 src
        (r1.destination_node ∷ r1.cost ∷ r2.destination_node ∷ r2.cost ∷ r3.destination_node
          ∷ r3.cost ∷ r4.destination_node ∷ r4.cost ∷ [])
        []
      ≡ some (
          (1, received src r1)
          ∷ (2, received src r2)
          ∷ (3, received src r3)
          ∷ (4, received src r4)
          ∷ [])
unfolding rows_from insert_or_assign
four_rows src r1 r2 r3 r4 d1 d2 d3 d4 = rw (d1, d2, d3, d4)

-- The header that an echo is written with.
abbrev sent_header : ℕ → ℕ → Header
sent_header src dest = record {
  dest_address = dest;
  next_hop_address = dest;
  source_address = src;
  message_id = 1;
  fragment_id = 0;
  payload_length = 8;
  more_fragments = 0;
  type = echo;
}

build_custom_echo_lem :
    (my_addr dest_node : ℕ) (table : Table) (payload : List ℕ)
    → serialize_table table ≡ some payload
    → build_custom_echo my_addr dest_node table
      ≡ some (add_header_to_payload (sent_header my_addr dest_node) payload)
unfolding build_custom_echo add_header_to_payload
build_custom_echo_lem my_addr dest_node table payload e = rw e

-- What is read from an echo.
pub record Reads (src : ℕ) (recv : Table) (out : Option (List ℕ)) : Type 0 where
  pub packet : List ℕ
  pub header : Header
  pub built : out ≡ some packet
  pub read : extract_header packet ≡ some header
  pub source : header.source_address ≡ src
  pub parsed : process_payload packet ≡ some recv

module _ (my_addr dest_node : ℕ) (table : Table) (r1 r2 r3 r4 : Route) (small : my_addr < 8)
    (size : length table ≡ 4) (e1 : find 1 table ≡ some r1) (e2 : find 2 table ≡ some r2)
    (e3 : find 3 table ≡ some r3) (e4 : find 4 table ≡ some r4) (d1 : r1.destination_node ≡ 1)
    (d2 : r2.destination_node ≡ 2) (d3 : r3.destination_node ≡ 3)
    (d4 : r4.destination_node ≡ 4) where
  pub build_custom_echo-Reads :
      Reads my_addr
        ((1, received my_addr r1)
          ∷ (2, received my_addr r2)
          ∷ (3, received my_addr r3)
          ∷ (4, received my_addr r4)
          ∷ [])
        (build_custom_echo my_addr dest_node table)
  unfolding truncate
  build_custom_echo-Reads =
      let kept : my_addr % 8 ≡ my_addr = omega arith in
      record {
        packet = _;
        header = _;
        built =
            build_custom_echo_lem my_addr dest_node table _
              (serialize_table_rows table r1 r2 r3 r4 size e1 e2 e3 e4);
        read = extract_header-add_header_to_payload _ _;
        source = kept;
        parsed =
            process_payload-add_header_to_payload _ _
            ∙ rw kept (four_rows my_addr r1 r2 r3 r4 d1 d2 d3 d4);
      }

  -- A table with rows 1 to 4 and no others, each of which names its own destination, of a node with
  -- an address below 8, is read from the echo that carries it as four rows with the same costs, each
  -- through the sender.
  pub process_payload-build_custom_echo :
      (build_custom_echo my_addr dest_node table >>= process_payload)
      ≡ some (
          (1, received my_addr r1)
          ∷ (2, received my_addr r2)
          ∷ (3, received my_addr r3)
          ∷ (4, received my_addr r4)
          ∷ [])
  process_payload-build_custom_echo =
      let echo = build_custom_echo-Reads in rw echo.built echo.parsed
