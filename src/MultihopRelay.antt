-- ===== src/MultihopRelay.antt =====
-- src/backend/multihop-relay: the header of a packet on its way to another node.
use networking_project_chat.Prelude.{ℕ, List, Option, some, drop, Bool, not, ◌==◌, ◌>>=◌}
use networking_project_chat.Prelude.Assoc.{find}
use networking_project_chat.Packet.{extract_header, add_header_to_payload}
use networking_project_chat.Routing.Route.{Table}

-- `my_addr` is what `get_my_addr` returns.
unfoldable pub is_packet_to_forward : ℕ → List ℕ → Option Bool
is_packet_to_forward my_addr packet = do
  h ← extract_header packet
  some (not (h.dest_address == my_addr))

-- `none` is a packet with no header, or a destination with no route: `table[…]` is then null.
unfoldable pub prepare_header_to_forward : List ℕ → Table → Option (List ℕ)
prepare_header_to_forward packet table = do
  h ← extract_header packet
  r ← find h.dest_address table
  some (add_header_to_payload (record h { next_hop_address = r.next_hop }) (drop 4 packet))
