-- ===== src/Fragmentation/Fragmenter.antt =====
-- src/backend/fragmentation/Fragmenter.cpp. A `size_t` does not wrap on a vector that exists.
use networking_project_chat.Prelude.{
  ℕ, zero, suc, ◌+◌, ◌-◌, ◌*◌, ◌/◌, min, List, [], ◌∷◌, length, take, drop, ltb, u8, u16,
  if◌then◌else◌,
}
use networking_project_chat.Packet.{Header}

abbrev pub header_size : ℕ
header_size = 4

abbrev pub max_payload_size : ℕ
max_payload_size = 32 - header_size

unfoldable pub total_fragments : List ℕ → ℕ
total_fragments message = (length message + max_payload_size - 1) / max_payload_size

module _ (message : List ℕ) (src dst next_hop msg_id type : ℕ) where
  -- The body of the loop at index `i`.
  unfoldable pub fragment_at : ℕ → ℕ → Header × List ℕ
  fragment_at total i =
      let start = i * max_payload_size in
      let end = min (start + max_payload_size) (length message) in
      let chunk = take (end - start) (drop start message) in
      (
        record {
          payload_length = u8 (length chunk);
          type = type;
          fragment_id = u16 i;
          message_id = msg_id;
          more_fragments = if ltb i (total - 1) then 1 else 0;
          dest_address = dst;
          next_hop_address = next_hop;
          source_address = src;
        },
        chunk,
      )

  -- The loop at index `i`, with `left` rounds to go.
  unfoldable pub fragments_from : ℕ → ℕ → ℕ → List (Header × List ℕ)
  unfolding fragment_at
  fragments_from total zero i = []
  fragments_from total (suc left) i = fragment_at total i ∷ fragments_from total left (i + 1)

  unfoldable pub fragment_message : List (Header × List ℕ)
  unfolding fragments_from total_fragments
  fragment_message = fragments_from (total_fragments message) (total_fragments message) 0
