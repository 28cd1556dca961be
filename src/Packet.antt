-- ===== src/Packet.antt =====
-- src/utils/packet_header.h and .cpp: the 32-bit packet header. A `char` of a packet is the number
-- of its byte, below 256; the fields of `Header` are below 256, `fragment_id` below 65536.
pub mod Fields
pub mod RoundTrip
mod Tests
use networking_project_chat.Prelude.{
  ℕ, ◌*◌, ◌/◌, ◌^◌, ◌<◌, bit_and, bit_or, List, [], ◌∷◌, ◌++◌, Option, none, some, u8, u16, u32,
  ◌>>=◌,
}

abbrev src_address_mask : ℕ
src_address_mask = 0xE0000000

abbrev next_hop_address_mask : ℕ
next_hop_address_mask = 0x1C000000

abbrev dest_address_mask : ℕ
dest_address_mask = 0x03800000

abbrev more_fragments_mask : ℕ
more_fragments_mask = 0x00400000

abbrev message_id_mask : ℕ
message_id_mask = 0x00380000

abbrev fragment_id_mask : ℕ
fragment_id_mask = 0x0007FF00

abbrev payload_type_mask : ℕ
payload_type_mask = 0x000000E0

abbrev payload_length_mask : ℕ
payload_length_mask = 0x0000001F

-- The values of `types`.
abbrev pub echo : ℕ
echo = 0

abbrev pub data_packet : ℕ
data_packet = 1

abbrev pub ack : ℕ
ack = 2

pub record Header : Type 0 where
  pub fragment_id : ℕ
  pub source_address : ℕ
  pub next_hop_address : ℕ
  pub dest_address : ℕ
  pub more_fragments : ℕ
  pub message_id : ℕ
  pub type : ℕ
  pub payload_length : ℕ

-- Shifts of a `uint32_t`.
infixl 75 ◌<<◌ ◌>>◌
abbrev ◌<<◌ : ℕ → ℕ → ℕ
x << k = u32 (x * 2 ^ k)

abbrev ◌>>◌ : ℕ → ℕ → ℕ
x >> k = x / 2 ^ k

unfoldable pub get_separated_header : ℕ → Header
get_separated_header header = record {
  source_address = u8 (bit_and header src_address_mask >> 29);
  next_hop_address = u8 (bit_and header next_hop_address_mask >> 26);
  dest_address = u8 (bit_and header dest_address_mask >> 23);
  more_fragments = u8 (bit_and header more_fragments_mask >> 22);
  message_id = u8 (bit_and header message_id_mask >> 19);
  fragment_id = u16 (bit_and header fragment_id_mask >> 8);
  type = u8 (bit_and header payload_type_mask >> 5);
  payload_length = u8 (bit_and header payload_length_mask);
}

-- The `|=` of `build_header`, one after the other.
pub header_word : Header → ℕ
header_word h =
    let w = bit_or 0 (bit_and (h.source_address << 29) src_address_mask) in
    let w = bit_or w (bit_and (h.next_hop_address << 26) next_hop_address_mask) in
    let w = bit_or w (bit_and (h.dest_address << 23) dest_address_mask) in
    let w = bit_or w (bit_and (h.more_fragments << 22) more_fragments_mask) in
    let w = bit_or w (bit_and (h.message_id << 19) message_id_mask) in
    let w = bit_or w (bit_and (h.fragment_id << 8) fragment_id_mask) in
    let w = bit_or w (bit_and (h.type << 5) payload_type_mask) in
    bit_or w (bit_and h.payload_length payload_length_mask)

-- The bytes of a header word, the highest first.
pub word_bytes : ℕ → List ℕ
word_bytes header =
    u8 (bit_and header 0xFF000000 >> 24)
    ∷ u8 (bit_and header 0x00FF0000 >> 16)
    ∷ u8 (bit_and header 0x0000FF00 >> 8)
    ∷ u8 (bit_and header 0x000000FF)
    ∷ []

unfoldable pub build_header : Header → List ℕ
unfolding header_word word_bytes
build_header h = word_bytes (header_word h)

-- `none` is a packet of fewer than four bytes, which the source reads beyond its end.
unfoldable pub bytes_vector_to_header_int : List ℕ → Option ℕ
bytes_vector_to_header_int (b0 ∷ b1 ∷ b2 ∷ b3 ∷ rest) =
    some (bit_or (bit_or (bit_or (u8 b0 << 24) (u8 b1 << 16)) (u8 b2 << 8)) (u8 b3))
bytes_vector_to_header_int _ = none

unfoldable pub add_header_to_payload : Header → List ℕ → List ℕ
add_header_to_payload h payload = build_header h ++ payload

-- `VectorRoutingProtocol::extract_header`; the other readers of a header spell it out.
unfoldable pub extract_header : List ℕ → Option Header
extract_header packet = do
  word ← bytes_vector_to_header_int packet
  some (get_separated_header word)
