-- ===== src/Packet/Fields.antt =====
-- The header as arithmetic: what each mask and shift of packet_header.cpp computes.
use networking_project_chat.Prelude.{
  ℕ, ◌+◌, ◌*◌, ◌/◌, ◌%◌, ◌^◌, ◌<◌, bit_and, bit_or, ◌≡◌, List, [], ◌∷◌, some, arith, u32,
}
use networking_project_chat.Prelude.Bits.{bit_and_mask, bit_or-eq-add}
use networking_project_chat.Packet.{
  Header, get_separated_header, header_word, word_bytes, bytes_vector_to_header_int,
}

-- Every field fits its bits in the header.
pub record Fits (h : Header) : Type 0 where
  pub source_fits : h.source_address < 8
  pub next_hop_fits : h.next_hop_address < 8
  pub dest_fits : h.dest_address < 8
  pub more_fits : h.more_fragments < 2
  pub message_fits : h.message_id < 8
  pub fragment_fits : h.fragment_id < 2048
  pub type_fits : h.type < 8
  pub length_fits : h.payload_length < 32

-- The header whose fields are cut to their bits.
unfoldable pub truncate : Header → Header
truncate h = record {
  source_address = h.source_address % 8;
  next_hop_address = h.next_hop_address % 8;
  dest_address = h.dest_address % 8;
  more_fragments = h.more_fragments % 2;
  message_id = h.message_id % 8;
  fragment_id = h.fragment_id % 2048;
  type = h.type % 8;
  payload_length = h.payload_length % 32;
}

-- What `get_separated_header` reads, by division.
pub fields :
    (w : ℕ)
    → w < 2 ^ 32
    → get_separated_header w ≡ record {
      source_address = w / 2 ^ 29;
      next_hop_address = w / 2 ^ 26 % 8;
      dest_address = w / 2 ^ 23 % 8;
      more_fragments = w / 2 ^ 22 % 2;
      message_id = w / 2 ^ 19 % 8;
      fragment_id = w / 2 ^ 8 % 2048;
      type = w / 2 ^ 5 % 8;
      payload_length = w % 32;
    }
unfolding get_separated_header
fields w h = ground (
  arith,
  bit_and_mask 29 3 w,
  bit_and_mask 26 3 w,
  bit_and_mask 23 3 w,
  bit_and_mask 22 1 w,
  bit_and_mask 19 3 w,
  bit_and_mask 8 11 w,
  bit_and_mask 5 3 w,
  bit_and_mask 0 5 w,
)

-- The fields side by side, each cut to its bits.
unfoldable pub packed : Header → ℕ
packed h =
    h.source_address % 8 * 2 ^ 29
    + h.next_hop_address % 8 * 2 ^ 26
    + h.dest_address % 8 * 2 ^ 23
    + h.more_fragments % 2 * 2 ^ 22
    + h.message_id % 8 * 2 ^ 19
    + h.fragment_id % 2048 * 2 ^ 8
    + h.type % 8 * 2 ^ 5
    + h.payload_length % 32

-- The `|=` of fields in their places add up.
or_fields :
    (a b c d e f g k : ℕ)
    → a < 8
    → b < 8
    → c < 8
    → d < 2
    → e < 8
    → f < 2048
    → g < 8
    → k < 32
    → bit_or
        (bit_or
          (bit_or
            (bit_or
              (bit_or
                (bit_or (bit_or (bit_or 0 (a * 2 ^ 29)) (b * 2 ^ 26)) (c * 2 ^ 23))
                (d * 2 ^ 22))
              (e * 2 ^ 19))
            (f * 2 ^ 8))
          (g * 2 ^ 5))
        k
      ≡ a * 2 ^ 29 + b * 2 ^ 26 + c * 2 ^ 23 + d * 2 ^ 22 + e * 2 ^ 19 + f * 2 ^ 8 + g * 2 ^ 5 + k
or_fields a b c d e f g k ha hb hc hd he hf hg hk =
    rw
      (
        bit_or-eq-add 32 0 (a * 2 ^ 29) (omega arith) (omega arith),
        bit_or-eq-add 29 (0 + a * 2 ^ 29) (b * 2 ^ 26) (omega arith) (omega arith),
        bit_or-eq-add 26 (0 + a * 2 ^ 29 + b * 2 ^ 26) (c * 2 ^ 23) (omega arith) (omega arith),
        bit_or-eq-add 23 (0 + a * 2 ^ 29 + b * 2 ^ 26 + c * 2 ^ 23) (d * 2 ^ 22) (omega arith)
            (omega arith),
        bit_or-eq-add 22 (0 + a * 2 ^ 29 + b * 2 ^ 26 + c * 2 ^ 23 + d * 2 ^ 22) (e * 2 ^ 19)
            (omega arith) (omega arith),
        bit_or-eq-add 19 (0 + a * 2 ^ 29 + b * 2 ^ 26 + c * 2 ^ 23 + d * 2 ^ 22 + e * 2 ^ 19)
            (f * 2 ^ 8) (omega arith) (omega arith),
        bit_or-eq-add 8
            (0 + a * 2 ^ 29 + b * 2 ^ 26 + c * 2 ^ 23 + d * 2 ^ 22 + e * 2 ^ 19 + f * 2 ^ 8)
            (g * 2 ^ 5) (omega arith) (omega arith),
        bit_or-eq-add 5
            (0
              + a * 2 ^ 29
              + b * 2 ^ 26
              + c * 2 ^ 23
              + d * 2 ^ 22
              + e * 2 ^ 19
              + f * 2 ^ 8
              + g * 2 ^ 5)
            k (omega arith) (omega arith),
      )
      (omega arith)

-- A shift and a mask cut a field to its bits and put it in its place.
masked_source : (a : ℕ) → bit_and (u32 (a * 2 ^ 29)) 0xE0000000 ≡ a % 8 * 2 ^ 29
masked_source a = omega (arith, bit_and_mask 29 3 (u32 (a * 2 ^ 29)))

masked_next_hop : (a : ℕ) → bit_and (u32 (a * 2 ^ 26)) 0x1C000000 ≡ a % 8 * 2 ^ 26
masked_next_hop a = omega (arith, bit_and_mask 26 3 (u32 (a * 2 ^ 26)))

masked_dest : (a : ℕ) → bit_and (u32 (a * 2 ^ 23)) 0x03800000 ≡ a % 8 * 2 ^ 23
masked_dest a = omega (arith, bit_and_mask 23 3 (u32 (a * 2 ^ 23)))

masked_more : (a : ℕ) → bit_and (u32 (a * 2 ^ 22)) 0x00400000 ≡ a % 2 * 2 ^ 22
masked_more a = omega (arith, bit_and_mask 22 1 (u32 (a * 2 ^ 22)))

masked_message : (a : ℕ) → bit_and (u32 (a * 2 ^ 19)) 0x00380000 ≡ a % 8 * 2 ^ 19
masked_message a = omega (arith, bit_and_mask 19 3 (u32 (a * 2 ^ 19)))

masked_fragment : (a : ℕ) → bit_and (u32 (a * 2 ^ 8)) 0x0007FF00 ≡ a % 2048 * 2 ^ 8
masked_fragment a = omega (arith, bit_and_mask 8 11 (u32 (a * 2 ^ 8)))

masked_type : (a : ℕ) → bit_and (u32 (a * 2 ^ 5)) 0x000000E0 ≡ a % 8 * 2 ^ 5
masked_type a = omega (arith, bit_and_mask 5 3 (u32 (a * 2 ^ 5)))

masked_length : (a : ℕ) → bit_and a 0x0000001F ≡ a % 32
masked_length a = omega (arith, bit_and_mask 0 5 a)

pub header_word-packed : (h : Header) → header_word h ≡ packed h
unfolding header_word packed
header_word-packed h =
    rw
      (
        masked_source h.source_address,
        masked_next_hop h.next_hop_address,
        masked_dest h.dest_address,
        masked_more h.more_fragments,
        masked_message h.message_id,
        masked_fragment h.fragment_id,
        masked_type h.type,
        masked_length h.payload_length,
      )
      (or_fields (h.source_address % 8) (h.next_hop_address % 8) (h.dest_address % 8)
        (h.more_fragments % 2) (h.message_id % 8) (h.fragment_id % 2048) (h.type % 8)
        (h.payload_length % 32) (omega arith) (omega arith) (omega arith) (omega arith)
        (omega arith) (omega arith) (omega arith) (omega arith))

-- The four bytes of a word, and the word that four bytes make.
pub word_bytes_lem :
    (w : ℕ)
    → w < 2 ^ 32
    → word_bytes w ≡ w / 2 ^ 24 ∷ w / 2 ^ 16 % 256 ∷ w / 2 ^ 8 % 256 ∷ w % 256 ∷ []
unfolding word_bytes
word_bytes_lem w h =
    ground (arith, bit_and_mask 24 8 w, bit_and_mask 16 8 w, bit_and_mask 8 8 w, bit_and_mask 0 8 w)

pub word_of_bytes :
    (b0 b1 b2 b3 : ℕ) (rest : List ℕ)
    → b0 < 256
    → b1 < 256
    → b2 < 256
    → b3 < 256
    → bytes_vector_to_header_int (b0 ∷ b1 ∷ b2 ∷ b3 ∷ rest)
      ≡ some (b0 * 2 ^ 24 + b1 * 2 ^ 16 + b2 * 2 ^ 8 + b3)
unfolding bytes_vector_to_header_int
word_of_bytes b0 b1 b2 b3 rest h0 h1 h2 h3 = ground (
  arith,
  bit_or-eq-add 24 (b0 * 2 ^ 24) (b1 * 2 ^ 16),
  bit_or-eq-add 16 (b0 * 2 ^ 24 + b1 * 2 ^ 16) (b2 * 2 ^ 8),
  bit_or-eq-add 8 (b0 * 2 ^ 24 + b1 * 2 ^ 16 + b2 * 2 ^ 8) b3,
)
