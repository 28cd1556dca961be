-- ===== src/Packet/RoundTrip.antt =====
-- Building a header and reading it back, both ways.
use networking_project_chat.Prelude.{
  ℕ, ◌+◌, ◌*◌, ◌/◌, ◌%◌, ◌^◌, ◌<◌, ◌≡◌, refl, ap, ◌∙◌, List, [], ◌∷◌, some, arith, length, drop,
  IsBytes, ◌>>=◌,
}
use networking_project_chat.Packet.{
  Header, get_separated_header, build_header, add_header_to_payload, extract_header,
}
use networking_project_chat.Packet.Fields.{
  Fits, truncate, packed, fields, header_word-packed, word_bytes_lem, word_of_bytes,
}

packed-lt : (h : Header) → packed h < 2 ^ 32
unfolding packed
packed-lt h = omega arith

build_header_lem :
    (h : Header)
    → build_header h
      ≡ packed h / 2 ^ 24 ∷ packed h / 2 ^ 16 % 256 ∷ packed h / 2 ^ 8 % 256 ∷ packed h % 256 ∷ []
unfolding build_header
build_header_lem h = rw (header_word-packed h) (word_bytes_lem (packed h) (packed-lt h))

fields-packed : (h : Header) → get_separated_header (packed h) ≡ truncate h
fields-packed h = fields (packed h) (packed-lt h) ∙ (unfold packed truncate in ground arith)

-- The header in front of any payload reads back with each field cut to its bits.
pub extract_header-add_header_to_payload :
    (h : Header) (payload : List ℕ)
    → extract_header (add_header_to_payload h payload) ≡ some (truncate h)
unfolding extract_header add_header_to_payload
extract_header-add_header_to_payload h payload =
    rw
      (
        build_header_lem h,
        word_of_bytes (packed h / 2 ^ 24) (packed h / 2 ^ 16 % 256) (packed h / 2 ^ 8 % 256)
            (packed h % 256) payload (omega (arith, packed-lt h)) (omega arith) (omega arith)
            (omega arith),
        recombined,
      )
      (ap some (fields-packed h))
  where
    recombined :
        packed h / 2 ^ 24 * 2 ^ 24
          + packed h / 2 ^ 16 % 256 * 2 ^ 16
          + packed h / 2 ^ 8 % 256 * 2 ^ 8
          + packed h % 256
        ≡ packed h
    recombined = omega arith

pub truncate_of_Fits : (h : Header) → Fits h → truncate h ≡ h
unfolding truncate
truncate_of_Fits h f = ground arith

build_header-IsBytes : (h : Header) → IsBytes (build_header h)
build_header-IsBytes h = rw (build_header_lem h) (omega (arith, packed-lt h))

length-build_header : (h : Header) → length (build_header h) ≡ 4
length-build_header h = rw (build_header_lem h)

-- The header read from a packet that begins with four bytes, built again in front of what follows
-- them, gives the packet back.
pub add_header_to_payload-extract_header :
    (b0 b1 b2 b3 : ℕ) (payload : List ℕ)
    → IsBytes (b0 ∷ b1 ∷ b2 ∷ b3 ∷ [])
    → (do h ← extract_header (b0 ∷ b1 ∷ b2 ∷ b3 ∷ payload); some (add_header_to_payload h payload))
      ≡ some (b0 ∷ b1 ∷ b2 ∷ b3 ∷ payload)
unfolding extract_header add_header_to_payload
add_header_to_payload-extract_header b0 b1 b2 b3 payload h =
    rw
      (
        word_of_bytes b0 b1 b2 b3 payload h.0 h.1.0 h.1.1.0 h.1.1.1.0,
        build_header_lem (get_separated_header (b0 * 2 ^ 24 + b1 * 2 ^ 16 + b2 * 2 ^ 8 + b3)),
      )
      (ground (arith, fields (b0 * 2 ^ 24 + b1 * 2 ^ 16 + b2 * 2 ^ 8 + b3), repacked))
  where
    word : ℕ
    word = b0 * 2 ^ 24 + b1 * 2 ^ 16 + b2 * 2 ^ 8 + b3

    repacked : packed (get_separated_header word) ≡ word
    repacked = unfold packed in rw (fields word (omega arith)) (omega arith)

pub drop-add_header_to_payload :
    (h : Header) (payload : List ℕ) → drop 4 (add_header_to_payload h payload) ≡ payload
unfolding add_header_to_payload build_header
drop-add_header_to_payload h payload = refl

pub length-add_header_to_payload :
    (h : Header) (payload : List ℕ) → length (add_header_to_payload h payload) ≡ 4 + length payload
unfolding add_header_to_payload build_header
length-add_header_to_payload h payload = omega arith
