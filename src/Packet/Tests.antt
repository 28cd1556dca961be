-- ===== src/Packet/Tests.antt =====
-- Headers at concrete values.
use networking_project_chat.Prelude.{◌≡◌, refl, [], ◌∷◌, some, arith, ◌>>=◌}
use networking_project_chat.Packet.{Header, build_header, extract_header, add_header_to_payload}
use networking_project_chat.Packet.Fields.{truncate}
use networking_project_chat.Packet.RoundTrip.{
  extract_header-add_header_to_payload, add_header_to_payload-extract_header,
}

abbrev sample : Header
sample = record {
  fragment_id = 1029;
  source_address = 1;
  next_hop_address = 3;
  dest_address = 2;
  more_fragments = 1;
  message_id = 5;
  type = 1;
  payload_length = 28;
}

build_header-sample : build_header sample ≡ 0x2d ∷ 0x6c ∷ 0x05 ∷ 0x3c ∷ []
unfolding build_header
build_header-sample = refl

extract_header-add_header_to_payload_example :
    extract_header (add_header_to_payload sample (72 ∷ 105 ∷ [])) ≡ some (truncate sample)
extract_header-add_header_to_payload_example =
    extract_header-add_header_to_payload sample (72 ∷ 105 ∷ [])

add_header_to_payload-extract_header_example :
    (do
      h ← extract_header (0x2d ∷ 0x6c ∷ 0x05 ∷ 0x3c ∷ 72 ∷ [])
      some (add_header_to_payload h (72 ∷ [])))
    ≡ some (0x2d ∷ 0x6c ∷ 0x05 ∷ 0x3c ∷ 72 ∷ [])
add_header_to_payload-extract_header_example =
    add_header_to_payload-extract_header 0x2d 0x6c 0x05 0x3c (72 ∷ []) (omega arith)
