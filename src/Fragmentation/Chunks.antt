-- ===== src/Fragmentation/Chunks.antt =====
-- The fragments of a message, one by one, and that they make up the message.
use native.Mathlib.Nat.{add-zero, zero-add}
use networking_project_chat.Prelude.{
  ℕ, zero, suc, ◌+◌, ◌-◌, ◌*◌, ◌<◌, ◌≤◌, min, ◌≡◌, ◌≢◌, ap, sym, ◌∙◌, List, [], ◌∷◌, ◌++◌, some,
  arith, false, refl, length, take, drop, get_elem?, length-take, length-drop, take-append-drop,
  drop_all, take-min-length, drop-drop, ltb, u8, u16, if◌then◌else◌,
}
use networking_project_chat.Packet.{Header}
use networking_project_chat.Fragmentation.Reassembler.{is_empty}
use networking_project_chat.Fragmentation.Fragmenter.{
  max_payload_size, total_fragments, fragment_at, fragments_from, fragment_message,
}

-- The bytes of fragment `i`.
abbrev pub chunk : List ℕ → ℕ → List ℕ
chunk message i = take max_payload_size (drop (i * max_payload_size) message)

-- The number of bytes in the chunk: the rest of the message, at most 28.
pub length-chunk :
    (message : List ℕ) (i : ℕ) → length (chunk message i) ≡ min 28 (length message - i * 28)
length-chunk message i = rw (length-take 28 (drop (i * 28) message), length-drop (i * 28) message)

pub length-chunk-le : (message : List ℕ) (i : ℕ) → length (chunk message i) ≤ 28
length-chunk-le message i = omega (arith, length-chunk message i)

-- Below the number of fragments no chunk is empty.
pub chunk-ne_nil : (message : List ℕ) (i : ℕ) → i < total_fragments message → chunk message i ≢ []
unfolding total_fragments
chunk-ne_nil message i h e = omega (arith, length-chunk message i, ap length e)

-- The header of fragment `i` of `total`.
unfoldable pub header_at : List ℕ → (src dst next_hop msg_id type : ℕ) → ℕ → ℕ → Header
header_at message src dst next_hop msg_id type total i = record {
  payload_length = length (chunk message i);
  type = type;
  fragment_id = u16 i;
  message_id = msg_id;
  more_fragments = if ltb i (total - 1) then 1 else 0;
  dest_address = dst;
  next_hop_address = next_hop;
  source_address = src;
}

module _ (message : List ℕ) (src dst next_hop msg_id type : ℕ) where
  pub fragment_at-chunk :
      (total i : ℕ)
      → fragment_at message src dst next_hop msg_id type total i
        ≡ (header_at message src dst next_hop msg_id type total i, chunk message i)
  unfolding fragment_at header_at
  fragment_at-chunk total i = rw (same_chunk, same_length)
    where
      same_chunk :
          take (min (i * 28 + 28) (length message) - i * 28) (drop (i * 28) message)
          ≡ chunk message i
      same_chunk =
          ap (λ n. take n (drop (i * 28) message)) same_end
          ∙ take-min-length 28 (drop (i * 28) message)
        where
          same_end :
              min (i * 28 + 28) (length message) - i * 28 ≡ min 28 (length (drop (i * 28) message))
          same_end = omega (arith, length-drop (i * 28) message)

      same_length : u8 (length (chunk message i)) ≡ length (chunk message i)
      same_length = omega (arith, length-chunk-le message i)

  shift : (a k : ℕ) → a + 1 + k ≡ a + suc k
  shift a k = omega arith

  get_elem?-fragments_from :
      (total left start k : ℕ)
      → k < left
      → get_elem? (fragments_from message src dst next_hop msg_id type total left start) k
        ≡ some (fragment_at message src dst next_hop msg_id type total (start + k))
  unfolding fragments_from
  get_elem?-fragments_from total zero start k h = absurd (omega arith)
  get_elem?-fragments_from total (suc left) start zero h = rw add-zero
  get_elem?-fragments_from total (suc left) start (suc k) h =
      get_elem?-fragments_from total left (start + 1) k (omega arith) ∙ rw (shift start k)

  -- Fragment `k` of a message has its chunk and its header, and the last one alone says so.
  pub get_elem?-fragment_message :
      (k : ℕ)
      → k < total_fragments message
      → get_elem? (fragment_message message src dst next_hop msg_id type) k
        ≡ some (
          header_at message src dst next_hop msg_id type (total_fragments message) k,
          chunk message k,
        )
  unfolding fragment_message
  get_elem?-fragment_message k h =
      get_elem?-fragments_from (total_fragments message) (total_fragments message) 0 k h
      ∙ rw zero-add (ap some (fragment_at-chunk (total_fragments message) k))

-- The chunks from `i` on, `left` of them, one after the other.
abbrev pub chunks_from : List ℕ → ℕ → ℕ → List ℕ
chunks_from message zero i = []
chunks_from message (suc left) i = chunk message i ++ chunks_from message left (i + 1)

chunks_from-drop :
    (message : List ℕ) (left i : ℕ)
    → length message ≤ (i + left) * 28
    → chunks_from message left i ≡ drop (i * 28) message
chunks_from-drop message zero i h = sym (drop_all (i * 28) message (omega arith))
chunks_from-drop message (suc left) i h =
    rw
      (
        chunks_from-drop message left (i + 1) (omega arith),
        ← drop-drop (i * 28) 28 ((i + 1) * 28) message (omega arith),
      )
      (take-append-drop 28 (drop (i * 28) message))

-- Together the chunks are the message.
pub chunks_from_lem : (message : List ℕ) → chunks_from message (total_fragments message) 0 ≡ message
unfolding total_fragments
chunks_from_lem message = chunks_from-drop message _ 0 (omega arith)

-- A message with a fragment is not empty.
pub is_empty_message :
    (message : List ℕ) (i : ℕ) → i < total_fragments message → is_empty message ≡ false
is_empty_message [] i h = absurd (unfold total_fragments in omega arith)
is_empty_message (b ∷ bs) i h = refl
