-- ===== src/Network/Framing.antt =====
-- Frames written by `Client` and read by `DataReceiver`.
use networking_project_chat.Prelude.{
  ℕ, suc, ◌+◌, ◌%◌, ◌^◌, ◌<◌, ◌≤◌, List, [], ◌∷◌, ◌++◌, none, some, Bool, true, false, ◌==◌, ltb,
  u8, length, length-append, ◌≡◌, refl, ap, ◌∙◌, if◌then◌else◌, arith, All, take, drop, map,
  take-append-drop, length-take,
}
use mathlib.Core.List.{append_assoc}
use networking_project_chat.Network.Messages.{MessageType, data_frame, data_short, Message}
use networking_project_chat.Network.DataReceiver.{Reading, new_reading, read_buffer, receive_data}
use networking_project_chat.Network.Client.{frame_type, frame, frames}
use networking_project_chat.Network.Stream.{read_buffer-append, stream, receive_data-stream}

-- Inside a message: `n` bytes announced, some of them read.
abbrev inside : List ℕ → ℕ → Bool → Reading
inside buff n short = record {
  message_buff = buff;
  message_len = some n;
  message = true;
  short_data = short;
}

abbrev content_type : Bool → MessageType
content_type short = if short then data_short else data_frame

-- A byte that does not end the message is collected.
read_more :
    (b : ℕ) (bytes buff : List ℕ) (n : ℕ) (short : Bool)
    → (n == length (buff ++ b ∷ [])) ≡ false
    → read_buffer (b ∷ bytes) (inside buff n short)
      ≡ read_buffer bytes (inside (buff ++ b ∷ []) n short)
unfolding read_buffer
read_more b bytes buff n short more = rw more

-- The bytes that are left are collected, and the last of them ends the message.
read_content :
    (b : ℕ) (bytes buff : List ℕ) (n : ℕ) (short : Bool)
    → n ≡ suc (length buff + length bytes)
    → read_buffer (b ∷ bytes) (inside buff n short) ≡ (
      record { type = content_type short; content = buff ++ b ∷ bytes } ∷ [],
      record (inside (buff ++ b ∷ bytes) n short) { message = false },
    )
unfolding read_buffer
read_content b [] buff n short e = rw complete
  where
    complete : (n == length (buff ++ b ∷ [])) ≡ true
    complete = ground (arith, length-append buff (b ∷ []))
read_content b (b' ∷ bytes) buff n short e =
    read_more b (b' ∷ bytes) buff n short incomplete
    ∙ read_content b' bytes (buff ++ b ∷ []) n short rest
    ∙ ap
        (λ c. (
          record { type = content_type short; content = c } ∷ [],
          record (inside c n short) { message = false },
        ))
        (append_assoc buff (b ∷ []) (b' ∷ bytes))
  where
    incomplete : (n == length (buff ++ b ∷ [])) ≡ false
    incomplete = ground (arith, length-append buff (b ∷ []))

    rest : n ≡ suc (length (buff ++ b ∷ []) + length bytes)
    rest = omega (arith, length-append buff (b ∷ []))

-- Between messages.
abbrev Between : Reading → Type 0
Between s = s.message ≡ false

-- The byte of a type begins a message.
abbrev started : Bool → Reading
started short = record { message_buff = []; message_len = none; message = true; short_data = short }

read_start :
    (short : Bool) (bytes : List ℕ) (s : Reading)
    → Between s
    → read_buffer (frame_type (content_type short) ∷ bytes) s ≡ read_buffer bytes (started short)
unfolding read_buffer frame_type
read_start true bytes s e = rw e
read_start false bytes s e = rw e

read_announced :
    (bytes : List ℕ) (n : ℕ) (short : Bool)
    → (n == 0) ≡ false
    → read_buffer (n ∷ bytes) (started short) ≡ read_buffer bytes (inside [] n short)
unfolding read_buffer
read_announced bytes n short more = rw more

read_length :
    (short : Bool) (content : List ℕ) (n : ℕ)
    → n ≡ length content
    → read_buffer (n ∷ content) (started short) ≡ (
      record { type = content_type short; content = content } ∷ [],
      record (inside content n short) { message = false },
    )
unfolding read_buffer
read_length short [] n e = ground arith
read_length short (b ∷ bytes) n e =
    read_announced (b ∷ bytes) n short (ground arith)
    ∙ read_content b bytes [] n short (omega arith)

-- A message of at most 255 bytes is read back from its frame, and nothing of it is left over.
read_frame :
    (short : Bool) (content : List ℕ) (s : Reading)
    → length content ≤ 255
    → Between s
    → read_buffer (frame (record { type = content_type short; content = content })) s ≡ (
      record { type = content_type short; content = content } ∷ [],
      record (inside content (length content) short) { message = false },
    )
unfolding frame
read_frame short content s h e =
    rw (sent, same_length, read_start short (length content ∷ content) s e)
      (read_length short content (length content) refl)
  where
    sent : ltb (length content) 1000 ≡ true
    sent = ground arith

    same_length : u8 (length content) ≡ length content
    same_length = omega arith

is_short : MessageType → Bool
is_short data_short = true
is_short _ = false

-- A message as its receiver gets it: everything that is not a short message is sent as data.
pub carried : Message → Message
carried m = record { type = content_type (is_short m.type); content = m.content }

frame-carried : (m : Message) → frame m ≡ frame (carried m)
unfolding frame frame_type carried is_short
frame-carried m = ground arith

-- The state after a frame whose bytes were all of the message.
abbrev finished : Message → Reading
finished m = record (inside m.content (length m.content) (is_short m.type)) { message = false }

read_message_frame :
    (m : Message) (s : Reading)
    → length m.content ≤ 255
    → Between s
    → read_buffer (frame m) s ≡ (carried m ∷ [], finished m)
unfolding carried
read_message_frame m s h e =
    ap (λ bs. read_buffer bs s) (frame-carried m) ∙ read_frame (is_short m.type) m.content s h e

read_frames :
    (ms : List Message) (s : Reading)
    → All (λ m. length m.content ≤ 255) ms
    → Between s
    → (s' : Reading) × Between s' × (read_buffer (frames ms) s ≡ (map carried ms, s'))
unfolding frames
read_frames [] s h e = (s, e, unfold read_buffer in refl)
read_frames (m ∷ ms) s h e =
    let rest = read_frames ms (finished m) h.1 refl in
    (
      rest.0,
      rest.1,
      read_buffer-append (frame m) (frames ms) s ∙ rw (read_message_frame m s h.0 e, rest.2),
    )

-- Messages of at most 255 bytes each, written to the socket one after the other and received in
-- buffers that cut the stream anywhere, are received as they were sent, but for the types: what is
-- not a short message arrives as data.
pub receive_data-frames :
    (ms : List Message) (buffers : List (List ℕ))
    → All (λ m. length m.content ≤ 255) ms
    → stream buffers ≡ frames ms
    → (receive_data buffers new_reading).0 ≡ map carried ms
receive_data-frames ms buffers h e = rw (receive_data-stream buffers new_reading, e, received.2)
  where
    received :
        (s' : Reading) × Between s' × (read_buffer (frames ms) new_reading ≡ (map carried ms, s'))
    received = read_frames ms new_reading h (unfold new_reading in refl)

-- A message of 256 to 999 bytes is sent with its length modulo 256: the receiver, between messages,
-- gets a message cut to that length, and reads the rest of its bytes as if they followed it.
pub read_buffer-frame_long :
    (m : Message) (s : Reading)
    → 256 ≤ length m.content
    → length m.content < 1000
    → s.message ≡ false
    → (s' : Reading) × (s'.message ≡ false)
      × (read_buffer (frame m) s ≡ (
        carried (record m { content = take (length m.content % 256) m.content })
            ∷ (read_buffer (drop (length m.content % 256) m.content) s').0,
        (read_buffer (drop (length m.content % 256) m.content) s').1,
      ))
unfolding carried
read_buffer-frame_long m s long sendable e =
    (finished cut, refl, split ∙ rw (read_message_frame cut s cut_fits e))
  where
    n : ℕ
    n = length m.content % 256

    cut : Message
    cut = record m { content = take n m.content }

    cut_length : length (take n m.content) ≡ n
    cut_length = omega (arith, length-take n m.content)

    cut_fits : length (take n m.content) ≤ 255
    cut_fits = omega (arith, cut_length)

    bytes : frame m ≡ frame cut ++ drop n m.content
    bytes =
        unfold frame in
        ground
          (arith, cut_length, take-append-drop n m.content, ap (λ (k : ℕ). k % 2 ^ 8) cut_length)

    split : read_buffer (frame m) s ≡ (
      (read_buffer (frame cut) s).0
          ++ (read_buffer (drop n m.content) (read_buffer (frame cut) s).1).0,
      (read_buffer (drop n m.content) (read_buffer (frame cut) s).1).1,
    )
    split = ap (λ bs. read_buffer bs s) bytes ∙ read_buffer-append (frame cut) (drop n m.content) s
