-- ===== src/Network/DataReceiver.antt =====
-- src/backend/network/DataReceiver.cpp: bytes to messages. Each call of `recv` gives a list of bytes;
-- the messages pushed to `receiverQueue` are the output.
use networking_project_chat.Prelude.{
  ℕ, List, [], ◌∷◌, ◌++◌, Option, none, some, Bool, true, false, ◌==◌, length, if◌then◌else◌,
}
use networking_project_chat.Network.Messages.{
  free, busy, data_frame, sending, done_sending, data_short, end, hello, token_accepted,
  token_rejected, Message, of_type,
}

-- The variables of `receiveData`; `none` is the length -1.
pub record Reading : Type 0 where
  pub message_buff : List ℕ
  pub message_len : Option ℕ
  pub message : Bool
  pub short_data : Bool

unfoldable pub new_reading : Reading
new_reading = record { message_buff = []; message_len = none; message = false; short_data = false }

abbrev begin_message : Bool → Reading
begin_message short = record {
  message_buff = [];
  message_len = none;
  message = true;
  short_data = short;
}

-- A byte outside a message.
unfoldable pub read_type : ℕ → Reading → List Message × Reading
read_type b s =
    if b == 0x01
    then (of_type free ∷ [], s)
    else if b == 0x04
    then (of_type sending ∷ [], s)
    else if b == 0x05
    then (of_type done_sending ∷ [], s)
    else if b == 0x02
    then (of_type busy ∷ [], s)
    else if b == 0x08
    then (of_type end ∷ [], s)
    else if b == 0x09
    then (of_type hello ∷ [], s)
    else if b == 0x0A
    then (of_type token_accepted ∷ [], s)
    else if b == 0x0B
    then (of_type token_rejected ∷ [], s)
    else if b == 0x03
    then ([], begin_message false)
    else if b == 0x06
    then ([], begin_message true)
    else ([], s)

-- `message_len == message_buff.size()`; -1 is no size.
abbrev has_length : Option ℕ → List ℕ → Bool
has_length none bytes = false
has_length (some n) bytes = n == length bytes

-- A byte of a message: its length, or the next of its bytes.
unfoldable pub read_message : ℕ → Reading → List Message × Reading
read_message b s =
    let s' : Reading = elim s.message_len [
      | none ↦ record s { message_len = some b }
      | some n ↦ record s { message_buff = s.message_buff ++ b ∷ [] }
    ] in
    if has_length s'.message_len s'.message_buff
    then (
      record { type = if s'.short_data then data_short else data_frame; content = s'.message_buff }
          ∷ [],
      record s' { message = false },
    )
    else ([], s')

unfoldable pub read_byte : ℕ → Reading → List Message × Reading
unfolding read_type read_message
read_byte b s = if s.message then read_message b s else read_type b s

-- The loop over one buffer.
unfoldable pub read_buffer : List ℕ → Reading → List Message × Reading
unfolding read_byte
read_buffer [] s = ([], s)
read_buffer (b ∷ bytes) s =
    let (out, s') = read_byte b s in let (rest, s'') = read_buffer bytes s' in (out ++ rest, s'')

-- The loop over the calls of `recv`, until one fails.
unfoldable pub receive_data : List (List ℕ) → Reading → List Message × Reading
unfolding read_buffer
receive_data [] s = ([], s)
receive_data (buffer ∷ buffers) s =
    let (out, s') = read_buffer buffer s in
    let (rest, s'') = receive_data buffers s' in (out ++ rest, s'')
