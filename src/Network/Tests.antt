-- ===== src/Network/Tests.antt =====
-- The byte stream at concrete messages.
use networking_project_chat.Prelude.{
  some, ◌+◌, ℕ, List, [], ◌∷◌, ◌≡◌, refl, false, replicate, drop, map, arith,
}
use networking_project_chat.Network.Messages.{data_frame, data_short, Message}
use networking_project_chat.Network.DataReceiver.{Reading, new_reading, read_buffer, receive_data}
use networking_project_chat.Network.Client.{
  frame, frames, Client, Sockets, resolved, Thread, start_thread,
}
use networking_project_chat.Network.Opening.{IsStarted, start_thread_lem}
use networking_project_chat.Network.Framing.{carried, receive_data-frames, read_buffer-frame_long}

abbrev short_message : Message
short_message = record { type = data_short; content = 7 ∷ 8 ∷ [] }

abbrev data_message : Message
data_message = record { type = data_frame; content = 3 ∷ [] }

-- The frames of both messages, cut inside the first.
abbrev cut_buffers : List (List ℕ)
cut_buffers = (6 ∷ 2 ∷ 7 ∷ []) ∷ (8 ∷ 3 ∷ 1 ∷ 3 ∷ []) ∷ []

abbrev long_message : Message
long_message = record { type = data_frame; content = replicate 258 1 }

receive_data-frames_example :
    (receive_data cut_buffers new_reading).0 ≡ map carried (short_message ∷ data_message ∷ [])
receive_data-frames_example =
    receive_data-frames (short_message ∷ data_message ∷ []) cut_buffers (omega arith)
      (unfold frames frame in refl)

read_buffer-frame_long_example :
    (s' : Reading) × (s'.message ≡ false)
    × (read_buffer (frame long_message) new_reading ≡ (
      carried (record long_message { content = 1 ∷ 1 ∷ [] })
          ∷ (read_buffer (drop 2 long_message.content) s').0,
      (read_buffer (drop 2 long_message.content) s').1,
    ))
read_buffer-frame_long_example =
    read_buffer-frame_long long_message new_reading (omega arith) (omega arith)
      (unfold new_reading in refl)

abbrev client : Client
client = record { server_addr = 108 ∷ []; server_port = 8; frequency = 7800; token = 99 ∷ [] }

-- The server refuses the connection.
abbrev refusing : Sockets ℕ
refusing = record {
  socket = some 3;
  getaddrinfo = λ name port. resolved 7;
  connect = λ sock address. false;
}

start_thread_lem_example :
    (threads : List Thread) × (sockets : List ℕ) × (start_thread refusing
        (λ n. (48 + n) ∷ [])
        client
      ≡ some (threads, sockets))
    × IsStarted refusing (λ n. (48 + n) ∷ []) client threads sockets
start_thread_lem_example = start_thread_lem refusing (λ n. (48 + n) ∷ []) client (λ e. cc)
