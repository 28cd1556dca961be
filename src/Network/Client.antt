-- ===== src/Network/Client.antt =====
-- src/backend/network/Client.cpp: the socket of the client, and what it writes there.
use networking_project_chat.Prelude.{
  ℕ, ◌/◌, ◌^◌, List, [], ◌∷◌, ◌++◌, ltb, u8, length, if◌then◌else◌, Option, none, some, Bool, ◌>>=◌,
}
use networking_project_chat.Network.Messages.{MessageType, data_short, Message}

-- The hello and the token, sent first. The frequency is not negative.
unfoldable pub greeting : ℕ → List ℕ → List ℕ
greeting frequency token =
    (9 ∷ u8 (frequency / 2 ^ 16) ∷ u8 (frequency / 2 ^ 8) ∷ u8 frequency ∷ [])
    ++ 10 ∷ u8 (length token) ∷ token

unfoldable pub frame_type : MessageType → ℕ
frame_type data_short = 6
frame_type _ = 3

-- One round of the sender loop: the bytes of a message, whose length is written to one byte. A
-- message of 1000 bytes or more is not sent.
unfoldable pub frame : Message → List ℕ
unfolding frame_type
frame m =
    if ltb (length m.content) 1000
    then frame_type m.type ∷ u8 (length m.content) ∷ m.content
    else []

unfoldable pub frames : List Message → List ℕ
unfolding frame
frames [] = []
frames (m ∷ ms) = frame m ++ frames ms

-- The fields of `Client`; its two queues are those of the program.
pub record Client : Type 0 where
  pub server_addr : List ℕ
  pub server_port : ℕ
  pub frequency : ℕ
  pub token : List ℕ

-- What `getaddrinfo` gives: a negative number, or another and perhaps no result.
pub data Lookup {ℓ} (Address : Type ℓ) : Type ℓ where
  failed without_result : Lookup Address
  resolved : Address → Lookup Address

-- The calls of the operating system that `openSocket` makes, on Linux: `socket` is `none` and `connect`
-- false where the result is negative.
pub record Sockets {ℓ} (Address : Type ℓ) : Type ℓ where
  pub socket : Option ℕ
  pub getaddrinfo : List ℕ → List ℕ → Lookup Address
  pub connect : ℕ → Address → Bool

-- What `openSocket` returns, `none` for -1, and the sockets that are open then.
pub record Opened : Type 0 where
  pub sock : Option ℕ
  pub sockets : List ℕ

-- The threads that run, each on a socket: `listener`, and the receiver that it starts.
pub data Thread : Type 0 where
  client_thread receiver : ℕ → Thread

module _ {ℓ} {Address : Type ℓ} (os : Sockets Address) (to_string : ℕ → List ℕ) where
  unfoldable pub open_socket : Client → Option Opened
  open_socket c = elim os.socket [
    | none ↦ some (record { sock = none; sockets = [] })
    | some sock ↦ elim (os.getaddrinfo c.server_addr (to_string c.server_port)) [
      | failed ↦ some (record { sock = none; sockets = sock ∷ [] })
      | without_result ↦ none
      | resolved address ↦ some (record {
        sock = if os.connect sock address then some sock else none;
        sockets = sock ∷ [];
      })
    ]
  ]

  -- The thread that is started, if one is, and the sockets that are open.
  unfoldable pub start_thread : Client → Option (List Thread × List ℕ)
  unfolding open_socket
  start_thread c = do
    opened ← open_socket c
    some (elim opened.sock [ none ↦ [] | some sock ↦ client_thread sock ∷ [] ], opened.sockets)

-- `listener` on a socket, with the messages that its loop takes from the queue: the receiver that it
-- starts, and the bytes that it writes.
unfoldable pub listener : Client → ℕ → List Message → List Thread × List ℕ
unfolding greeting frames
listener c sock messages = (receiver sock ∷ [], greeting c.frequency c.token ++ frames messages)
