-- ===== src/Network/Stream.antt =====
-- The byte stream that `DataReceiver` reads, and the buffers that it comes in.
use networking_project_chat.Prelude.{ℕ, List, [], ◌∷◌, ◌++◌, ◌≡◌, refl, ap, sym}
use mathlib.Core.List.{append_assoc}
use networking_project_chat.Network.DataReceiver.{Reading, read_byte, read_buffer, receive_data}

pub read_buffer-append :
    (xs ys : List ℕ) (s : Reading)
    → read_buffer (xs ++ ys) s ≡ (
      (read_buffer xs s).0 ++ (read_buffer ys (read_buffer xs s).1).0,
      (read_buffer ys (read_buffer xs s).1).1,
    )
unfolding read_buffer
read_buffer-append [] ys s = refl
read_buffer-append (x ∷ xs) ys s = rw (read_buffer-append xs ys (read_byte x s).1) (
    ap (λ ms. (ms, (read_buffer ys (read_buffer xs (read_byte x s).1).1).1))
      (sym (
        append_assoc (read_byte x s).0 (read_buffer xs (read_byte x s).1).0
          (read_buffer ys (read_buffer xs (read_byte x s).1).1).0)))

-- The bytes of the buffers, one after the other.
abbrev pub stream : List (List ℕ) → List ℕ
stream [] = []
stream (buffer ∷ buffers) = buffer ++ stream buffers

-- How the stream is cut into buffers does not matter: the messages, and the state after them, are
-- those of the whole stream.
pub receive_data-stream :
    (buffers : List (List ℕ)) (s : Reading)
    → receive_data buffers s ≡ read_buffer (stream buffers) s
unfolding receive_data
receive_data-stream [] s = refl
receive_data-stream (buffer ∷ buffers) s = rw (
  read_buffer-append buffer (stream buffers) s,
  receive_data-stream buffers (read_buffer buffer s).1,
)
