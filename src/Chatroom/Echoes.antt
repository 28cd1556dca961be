-- ===== src/Chatroom/Echoes.antt =====
-- The loop of src/frontend/Chatroom/main.cpp and the nodes of Routing.System: an echo is handled alike.
use networking_project_chat.Prelude.{
  ℕ, List, [], Option, some, Bool, true, false, ◌==◌, ◌≡◌, refl, sym, ◌>>=◌, if◌then◌else◌, arith,
}
use networking_project_chat.Packet.{Header, echo, extract_header}
use networking_project_chat.Network.Messages.{data_frame}
use networking_project_chat.Routing.Echo.{register_echo}
use networking_project_chat.Routing.System.{hear}
use networking_project_chat.Chatroom.{App, handle_data, handle_message}

bind-if {ℓ κ} :
    {A : Type ℓ} {B : Type κ} (b : Bool) (m k : Option A) (f : A → Option B)
    → ((if b then m else k) >>= f) ≡ (if b then m >>= f else k >>= f)
bind-if true m k f = refl
bind-if false m k f = refl

-- A data frame with an echo does to the node of the program what it does to a node of the system, has no
-- other effect, and changes nothing else.
pub handle_message-hear :
    (fuel : ℕ) (rand : ℕ → ℕ) (packet : List ℕ) (app : App) (h : Header)
    → extract_header packet ≡ some h
    → h.type ≡ echo
    → handle_message fuel rand (record { type = data_frame; content = packet }) app
      ≡ (hear fuel rand packet app.node >>= λ n. some ([], record app { node = n }))
unfolding handle_message handle_data
handle_message-hear fuel rand packet app h read is_echo =
    let e : (h.type == 0) ≡ true = ground (arith, is_echo) in
    rw (read, e)
      (sym
        (bind-if app.node.pause_flag (some app.node) (register_echo fuel rand packet app.node) _))
