-- ===== src/Chatroom/Loop.antt =====
-- The channel in a round of the loop of `real_main` (src/frontend/Chatroom/main.cpp).
use networking_project_chat.Prelude.{
  ℕ, ◌≡◌, refl, ap, List, [], ◌∷◌, Option, none, some, Bool, true, false, arith,
}
use networking_project_chat.Prelude.Assoc.{at_or}
use networking_project_chat.Network.Messages.{
  MessageType, free, busy, data_frame, sending, done_sending, data_short, end, hello,
  token_accepted, token_rejected, Message,
}
use networking_project_chat.ChannelState.{
  ChannelState, set_is_line_busy, reset_is_line_busy, set_is_current_node_sending,
  reset_is_current_node_sending,
}
use networking_project_chat.Transport.Receiver.{Effect}
use networking_project_chat.Chatroom.{App, handle_channel, handle_data, handle_message}

-- What a message says of the line, if it is about the channel.
abbrev pub line_of : MessageType → Option Bool
line_of free = some false
line_of busy = some true
line_of sending = some true
line_of done_sending = some false
line_of _ = none

-- What the last message about the channel says of the line.
abbrev pub last_line : List Message → Option Bool
last_line [] = none
last_line (m ∷ ms) = elim (last_line ms) [ none ↦ line_of m.type | some b ↦ some b ]

abbrev pub is_data : MessageType → Bool
is_data data_frame = true
is_data _ = false

handle_channel_line :
    (t : MessageType) (c : ChannelState)
    → (handle_channel t c).is_line_busy ≡ at_or c.is_line_busy (line_of t)
unfolding handle_channel set_is_line_busy reset_is_line_busy set_is_current_node_sending
    reset_is_current_node_sending
handle_channel_line free c = refl
handle_channel_line busy c = refl
handle_channel_line sending c = refl
handle_channel_line done_sending c = refl
handle_channel_line data_frame c = refl
handle_channel_line data_short c = refl
handle_channel_line end c = refl
handle_channel_line hello c = refl
handle_channel_line token_accepted c = refl
handle_channel_line token_rejected c = refl

handle_data_line :
    (fuel : ℕ) (rand : ℕ → ℕ) (packet : List ℕ) (app app' : App) (es : List Effect)
    → handle_data fuel rand packet app ≡ some (es, app')
    → app'.chan_state ≡ app.chan_state
unfolding handle_data
handle_data_line fuel rand packet app app' es e = ground arith

pub handle_typed_line :
    (fuel : ℕ) (rand : ℕ → ℕ) (t : MessageType) (content : List ℕ) (app app' : App)
    (es : List Effect)
    → handle_message fuel rand (record { type = t; content = content }) app ≡ some (es, app')
    → app'.chan_state.is_line_busy ≡ at_or app.chan_state.is_line_busy (line_of t)
unfolding handle_message
handle_typed_line fuel rand data_frame content app app' es e =
    ap (λ c. c.is_line_busy) (handle_data_line fuel rand content app app' es e)
handle_typed_line fuel rand free content app app' es e =
    ground (arith, e, handle_channel_line free app.chan_state)
handle_typed_line fuel rand busy content app app' es e =
    ground (arith, e, handle_channel_line busy app.chan_state)
handle_typed_line fuel rand sending content app app' es e =
    ground (arith, e, handle_channel_line sending app.chan_state)
handle_typed_line fuel rand done_sending content app app' es e =
    ground (arith, e, handle_channel_line done_sending app.chan_state)
handle_typed_line fuel rand data_short content app app' es e =
    ground (arith, e, handle_channel_line data_short app.chan_state)
handle_typed_line fuel rand end content app app' es e =
    ground (arith, e, handle_channel_line end app.chan_state)
handle_typed_line fuel rand hello content app app' es e =
    ground (arith, e, handle_channel_line hello app.chan_state)
handle_typed_line fuel rand token_accepted content app app' es e =
    ground (arith, e, handle_channel_line token_accepted app.chan_state)
handle_typed_line fuel rand token_rejected content app app' es e =
    ground (arith, e, handle_channel_line token_rejected app.chan_state)

pub last_line-cons :
    (m : Message) (ms : List Message) (b : Bool)
    → at_or (at_or b (line_of m.type)) (last_line ms) ≡ at_or b (last_line (m ∷ ms))
last_line-cons m ms b = ground arith

pub handle_typed_quiet :
    (fuel : ℕ) (rand : ℕ → ℕ) (t : MessageType) (content : List ℕ) (app : App)
    → is_data t ≡ false
    → handle_message fuel rand (record { type = t; content = content }) app
      ≡ some ([], record app { chan_state = handle_channel t app.chan_state })
unfolding handle_message
handle_typed_quiet fuel rand data_frame content app quiet = absurd (ground (arith, quiet))
handle_typed_quiet fuel rand free content app quiet = refl
handle_typed_quiet fuel rand busy content app quiet = refl
handle_typed_quiet fuel rand sending content app quiet = refl
handle_typed_quiet fuel rand done_sending content app quiet = refl
handle_typed_quiet fuel rand data_short content app quiet = refl
handle_typed_quiet fuel rand end content app quiet = refl
handle_typed_quiet fuel rand hello content app quiet = refl
handle_typed_quiet fuel rand token_accepted content app quiet = refl
handle_typed_quiet fuel rand token_rejected content app quiet = refl
