-- ===== src/Chatroom.antt =====
-- src/frontend/Chatroom/main.cpp, `real_main`: what the program does with each message of the audio
-- framework. `none` is undefined behaviour, or fuel run out in `gen_random_addr`.
pub mod Arrival
pub mod Echoes
pub mod Sending
pub mod Loop
pub mod Routine
mod Tests
use networking_project_chat.Prelude.{
  ℕ, List, [], ◌∷◌, ◌++◌, ◌+◌, Option, some, false, ◌==◌, ◌>>=◌, if◌then◌else◌,
}
use networking_project_chat.Packet.{echo, data_packet, ack, extract_header}
use networking_project_chat.Network.Messages.{
  MessageType, free, busy, data_frame, sending, done_sending, Message,
}
use networking_project_chat.ChannelState.{
  ChannelState, channel_state, set_is_line_busy, reset_is_line_busy, set_is_current_node_sending,
  reset_is_current_node_sending,
}
use networking_project_chat.Routing.State.{
  Node, vector_routing_protocol, pause_protocol, resume_protocol,
}
use networking_project_chat.Routing.Echo.{register_echo}
use networking_project_chat.Routing.Tick.{tick}
use networking_project_chat.Transport.Receiver.{Effect, send, message_ready}
use networking_project_chat.Transport.Manager.{
  TransportManager, transport_manager, manager_on_packet_received, on_ack_received,
}

pub record App : Type 0 where
  pub node : Node
  pub manager : TransportManager
  pub chan_state : ChannelState

-- What `real_main` sets up before its loop and its threads, with the address file, and what the memory holds where the
-- sender keeps its two numbers.
unfoldable pub real_main : Option ℕ → ℕ → ℕ → App
unfolding vector_routing_protocol transport_manager channel_state
real_main file msg_id fragment_id = record {
  node = vector_routing_protocol file;
  manager = transport_manager msg_id fragment_id;
  chan_state = channel_state;
}

-- The callback that `real_main` sets: for each message that is ready, the window shows it (an
-- effect), and the routing protocol goes on.
unfoldable pub show_messages : List Effect → Node → Node
unfolding resume_protocol
show_messages [] n = n
show_messages (send sent ∷ effects) n = show_messages effects n
show_messages (message_ready addr message broadcast ∷ effects) n =
    show_messages effects (resume_protocol n)

-- The branch of a data frame, by the type in its header.
unfoldable pub handle_data : ℕ → (ℕ → ℕ) → List ℕ → App → Option (List Effect × App)
unfolding pause_protocol show_messages
handle_data fuel rand packet app = do
  h ← extract_header packet
  if h.type == echo
      then if app.node.pause_flag
        then some ([], app)
        else (do n ← register_echo fuel rand packet app.node; some ([], record app { node = n }))
      else if h.type == data_packet
      then (do
        let n : Node = if app.node.pause_flag then app.node else pause_protocol app.node
        (effects, n, m) ← manager_on_packet_received packet n app.manager
        some (effects, record app { node = show_messages effects n; manager = m }))
      else if h.type == ack
      then (do
        (effects, n, m) ← on_ack_received packet app.node app.manager
        some (effects, record app { node = n; manager = m }))
      else some ([], app)

unfoldable pub handle_channel : MessageType → ChannelState → ChannelState
unfolding set_is_line_busy reset_is_line_busy set_is_current_node_sending
    reset_is_current_node_sending
handle_channel free c = reset_is_line_busy c
handle_channel busy c = set_is_line_busy c
handle_channel sending c = set_is_current_node_sending (set_is_line_busy c)
handle_channel done_sending c = reset_is_current_node_sending (reset_is_line_busy c)
handle_channel _ c = c

-- One round of the loop of `real_main`.
unfoldable pub handle_message : ℕ → (ℕ → ℕ) → Message → App → Option (List Effect × App)
unfolding handle_data handle_channel
handle_message fuel rand m app = elim m.type [
  | data_frame ↦ handle_data fuel rand m.content app
  | _ ↦ some ([], record app { chan_state = handle_channel m.type app.chan_state })
]

-- What happens to the program at a node that has chosen its address: its loop pops a message, or a
-- second passes and the thread that runs `tick` takes a round.
pub data Event : Type 0 where
  receives : Message → Event
  ticks : Event

unfoldable pub handle_event : ℕ → (ℕ → ℕ) → Event → App → Option (List Effect × App)
unfolding handle_message
handle_event fuel rand (receives m) app = handle_message fuel rand m app
handle_event fuel rand ticks app = do
  (first_run, n) ← tick fuel rand false app.node
  some ([], record app { node = n })

-- The loop and the clock, from event `k` on, with the random numbers of each event.
unfoldable pub handle_events : ℕ → (ℕ → ℕ → ℕ) → ℕ → List Event → App → Option (List Effect × App)
unfolding handle_event
handle_events fuel rands k [] app = some ([], app)
handle_events fuel rands k (e ∷ es) app = do
  (effects, app) ← handle_event fuel (rands k) e app
  (others, app) ← handle_events fuel rands (k + 1) es app
  some (effects ++ others, app)
