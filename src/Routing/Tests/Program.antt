-- ===== src/Routing/Tests/Program.antt =====
-- The program at node 1: node 2 sends, a second passes, and node 1 hears the echo.
use networking_project_chat.Prelude.{List, [], ◌∷◌}
use networking_project_chat.ChannelState.{channel_state}
use networking_project_chat.Network.Messages.{busy, free, data_frame, of_type}
use networking_project_chat.Routing.Tests.{echo_two, node_one}
use networking_project_chat.Transport.Manager.{transport_manager}
use networking_project_chat.Chatroom.{App, Event, receives, ticks}

abbrev heard : List Event
heard =
    receives (of_type busy)
    ∷ ticks
    ∷ receives (record { type = data_frame; content = echo_two })
    ∷ receives (of_type free)
    ∷ []

abbrev app_one : App
app_one = record { node = node_one; manager = transport_manager 7 9; chan_state = channel_state }
