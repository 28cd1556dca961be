-- ===== src/ChannelState.antt =====
-- src/backend/channel_state/ChannelState.cpp: what the node knows of the channel. One call runs at a
-- time, under the object's mutex.
use networking_project_chat.Prelude.{Bool, true, false}

pub record ChannelState : Type 0 where
  pub is_line_busy : Bool
  pub is_current_node_sending : Bool

unfoldable pub channel_state : ChannelState
channel_state = record { is_line_busy = false; is_current_node_sending = false }

unfoldable pub set_is_line_busy : ChannelState → ChannelState
set_is_line_busy c = record c { is_line_busy = true }

unfoldable pub reset_is_line_busy : ChannelState → ChannelState
reset_is_line_busy c = record c { is_line_busy = false }

unfoldable pub set_is_current_node_sending : ChannelState → ChannelState
set_is_current_node_sending c = record c { is_current_node_sending = true }

unfoldable pub reset_is_current_node_sending : ChannelState → ChannelState
reset_is_current_node_sending c = record c { is_current_node_sending = false }
