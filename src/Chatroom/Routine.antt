-- ===== src/Chatroom/Routine.antt =====
-- The program over rounds of its clock, echoes and messages about the channel
-- (src/frontend/Chatroom/main.cpp).
use networking_project_chat.Prelude.{ℕ, ◌≡◌, List, [], ◌∷◌, Option, some}
use networking_project_chat.Prelude.Assoc.{at_or}
use networking_project_chat.Transport.Receiver.{Effect}
use networking_project_chat.Packet.{echo}
use networking_project_chat.Network.Messages.{MessageType, data_frame, Message}
use networking_project_chat.Routing.Sound.{IsRunning}
use networking_project_chat.Routing.Run.{IsEchoOfAnother}
use networking_project_chat.Chatroom.{App, Event, receives, ticks}
use networking_project_chat.Chatroom.Loop.{last_line}

-- A data frame is an echo of another node.
abbrev pub IsRoutine : ℕ → MessageType → List ℕ → Type 0
IsRoutine me data_frame content = (e : IsEchoOfAnother me content) × (e.header.type ≡ echo)
IsRoutine me _ content = Unit

-- A message, handled: nothing is sent, and the node goes on with its address.
record Handled (me : ℕ) (app : App) (out : Option (List Effect × App)) : Type 0 where
  after : App
  returns : out ≡ some ([], after)
  running : IsRunning me after.node
  kept : after.manager ≡ app.manager

-- A message that is an echo of another node, or no data frame.
abbrev pub IsRoutineEvent : ℕ → Event → Type 0
IsRoutineEvent me (receives m) = IsRoutine me m.type m.content
IsRoutineEvent me ticks = Unit

-- The messages among the events.
abbrev pub received : List Event → List Message
received [] = []
received (receives m ∷ es) = m ∷ received es
received (ticks ∷ es) = received es

-- Events, handled, of which the messages are `ms`.
record Passed (me : ℕ) (ms : List Message) (app : App) (out : Option (List Effect × App))
    : Type 0 where
  handled : Handled me app out
  line : handled.after.chan_state.is_line_busy ≡ at_or app.chan_state.is_line_busy (last_line ms)
