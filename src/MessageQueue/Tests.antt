-- ===== src/MessageQueue/Tests.antt =====
-- The message queue at a concrete history.
use networking_project_chat.Prelude.{List, [], ◌∷◌, ◌≡◌, true}
use networking_project_chat.MessageQueue.{new_message_queue, has_unseen_messages}
use networking_project_chat.MessageQueue.Seen.{
  messages_of, any_unseen, Op, arrives, reads, run, has_unseen_messages-any_unseen,
}

-- Node 2 writes, the window of node 2 is opened, and node 2 writes again.
abbrev history : List Op
history = arrives 2 (72 ∷ []) true ∷ reads 2 ∷ arrives 2 (105 ∷ []) true ∷ []

has_unseen_messages-any_unseen_example :
    has_unseen_messages 2 (run new_message_queue history)
    ≡ any_unseen (messages_of 2 (run new_message_queue history))
has_unseen_messages-any_unseen_example = has_unseen_messages-any_unseen history 2
