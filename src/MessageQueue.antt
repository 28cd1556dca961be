-- ===== src/MessageQueue.antt =====
-- src/backend/MessageQueue/MessageQueue.cpp: the messages of the user interface, by sender; 0 is the
-- broadcasts. A text is the list of its bytes. One call runs at a time, under the object's mutex.
pub mod Seen
mod Tests
use networking_project_chat.Prelude.{
  ℕ, List, [], ◌∷◌, ◌++◌, Option, none, some, Bool, true, false, not, map, if◌then◌else◌,
}
use networking_project_chat.Prelude.Assoc.{find, insert_or_assign}

pub record Message : Type 0 where
  pub message : List ℕ
  pub sender_address : ℕ
  pub private_message : Bool
  pub seen_message : Bool

pub record MessageQueue : Type 0 where
  pub message_queue : List (ℕ × List Message)

unfoldable pub new_message_queue : MessageQueue
new_message_queue = record { message_queue = insert_or_assign 0 [] [] }

-- The two overloads of `push_message`.
unfoldable pub push_message : Message → MessageQueue → MessageQueue
push_message m q = elim (find 0 q.message_queue) [
  | some ms ↦ record { message_queue = insert_or_assign 0 (ms ++ m ∷ []) q.message_queue }
  | none ↦ record { message_queue = insert_or_assign 0 (m ∷ []) q.message_queue }
]

unfoldable pub push_message_from : Message → ℕ → MessageQueue → MessageQueue
push_message_from m sender_address q = elim (find sender_address q.message_queue) [
  | some ms ↦ record {
    message_queue = insert_or_assign sender_address (ms ++ m ∷ []) q.message_queue;
  }
  | none ↦ record { message_queue = insert_or_assign sender_address (m ∷ []) q.message_queue }
]

-- The two overloads of `get_messages`; the second marks what it returns as seen.
unfoldable pub get_messages : MessageQueue → List Message
get_messages q = elim (find 0 q.message_queue) [ none ↦ [] | some ms ↦ ms ]

unfoldable pub mark_seen : Message → Message
mark_seen m = if not m.seen_message then record m { seen_message = true } else m

unfoldable pub get_messages_from : ℕ → MessageQueue → List Message × MessageQueue
unfolding mark_seen
get_messages_from sender q = elim (find sender q.message_queue) [
  | none ↦ ([], q)
  | some ms ↦ (
    map mark_seen ms,
    record { message_queue = insert_or_assign sender (map mark_seen ms) q.message_queue },
  )
]

-- Whether `back()` of a list that is not empty is unseen.
unfoldable pub last_unseen : List Message → Bool
last_unseen [] = false
last_unseen (m ∷ []) = not m.seen_message
last_unseen (m ∷ m' ∷ ms) = last_unseen (m' ∷ ms)

unfoldable pub has_unseen_messages : ℕ → MessageQueue → Bool
unfolding last_unseen
has_unseen_messages sender q = elim (find sender q.message_queue) [
  | none ↦ false
  | some ms ↦ last_unseen ms
]

unfoldable pub create_message : ℕ → List ℕ → Bool → Bool → Message
create_message sender message private_message seen_message = record {
  message = message;
  sender_address = sender;
  private_message = private_message;
  seen_message = seen_message;
}
