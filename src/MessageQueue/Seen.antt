-- ===== src/MessageQueue/Seen.antt =====
-- `has_unseen_messages` looks at the last message only; over every history it tells whether any
-- message is unseen.
use networking_project_chat.Prelude.{
  ℕ, List, [], ◌∷◌, ◌++◌, Bool, true, false, ◌≡◌, refl, ap, ◌∙◌, inl, inr, map, ◌==◌, if◌then◌else◌,
  arith, Option-cases,
}
use networking_project_chat.Prelude.Assoc.{find, insert_or_assign, at_or, find-insert_or_assign}
use networking_project_chat.MessageQueue.{
  Message, MessageQueue, new_message_queue, push_message_from, mark_seen, get_messages_from,
  last_unseen, has_unseen_messages, create_message,
}

-- The messages of a sender.
abbrev pub messages_of : ℕ → MessageQueue → List Message
messages_of sender q = at_or [] (find sender q.message_queue)

pub any_unseen : List Message → Bool
any_unseen [] = false
any_unseen (m ∷ ms) = if m.seen_message then any_unseen ms else true

-- What the program does with a queue: a message arrives, unseen, or a chat window reads a sender's.
pub data Op : Type 0 where
  arrives : (sender : ℕ) (message : List ℕ) (private_message : Bool) → Op
  reads : (sender : ℕ) → Op

pub step : MessageQueue → Op → MessageQueue
step q (arrives sender message private_message) =
    push_message_from (create_message sender message private_message false) sender q
step q (reads sender) = (get_messages_from sender q).1

pub run : MessageQueue → List Op → MessageQueue
run q [] = q
run q (o ∷ os) = run (step q o) os

-- The unseen messages of a list are its end: none is followed by one that is seen.
abbrev IsSeenFirst : List Message → Type 0
IsSeenFirst ms = last_unseen ms ≡ any_unseen ms

last_unseen-append :
    (ms : List Message) (m : Message) → m.seen_message ≡ false → last_unseen (ms ++ m ∷ []) ≡ true
unfolding last_unseen
last_unseen-append [] m e = rw e
last_unseen-append (m' ∷ []) m e = rw e
last_unseen-append (m' ∷ m'' ∷ ms) m e = last_unseen-append (m'' ∷ ms) m e

any_unseen-append :
    (ms : List Message) (m : Message) → m.seen_message ≡ false → any_unseen (ms ++ m ∷ []) ≡ true
unfolding any_unseen
any_unseen-append [] m e = rw e
any_unseen-append (m' ∷ ms) m e = ground (arith, any_unseen-append ms m e)

last_unseen-mark_seen : (ms : List Message) → last_unseen (map mark_seen ms) ≡ false
unfolding last_unseen mark_seen
last_unseen-mark_seen [] = refl
last_unseen-mark_seen (m ∷ []) = ground arith
last_unseen-mark_seen (m ∷ m' ∷ ms) = last_unseen-mark_seen (m' ∷ ms)

any_unseen-mark_seen : (ms : List Message) → any_unseen (map mark_seen ms) ≡ false
unfolding any_unseen mark_seen
any_unseen-mark_seen [] = refl
any_unseen-mark_seen (m ∷ ms) = ground (arith, any_unseen-mark_seen ms)

-- A message goes to the end of its sender's list, and no other list changes.
pub messages_of-push_message_from :
    (m : Message) (sender k : ℕ) (q : MessageQueue)
    → messages_of k (push_message_from m sender q)
      ≡ (if sender == k then messages_of k q ++ m ∷ [] else messages_of k q)
unfolding push_message_from
messages_of-push_message_from m sender k q = elim (Option-cases (find sender q.message_queue)) [
  | inl none_yet ↦ ground (arith, find-insert_or_assign sender k (m ∷ []) q.message_queue, same_key)
  | inr (ms, some_yet) ↦
      ground (arith, find-insert_or_assign sender k (ms ++ m ∷ []) q.message_queue, same_key)
]
  where
    same_key : (sender == k) ≡ true → find sender q.message_queue ≡ find k q.message_queue
    same_key e = ap (λ j. find j q.message_queue) (ground arith)

-- Reading marks one sender's messages as seen, and no other list changes.
pub messages_of-get_messages_from :
    (sender k : ℕ) (q : MessageQueue)
    → messages_of k (get_messages_from sender q).1
      ≡ (if sender == k then map mark_seen (messages_of k q) else messages_of k q)
unfolding get_messages_from
messages_of-get_messages_from sender k q = elim (Option-cases (find sender q.message_queue)) [
  | inl none_yet ↦ ground (arith, same_key)
  | inr (ms, some_yet) ↦
      ground (arith, find-insert_or_assign sender k (map mark_seen ms) q.message_queue, same_key)
]
  where
    same_key : (sender == k) ≡ true → find sender q.message_queue ≡ find k q.message_queue
    same_key e = ap (λ j. find j q.message_queue) (ground arith)

has_unseen_messages-last_unseen :
    (k : ℕ) (q : MessageQueue) → has_unseen_messages k q ≡ last_unseen (messages_of k q)
unfolding has_unseen_messages
has_unseen_messages-last_unseen k q = ground arith

abbrev AllSeenFirst : MessageQueue → Type 0
AllSeenFirst q = (k : ℕ) → IsSeenFirst (messages_of k q)

step-AllSeenFirst : (q : MessageQueue) (o : Op) → AllSeenFirst q → AllSeenFirst (step q o)
unfolding step create_message
step-AllSeenFirst q (arrives sender message private_message) v k = ground (
  arith,
  v k,
  messages_of-push_message_from (create_message sender message private_message false) sender k q,
  last_unseen-append (messages_of k q) (create_message sender message private_message false) refl,
  any_unseen-append (messages_of k q) (create_message sender message private_message false) refl,
)
step-AllSeenFirst q (reads sender) v k = ground (
  arith,
  v k,
  messages_of-get_messages_from sender k q,
  last_unseen-mark_seen (messages_of k q),
  any_unseen-mark_seen (messages_of k q),
)

run-AllSeenFirst : (os : List Op) (q : MessageQueue) → AllSeenFirst q → AllSeenFirst (run q os)
unfolding run
run-AllSeenFirst [] q v = v
run-AllSeenFirst (o ∷ os) q v = run-AllSeenFirst os (step q o) (step-AllSeenFirst q o v)

initial : AllSeenFirst new_message_queue
unfolding new_message_queue last_unseen any_unseen find insert_or_assign
initial k = ground arith

-- After every history of messages that arrive unseen and of senders whose messages are read,
-- `has_unseen_messages`, which looks at the last message of a sender alone, tells whether any
-- message of that sender is unseen.
pub has_unseen_messages-any_unseen :
    (os : List Op) (k : ℕ)
    → has_unseen_messages k (run new_message_queue os)
      ≡ any_unseen (messages_of k (run new_message_queue os))
has_unseen_messages-any_unseen os k =
    has_unseen_messages-last_unseen k (run new_message_queue os)
    ∙ run-AllSeenFirst os new_message_queue initial k
