-- ===== src/Transport/Manager/Numbers.antt =====
-- The numbers of messages, and where delivered messages are queued.
use mathlib.Core.List.{append_assoc, append-nil}
use networking_project_chat.Prelude.{
  ℕ, ◌+◌, ◌%◌, ◌^◌, ◌<◌, List, [], ◌∷◌, ◌++◌, Option, some, true, false, ◌==◌, length, map, ◌≡◌,
  refl, ◌∙◌, arith, if◌then◌else◌, Bool-cases, inl, inr,
}
use networking_project_chat.Routing.Route.{Table}
use networking_project_chat.Routing.State.{Node}
use networking_project_chat.MessageQueue.{Message, create_message, push_message_from}
use networking_project_chat.MessageQueue.Seen.{messages_of, messages_of-push_message_from}
use networking_project_chat.Transport.Receiver.{Effect, send, message_ready}
use networking_project_chat.Transport.Manager.{TransportManager, Job, send_message, run_callbacks}

-- A message, its destination and its type.
pub record Outgoing : Type 0 where
  pub message : List ℕ
  pub dest : ℕ
  pub type : ℕ

unfoldable pub send_messages :
    List Outgoing → Table → TransportManager → List (Option Job) × TransportManager
send_messages [] table m = ([], m)
send_messages (o ∷ os) table m =
    let (job, m') = send_message o.message o.dest o.type table m in
    let (jobs, m'') = send_messages os table m' in (job ∷ jobs, m'')

next_msg_id-send_message :
    (o : Outgoing) (table : Table) (m : TransportManager)
    → (send_message o.message o.dest o.type table m).1.next_msg_id ≡ (m.next_msg_id + 1) % 2 ^ 8
unfolding send_message
next_msg_id-send_message o table m = ground arith

-- From a number below 256 on, the next message's number counts the messages asked for, sent or not,
-- modulo 256.
pub next_msg_id-send_messages :
    (os : List Outgoing) (table : Table) (m : TransportManager)
    → m.next_msg_id < 256
    → (send_messages os table m).1.next_msg_id ≡ (m.next_msg_id + length os) % 256
unfolding send_messages
next_msg_id-send_messages [] table m h = omega arith
next_msg_id-send_messages (o ∷ os) table m h =
    let first = next_msg_id-send_message o table m in
    next_msg_id-send_messages os table (send_message o.message o.dest o.type table m).1
      (omega (arith, first))
    ∙ omega (arith, first)

-- The messages that the receiver has put together, in turn.
unfoldable pub delivered : List Effect → List (List ℕ)
delivered [] = []
delivered (send packet ∷ effects) = delivered effects
delivered (message_ready addr message broadcast ∷ effects) = message ∷ delivered effects

-- A delivered message as it is queued at the node `me`.
abbrev pub queued : ℕ → List ℕ → Message
queued me message = create_message me message true false

-- One message queued, and then the others.
queued_next :
    (k me : ℕ) (before : List Message) (message : List ℕ) (messages : List (List ℕ))
    (after : List Message)
    → after ≡ (if me == k then before ++ queued me message ∷ [] else before)
    → (if me == k then after ++ map (queued me) messages else after)
      ≡ (if me == k then before ++ map (queued me) (message ∷ messages) else before)
queued_next k me before message messages after e = elim (Bool-cases (me == k)) [
  | inl same ↦
      rw (same, e)
        (rw same (append_assoc before (queued me message ∷ []) (map (queued me) messages)))
  | inr other ↦ rw (other, e) (rw other)
]

-- At a node with an address, whatever the receiver hands on, each message that it has put together
-- is queued, in turn, at the end of the messages under the node's own address and with that as its
-- sender: the address that the message came from is not used. The messages under other addresses do
-- not change.
pub messages_of-run_callbacks :
    (effects : List Effect) (n : Node) (m : TransportManager) (me k : ℕ)
    → n.addressing.addr_file ≡ some me
    → messages_of k (run_callbacks effects n m).2.msg_queue ≡ (
        if me == k
        then messages_of k m.msg_queue ++ map (queued me) (delivered effects)
        else messages_of k m.msg_queue)
unfolding run_callbacks delivered
messages_of-run_callbacks [] n m me k file = ground (arith, append-nil (messages_of k m.msg_queue))
messages_of-run_callbacks (send packet ∷ effects) n m me k file =
    messages_of-run_callbacks effects n m me k file
messages_of-run_callbacks (message_ready addr message broadcast ∷ effects) n m me k file =
    let m' : TransportManager = record m {
      msg_queue = push_message_from (queued me message) me m.msg_queue;
    } in
    let n' : Node = record n { addressing = record n.addressing { addr_file = some me } } in
    rw file (
      messages_of-run_callbacks effects n' m' me k refl
      ∙ queued_next k me (messages_of k m.msg_queue) message (delivered effects) _
          (messages_of-push_message_from (queued me message) me k m.msg_queue))
