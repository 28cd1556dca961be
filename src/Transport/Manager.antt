-- ===== src/Transport/Manager.antt =====
-- src/backend/transport/TransportManager.cpp: messages to fragments and back, and the message queue.
-- A detached thread is the job that it runs.
pub mod Numbers
pub mod Waiting
use networking_project_chat.Prelude.{
  ℕ, zero, suc, ◌+◌, ◌*◌, List, [], ◌∷◌, ◌++◌, Option, none, some, Bool, true, false, not, ◌&&◌,
  ◌==◌, ltb, leb, u8, ◌>>=◌, if◌then◌else◌,
}
use networking_project_chat.Prelude.Assoc.{find, contains}
use networking_project_chat.Fragmentation.Fragmenter.{fragment_message}
use networking_project_chat.Addressing.{get_my_addr}
use networking_project_chat.Routing.Route.{Route, Table, infinity_cost}
use networking_project_chat.Routing.State.{Node}
use networking_project_chat.MessageQueue.{
  MessageQueue, new_message_queue, create_message, push_message_from,
}
use networking_project_chat.Transport.Receiver.{
  Receiver, new_receiver, Effect, send, message_ready, on_packet_received,
}
use networking_project_chat.Transport.Sender.{
  Sender, Sent, stop_and_wait_sender, handle_ack, send_fragments,
}

pub record TransportManager : Type 0 where
  pub sender : Sender
  pub receiver : Receiver
  pub next_msg_id : ℕ
  pub msg_queue : MessageQueue

-- With the message queue of the program, which is empty then.
unfoldable pub transport_manager : ℕ → ℕ → TransportManager
unfolding stop_and_wait_sender new_message_queue
transport_manager msg_id fragment_id = record {
  sender = stop_and_wait_sender msg_id fragment_id;
  receiver = new_receiver;
  next_msg_id = 0;
  msg_queue = new_message_queue;
}

-- The arguments of a thread in `wait_to_send`.
pub record Job : Type 0 where
  pub message : List ℕ
  pub dest : ℕ
  pub type : ℕ
  pub msg_id : ℕ

-- The thread that `sendMessage` starts, if any. The number is spent when there is no route, too.
unfoldable pub send_message :
    List ℕ → ℕ → ℕ → Table → TransportManager → Option Job × TransportManager
send_message message dest type table m =
    let m' : TransportManager = record m { next_msg_id = u8 (m.next_msg_id + 1) } in
    if not (dest == 0) && not (contains dest table)
    then (none, m')
    else (some (record { message = message; dest = dest; type = type; msg_id = m.next_msg_id }), m')

-- The loop of `wait_to_send`, from reading `k` of the table on: a round reads the next hop, and at
-- its end, perhaps a second later, the cost. `none` is fuel run out or a null route.
unfoldable pub wait_for_route : ℕ → (ℕ → Table) → ℕ → ℕ → Option ℕ
wait_for_route zero tables k dest = none
wait_for_route (suc fuel) tables k dest = do
  let again = wait_for_route fuel tables (k + 2) dest
  r ← find dest (tables k)
  later ← find dest (tables (k + 1))
  if leb infinity_cost later.cost then again else some r.next_hop

unfoldable pub wait_to_send :
    ℕ → (ℕ → Table) → (ℕ → ℕ → List (List ℕ)) → Job → Sender → Node → Option Sent
unfolding get_my_addr wait_for_route send_fragments fragment_message
wait_to_send fuel tables arrivals job s n = do
  let (my_addr, a) = get_my_addr n.addressing
  next_hop ← if job.dest == 0 then some 0 else wait_for_route fuel tables 0 job.dest
  send_fragments 0 arrivals
      (fragment_message job.message my_addr job.dest next_hop job.msg_id job.type) s
      (record n { addressing = a })

-- What the constructor sets for `onMessageReady`: the message is queued under the node's own
-- address, which the callback of the user interface also gets.
unfoldable pub on_message_ready :
    List ℕ → Bool → Node → TransportManager → List Effect × Node × TransportManager
unfolding get_my_addr create_message push_message_from
on_message_ready message broadcast n m =
    let (sender_addr, a) = get_my_addr n.addressing in
    (
      message_ready sender_addr message broadcast ∷ [],
      record n { addressing = a },
      record m {
        msg_queue =
            push_message_from (create_message sender_addr message true false) sender_addr
              m.msg_queue;
      },
    )

-- The effects of the receiver in turn: packets go to `sendFunc`, messages to `on_message_ready`.
unfoldable pub run_callbacks :
    List Effect → Node → TransportManager → List Effect × Node × TransportManager
unfolding on_message_ready
run_callbacks [] n m = ([], n, m)
run_callbacks (send packet ∷ effects) n m =
    let (rest, n', m') = run_callbacks effects n m in (send packet ∷ rest, n', m')
run_callbacks (message_ready addr message broadcast ∷ effects) n m =
    let (called, n', m') = on_message_ready message broadcast n m in
    let (rest, n'', m'') = run_callbacks effects n' m' in (called ++ rest, n'', m'')

unfoldable pub manager_on_packet_received :
    List ℕ → Node → TransportManager → Option (List Effect × Node × TransportManager)
unfolding run_callbacks
manager_on_packet_received packet n m = do
  (effects, n, receiver) ← on_packet_received packet n m.receiver
  some (run_callbacks effects n (record m { receiver = receiver }))

unfoldable pub on_ack_received :
    List ℕ → Node → TransportManager → Option (List Effect × Node × TransportManager)
on_ack_received packet n m = do
  sent ← handle_ack packet m.sender n
  some (sent.effects, sent.node, record m { sender = sent.sender })
