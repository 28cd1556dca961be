-- ===== src/Chatroom/Tests.antt =====
-- A packet sent by node 1 when the line has been busy, and a message that comes to node 2.
use networking_project_chat.Prelude.{
  ℕ, zero, suc, ◌<◌, ◌≡◌, refl, [], ◌∷◌, some, Bool, true, false, arith,
}
use networking_project_chat.Prelude.{List, map, elem, replicate, ◌++◌}
use networking_project_chat.Prelude.Assoc.{find}
use networking_project_chat.Fragmentation.Fragmenter.{total_fragments, fragment_message}
use networking_project_chat.MessageQueue.Seen.{messages_of}
use networking_project_chat.Transport.Receiver.{Receiver, new_receiver, Effect, send_ack}
use networking_project_chat.Transport.Receiver.Delivery.{packet_nth, receive_all}
use networking_project_chat.Transport.Manager.Numbers.{queued}
use networking_project_chat.Chatroom.{App, handle_message}
use networking_project_chat.Chatroom.Arrival.{frame_of, handle_message-queued}
use networking_project_chat.BlockingQueue.{BlockingQueue}

-- The line is busy, then taken during the sleep, then free.
abbrev busy : ℕ → Bool
busy zero = true
busy (suc k) = false

abbrev still_busy : ℕ → Bool
still_busy zero = true
still_busy (suc zero) = true
still_busy (suc (suc k)) = false

-- A message of two fragments comes to node 2: the second fragment first, twice.
abbrev thirty : List ℕ
thirty = replicate 30 65

thirty_fragments : total_fragments thirty ≡ 2
unfolding total_fragments
thirty_fragments = refl

both_come : (j : ℕ) → j < total_fragments thirty → elem j (0 ∷ 1 ∷ 1 ∷ []) ≡ true
unfolding total_fragments
both_come j h = grind arith

abbrev app_two : App
app_two = record {
  node = record {
    addressing = record { addr_file = some 2; addr_in_use = []; reachable_nodes = [] };
    routing_table = (1, record { next_hop = 1; cost = 1; destination_node = 1; ttl = 40 }) ∷ [];
    neighbors = [];
    pause_flag = true;
    broadcast_to = 10;
    first_table_received = true;
    wait_first_echo_recv_to = 0;
    update_broadcast_pending = false;
    broadcast_threads = 0;
    resume_timers = 1;
  };
  manager = record {
    sender = record { ack_received = false; current_msg_id = 0; current_fragment_id = 0 };
    receiver = new_receiver;
    next_msg_id = 0;
    msg_queue = record { message_queue = [] };
  };
  chan_state = record { is_line_busy = false; is_current_node_sending = false };
}

handle_message-queued_example :
    (mid : Receiver) × (effects : List Effect) × (app' : App) × (receive_all
        (fragment_message thirty 1 2 2 5 1)
        (1 ∷ 1 ∷ [])
        app_two.node
        new_receiver
      ≡ some (map (λ i. (send_ack 5 i 1 app_two.node).0) (1 ∷ 1 ∷ []), app_two.node, mid))
    × (handle_message 1
          (λ k. 0)
          (frame_of (packet_nth (fragment_message thirty 1 2 2 5 1) 0))
          (record app_two { manager = record app_two.manager { receiver = mid } })
        ≡ some (effects, app'))
    × (messages_of 2 app'.manager.msg_queue
        ≡ messages_of 2 app_two.manager.msg_queue ++ queued 2 thirty ∷ [])
    × (app'.node.pause_flag ≡ false)
handle_message-queued_example =
    handle_message-queued thirty 1 2 2 5 1 (λ k. 0) app_two (1 ∷ 1 ∷ []) 0
      (omega (arith, thirty_fragments)) (omega arith) (omega arith) (omega arith) (omega arith) refl
      refl (unfold find in refl) (omega (arith, thirty_fragments)) (omega (arith, thirty_fragments))
      refl both_come
