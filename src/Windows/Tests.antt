-- ===== src/Windows/Tests.antt =====
-- The windows of node 1, with stand-ins for Qt and the standard library.
use networking_project_chat.Prelude.{
  ℕ, zero, suc, ◌+◌, List, [], ◌∷◌, ◌++◌, some, Bool, true, false, ◌==◌, ltb, if◌then◌else◌, ◌≡◌,
  refl, ◌∙◌, ap, map, any, length, replicate, elem, arith,
}
use networking_project_chat.Prelude.Text.{same_text, find_text, elem_text}
use networking_project_chat.Prelude.Assoc.{find, insert_or_assign}
use networking_project_chat.MessageQueue.{Message, MessageQueue, get_messages_from}
use networking_project_chat.MessageQueue.Seen.{messages_of}
use networking_project_chat.Routing.State.{Node}
use networking_project_chat.Transport.Receiver.{new_receiver, message_ready}
use networking_project_chat.Transport.Manager.{TransportManager, run_callbacks}
use networking_project_chat.Transport.Manager.Numbers.{delivered}
use networking_project_chat.Windows.Library.{Qt, Std}
use networking_project_chat.Windows.PrivateChat.{
  PrivateChatWindow, you, get_message_signature, display_msg, load_history,
}
use networking_project_chat.Windows.ChatRoom.{
  ChatRoomWindow, member_name, update_member_list, handle_member_click,
}
use networking_project_chat.Windows.History.{IsDistinct, IsSort, has_signature, load_history_lem}
use networking_project_chat.Windows.Delivered.{IsToString, load_history-run_callbacks}
use networking_project_chat.Windows.Members.{handle_member_click-update_member_list}

abbrev qt : Qt
qt = record {
  to_local8_bit = λ text. text;
  from_local8_bit = λ bytes. bytes;
  from_latin1 = λ bytes. bytes;
  from_std_string = λ bytes. bytes;
  number = λ n. (n + 48) ∷ [];
  current_time = 91 ∷ 93 ∷ [];
}

abbrev insert_by : (Message → Message → Bool) → Message → List Message → List Message
insert_by less m [] = m ∷ []
insert_by less m (n ∷ ms) = if less n m then n ∷ insert_by less m ms else m ∷ n ∷ ms

abbrev sort_by : (Message → Message → Bool) → List Message → List Message
sort_by less [] = []
sort_by less (m ∷ ms) = insert_by less m (sort_by less ms)

abbrev less_text : List ℕ → List ℕ → Bool
less_text [] [] = false
less_text [] (b ∷ t) = true
less_text (a ∷ s) [] = false
less_text (a ∷ s) (b ∷ t) = if a == b then less_text s t else ltb a b

abbrev std : Std
std = record { to_string = λ n. replicate n 49; less = less_text; sort = sort_by }

any-insert_by :
    (less : Message → Message → Bool) (p : Message → Bool) (m : Message) (ms : List Message)
    → any p (insert_by less m ms) ≡ (if p m then true else any p ms)
any-insert_by less p m [] = refl
any-insert_by less p m (n ∷ ms) = ground (arith, any-insert_by less p m ms)

sort_by-IsSort : IsSort sort_by
sort_by-IsSort less p [] = refl
sort_by-IsSort less p (m ∷ ms) =
    any-insert_by less p m (sort_by less ms)
    ∙ ap (λ b. if p m then true else b) (sort_by-IsSort less p ms)

unary_no_bar : (n : ℕ) → elem 124 (replicate n 49) ≡ false
unary_no_bar zero = refl
unary_no_bar (suc n) = unary_no_bar n

length-unary : (n : ℕ) → length {A = ℕ} (replicate n 49) ≡ n
length-unary zero = refl
length-unary (suc n) = omega (arith, length-unary n)

unary : IsToString (λ n. replicate n 49)
unary = record {
  no_bar = unary_no_bar;
  injective = λ m n e. omega (arith, length-unary m, length-unary n, ap length e);
}

digits_differ : (a b : ℕ) → same_text ((a + 48) ∷ []) ((b + 48) ∷ []) ≡ (a == b)
digits_differ a b = ground arith

-- Under 1, "B" and "A"; under 2, "A" of node 2 and twice "C".
abbrev said : ℕ → ℕ → Message
said sender text = record {
  message = text ∷ [];
  sender_address = sender;
  private_message = true;
  seen_message = false;
}

abbrev queue : MessageQueue
queue = record {
  message_queue =
      (1, said 1 66 ∷ said 1 65 ∷ []) ∷ (2, said 2 65 ∷ said 2 67 ∷ said 2 67 ∷ []) ∷ [];
}

abbrev chat_with_two : PrivateChatWindow
chat_with_two = record {
  private_chat_display = [];
  private_message_input = [];
  contact_name = 78 ∷ [];
  contact_address = 2;
  my_address = 1;
}

-- Sorted by text, and "C" once.
history_sample :
    (load_history qt std chat_with_two queue).0.private_chat_display
    ≡ (89 ∷ 111 ∷ 117 ∷ 58 ∷ 32 ∷ 65 ∷ [])
      ∷ (84 ∷ 104 ∷ 101 ∷ 109 ∷ 58 ∷ 32 ∷ 65 ∷ [])
      ∷ (89 ∷ 111 ∷ 117 ∷ 58 ∷ 32 ∷ 66 ∷ [])
      ∷ (84 ∷ 104 ∷ 101 ∷ 109 ∷ 58 ∷ 32 ∷ 67 ∷ [])
      ∷ []
unfolding load_history find get_messages_from insert_or_assign
history_sample = refl

load_history_lem_example :
    (shown : List Message) × ((load_history qt std chat_with_two queue).0
      ≡ record chat_with_two { private_chat_display = map (display_msg qt std 1) shown })
    × IsDistinct (map (get_message_signature qt std) shown)
    × ((s : List ℕ)
        → any (has_signature qt std s) shown
          ≡ any (has_signature qt std s) (messages_of 1 queue ++ messages_of 2 queue))
load_history_lem_example = load_history_lem qt std chat_with_two queue sort_by-IsSort

abbrev node : Node
node = record {
  addressing = record { addr_file = some 1; addr_in_use = []; reachable_nodes = [] };
  routing_table = [];
  neighbors = [];
  pause_flag = false;
  broadcast_to = 10;
  first_table_received = true;
  wait_first_echo_recv_to = 0;
  update_broadcast_pending = false;
  broadcast_threads = 0;
  resume_timers = 0;
}

abbrev manager : TransportManager
manager = record {
  sender = record { ack_received = false; current_msg_id = 0; current_fragment_id = 0 };
  receiver = new_receiver;
  next_msg_id = 0;
  msg_queue = record { message_queue = [] };
}

-- "Hi" of node 3 stands in the chat with node 2 as one's own.
load_history-run_callbacks_example :
    elem_text
      (you ++ 72 ∷ 105 ∷ [])
      (load_history qt std chat_with_two
        (run_callbacks
          (message_ready 3 (72 ∷ 105 ∷ []) false ∷ [])
          node
          manager).2.msg_queue).0.private_chat_display
    ≡ true
load_history-run_callbacks_example =
    load_history-run_callbacks qt std unary (message_ready 3 (72 ∷ 105 ∷ []) false ∷ []) node
      manager (72 ∷ 105 ∷ []) chat_with_two sort_by-IsSort refl (unfold delivered in refl)

-- Nodes 1, 2 and 4 are reachable.
abbrev reachable : List (ℕ × Bool)
reachable = (1, true) ∷ (2, true) ∷ (3, false) ∷ (4, true) ∷ []

abbrev room : ChatRoomWindow
room = record {
  chat_display = [];
  member_list = [];
  message_input = [];
  members = [];
  member_addresses = [];
  private_chats = [];
  member_count_label = 0;
}

handle_member_click-update_member_list_example :
    (chat : PrivateChatWindow) × (find_text
        (member_name qt 4)
        (handle_member_click qt std
          (member_name qt 4)
          (update_member_list qt reachable room node.addressing).0
          (update_member_list qt reachable room node.addressing).1
          queue).0.private_chats
      ≡ some chat)
    × (chat.contact_address ≡ 4)
    × (chat.my_address ≡ 1)
handle_member_click-update_member_list_example =
    handle_member_click-update_member_list qt reachable 1 digits_differ std room node.addressing
      queue 4 refl (omega arith) (omega arith) (unfold find in refl) (unfold find_text in refl)
