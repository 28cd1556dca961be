-- ===== src/Windows/ChatRoom.antt =====
-- src/frontend/Chatroom/chatroomwindow.cpp: the window of the group chat, with its list of members.
use networking_project_chat.Prelude.{
  ℕ, zero, suc, ◌+◌, List, [], ◌∷◌, ◌++◌, Option, none, some, Bool, false, not, ◌==◌, if◌then◌else◌,
  length,
}
use networking_project_chat.Prelude.Text.{
  same_text, find_text, insert_text, erase_text, contains_text,
}
use networking_project_chat.Prelude.Assoc.{find, at_or}
use networking_project_chat.Packet.{data_packet}
use networking_project_chat.Fragmentation.Reassembler.{is_empty}
use networking_project_chat.Addressing.{Addressing, get_my_addr}
use networking_project_chat.MessageQueue.{MessageQueue}
use networking_project_chat.Routing.Route.{Table, max_node_number}
use networking_project_chat.Transport.Manager.{TransportManager, Job, send_message}
use networking_project_chat.Windows.Library.{Qt, Std}
use networking_project_chat.Windows.PrivateChat.{PrivateChatWindow, send_typed, private_chat_window}

pub record ChatRoomWindow : Type 0 where
  pub chat_display : List (List ℕ)
  pub member_list : List (List ℕ)
  pub message_input : List ℕ
  pub members : List (List ℕ)
  pub member_addresses : List (List ℕ × ℕ)
  pub private_chats : List (List ℕ × PrivateChatWindow)
  pub member_count_label : ℕ

-- "Node_" and "You".
abbrev pub node_ : List ℕ
node_ = 78 ∷ 111 ∷ 100 ∷ 101 ∷ 95 ∷ []

abbrev pub you_name : List ℕ
you_name = 89 ∷ 111 ∷ 117 ∷ []

unfoldable pub update_member_count : ChatRoomWindow → ChatRoomWindow
update_member_count w = record w { member_count_label = length w.member_list }

unfoldable pub add_member : List ℕ → ChatRoomWindow → ChatRoomWindow
unfolding update_member_count
add_member member_name w =
    update_member_count (record w { member_list = w.member_list ++ member_name ∷ [] })

-- The items of the list without those of that name.
unfoldable pub remove_items : List ℕ → List (List ℕ) → List (List ℕ)
remove_items name [] = []
remove_items name (item ∷ items) =
    if same_text item name then remove_items name items else item ∷ remove_items name items

unfoldable pub remove_member : List ℕ → ChatRoomWindow → ChatRoomWindow
unfolding remove_items update_member_count
remove_member member_name w =
    update_member_count (record w { member_list = remove_items member_name w.member_list })

unfoldable pub private_chat_closed : List ℕ → ChatRoomWindow → ChatRoomWindow
private_chat_closed contact_name w = record w {
  private_chats =
      if contains_text contact_name w.private_chats
      then erase_text contact_name w.private_chats
      else w.private_chats;
}

module _ (qt : Qt) (std : Std) where
  -- The chat with the member that is clicked is opened, if there is none.
  unfoldable pub handle_member_click :
      List ℕ
      → ChatRoomWindow
      → Addressing
      → MessageQueue
      → ChatRoomWindow × Addressing × MessageQueue
  unfolding get_my_addr private_chat_window
  handle_member_click member_name w a q =
      let (my_addr, a') = get_my_addr a in
      let (chat, q') =
        private_chat_window qt std member_name (at_or 0 (find_text member_name w.member_addresses))
          my_addr q in
      if same_text member_name you_name
      then (w, a, q)
      else if not (contains_text member_name w.private_chats)
      then (record w { private_chats = insert_text member_name chat w.private_chats }, a', q')
      else (w, a, q)

module _ (qt : Qt) where
  -- `memberAddresses[recipient]` leaves an entry with 0 when there is none.
  unfoldable pub send_private_message :
      List ℕ
      → Table
      → ChatRoomWindow
      → TransportManager
      → Option Job × ChatRoomWindow × TransportManager
  unfolding send_typed
  send_private_message recipient table w tm = elim (find_text recipient w.private_chats) [
    | none ↦ (none, w, tm)
    | some chat ↦
        let dest = at_or 0 (find_text recipient w.member_addresses) in
        let (job, chat', tm') = send_typed qt chat.private_message_input dest table chat tm in
        if not (is_empty chat.private_message_input)
        then (
          job,
          record w {
            private_chats = insert_text recipient chat' w.private_chats;
            member_addresses = insert_text recipient dest w.member_addresses;
          },
          tm',
        )
        else (none, w, tm)
  ]

  -- A line of the group chat: the time, a blank, the name, ": " and the text.
  abbrev pub chat_line : List ℕ → List ℕ → List ℕ
  chat_line name text = qt.current_time ++ 32 ∷ name ++ 58 ∷ 32 ∷ text

  unfoldable pub send_global_message :
      Table → ChatRoomWindow → TransportManager → Option Job × ChatRoomWindow × TransportManager
  send_global_message table w tm =
      let text = w.message_input in
      let (job, tm') = send_message (qt.to_local8_bit text) 0 data_packet table tm in
      if is_empty text then (none, w, tm) else (
        job,
        record w {
          chat_display = w.chat_display ++ chat_line you_name text ∷ [];
          message_input = [];
        },
        tm',
      )

  unfoldable pub receive_global_message : ℕ → List ℕ → ChatRoomWindow → ChatRoomWindow
  receive_global_message sender msg w = record w {
    chat_display =
        w.chat_display ++ chat_line (qt.number sender) (qt.from_latin1 (msg ++ 0 ∷ [])) ∷ [];
  }

  -- The text of the box that pops up.
  unfoldable pub receive_private_message : ℕ → List ℕ → List ℕ
  receive_private_message sender msg =
      node_ ++ qt.number sender ++ 58 ∷ 32 ∷ qt.from_local8_bit (msg ++ 0 ∷ [])

  -- The name of a node in the list.
  abbrev pub member_name : ℕ → List ℕ
  member_name i = node_ ++ qt.number i

  unfoldable pub append_member : ℕ → ChatRoomWindow → ChatRoomWindow
  append_member i w = record w {
    members = w.members ++ member_name i ∷ [];
    member_addresses = insert_text (member_name i) i w.member_addresses;
  }

  -- The loop of `updateMemberList`: the node's own address is read for a reachable node only.
  unfoldable pub members_from :
      ℕ → ℕ → List (ℕ × Bool) → ChatRoomWindow → Addressing → ChatRoomWindow × Addressing
  unfolding append_member get_my_addr
  members_from zero i reachable w a = (w, a)
  members_from (suc left) i reachable w a =
      let (my_addr, a') = get_my_addr a in
      let listed = members_from left (i + 1) reachable (append_member i w) a' in
      let itself = members_from left (i + 1) reachable w a' in
      let unreached = members_from left (i + 1) reachable w a in
      if at_or false (find i reachable)
      then (if not (i == my_addr) then listed else itself)
      else unreached

  unfoldable pub update_member_list :
      List (ℕ × Bool) → ChatRoomWindow → Addressing → ChatRoomWindow × Addressing
  unfolding members_from update_member_count
  update_member_list reachable w a =
      let (w', a') = members_from max_node_number 1 reachable (record w { members = [] }) a in
      (update_member_count (record w' { member_list = w'.members }), a')
