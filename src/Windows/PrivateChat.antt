-- ===== src/Windows/PrivateChat.antt =====
-- src/frontend/Chatroom/privatechatwindow.cpp: the window of a private chat.
use networking_project_chat.Prelude.{
  ℕ, List, [], ◌∷◌, ◌++◌, Option, none, Bool, not, ◌==◌, if◌then◌else◌,
}
use networking_project_chat.Prelude.Text.{elem_text}
use networking_project_chat.Packet.{data_packet}
use networking_project_chat.Fragmentation.Reassembler.{is_empty}
use networking_project_chat.MessageQueue.{Message, MessageQueue, get_messages_from}
use networking_project_chat.Routing.Route.{Table}
use networking_project_chat.Transport.Manager.{TransportManager, Job, send_message}
use networking_project_chat.Windows.Library.{Qt, Std}

pub record PrivateChatWindow : Type 0 where
  pub private_chat_display : List (List ℕ)
  pub private_message_input : List ℕ
  pub contact_name : List ℕ
  pub contact_address : ℕ
  pub my_address : ℕ

-- "You: " and "Them: ".
abbrev pub you : List ℕ
you = 89 ∷ 111 ∷ 117 ∷ 58 ∷ 32 ∷ []

abbrev pub them : List ℕ
them = 84 ∷ 104 ∷ 101 ∷ 109 ∷ 58 ∷ 32 ∷ []

-- `QTextEdit::append`.
abbrev pub append : List ℕ → PrivateChatWindow → PrivateChatWindow
append line w = record w { private_chat_display = w.private_chat_display ++ line ∷ [] }

-- A `QByteArray` made from a `const char *` ends before the first zero byte.
unfoldable pub c_string : List ℕ → List ℕ
c_string [] = []
c_string (b ∷ bs) = if b == 0 then [] else b ∷ c_string bs

module _ (qt : Qt) where
  -- What `sendMessage` and `sendPrivateMessage` do with a text that is typed in a private chat.
  unfoldable pub send_typed :
      List ℕ
      → ℕ
      → Table
      → PrivateChatWindow
      → TransportManager
      → Option Job × PrivateChatWindow × TransportManager
  unfolding c_string
  send_typed text dest table w tm =
      let w' = record (append (you ++ text) w) { private_message_input = [] } in
      let (job, tm') = send_message (c_string (qt.to_local8_bit text)) dest data_packet table tm in
      (job, w', tm')

  -- `message` is the argument, which is tested and not sent.
  unfoldable pub send_message_from :
      List ℕ
      → Table
      → PrivateChatWindow
      → TransportManager
      → Option Job × PrivateChatWindow × TransportManager
  unfolding send_typed
  send_message_from message table w tm =
      if is_empty message
      then (none, w, tm)
      else if not (is_empty w.private_message_input)
      then send_typed w.private_message_input w.contact_address table w tm
      else (none, w, tm)

module _ (qt : Qt) (std : Std) where
  abbrev bool_to_int : Bool → ℕ
  bool_to_int b = if b then 1 else 0

  -- With "|" between the parts.
  unfoldable pub get_message_signature : Message → List ℕ
  get_message_signature m =
      std.to_string m.sender_address
      ++ (124 ∷ (m.message ++ (124 ∷ std.to_string (bool_to_int m.private_message))))

  unfoldable pub display_msg : ℕ → Message → List ℕ
  display_msg my_address m =
      (if m.sender_address == my_address then you else them) ++ qt.from_std_string m.message

  -- The loop of `loadHistory`, with the signatures seen so far.
  unfoldable pub show_from : List (List ℕ) → List Message → PrivateChatWindow → PrivateChatWindow
  unfolding get_message_signature display_msg
  show_from seen [] w = w
  show_from seen (m ∷ ms) w =
      let signature = get_message_signature m in
      let shown = show_from (signature ∷ seen) ms (append (display_msg w.my_address m) w) in
      let skipped = show_from seen ms w in if elem_text signature seen then skipped else shown

  unfoldable pub load_history : PrivateChatWindow → MessageQueue → PrivateChatWindow × MessageQueue
  unfolding show_from
  load_history w q =
      let (sent_messages, q1) = get_messages_from w.my_address q in
      let (received_messages, q2) = get_messages_from w.contact_address q1 in
      let all_messages =
        std.sort (λ a b. std.less a.message b.message) (sent_messages ++ received_messages) in
      (show_from [] all_messages w, q2)

  -- The constructor.
  unfoldable pub private_chat_window :
      List ℕ → ℕ → ℕ → MessageQueue → PrivateChatWindow × MessageQueue
  unfolding load_history
  private_chat_window contact_name contact_address my_address q =
      load_history
        (record {
          private_chat_display = [];
          private_message_input = [];
          contact_name = contact_name;
          contact_address = contact_address;
          my_address = my_address;
        })
        q
