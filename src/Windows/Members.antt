-- ===== src/Windows/Members.antt =====
-- The list of members and the chats that it opens (src/frontend/Chatroom/chatroomwindow.cpp).
use networking_project_chat.Prelude.{
  ℕ, zero, suc, ◌+◌, ◌≤◌, List, [], ◌∷◌, ◌++◌, some, Bool, true, false, not, ◌&&◌, ◌==◌, ltb, leb,
  if◌then◌else◌, ◌≡◌, refl, sym, ap, ◌∙◌, map, length, arith, inl, inr, Bool-cases,
}
use mathlib.Core.List.{append_assoc, append-nil}
use networking_project_chat.Prelude.Assoc.{find, at_or}
use networking_project_chat.Prelude.Text.{
  eq_of_==, same_text, find_text, contains_text, find_text-insert_text, same_text_refl,
}
use networking_project_chat.Addressing.{Addressing}
use networking_project_chat.MessageQueue.{MessageQueue}
use networking_project_chat.Windows.Library.{Qt, Std}
use networking_project_chat.Windows.PrivateChat.{PrivateChatWindow, private_chat_window}
use networking_project_chat.Windows.History.{load_history_ends}
use networking_project_chat.Windows.ChatRoom.{
  ChatRoomWindow, member_name, append_member, members_from, update_member_count, update_member_list,
  handle_member_click, you_name,
}

module _ (qt : Qt) (reachable : List (ℕ × Bool)) (me : ℕ) where
  -- A reachable node other than `me`.
  abbrev pub is_other : ℕ → Bool
  is_other i = at_or false (find i reachable) && not (i == me)

  -- Those from `i` on, among `left` numbers.
  abbrev pub others_from : ℕ → ℕ → List ℕ
  others_from zero i = []
  others_from (suc left) i =
      if is_other i then i ∷ others_from left (i + 1) else others_from left (i + 1)

  -- What the loop makes of a window.
  record Listed (left i : ℕ) (w w' : ChatRoomWindow) (a' : Addressing) : Type 0 where
    listed : w'.members ≡ w.members ++ map (member_name qt) (others_from left i)
    chats : w'.private_chats ≡ w.private_chats
    file : a'.addr_file ≡ some me
    found :
        (j : ℕ)
        → find_text (member_name qt j) w'.member_addresses ≡ (
            if leb i j && ltb j (i + left) && is_other j
            then some j
            else find_text (member_name qt j) w.member_addresses)

  module _ (names : (a b : ℕ) → same_text (qt.number a) (qt.number b) ≡ (a == b)) where
    name_of-other : (a b : ℕ) → same_text (member_name qt a) (member_name qt b) ≡ (a == b)
    name_of-other a b = names a b

    Listed-skip :
        (left i : ℕ) (w w' : ChatRoomWindow) (a' : Addressing)
        → is_other i ≡ false
        → Listed left (i + 1) w w' a'
        → Listed (suc left) i w w' a'
    Listed-skip left i w w' a' other rest = record {
      listed = rw other rest.listed;
      chats = rest.chats;
      file = rest.file;
      found = λ j. rest.found j ∙ elim (Bool-cases (i == j)) [
        | inl same ↦ rw (← eq_of_== i j same, other) (ground arith)
        | inr apart ↦ ground arith
      ];
    }

    Listed-append :
        (left i : ℕ) (w w' : ChatRoomWindow) (a' : Addressing)
        → is_other i ≡ true
        → Listed left (i + 1) (append_member qt i w) w' a'
        → Listed (suc left) i w w' a'
    unfolding append_member
    Listed-append left i w w' a' other rest = record {
      listed = rw other (
          rest.listed
          ∙ append_assoc w.members (member_name qt i ∷ [])
              (map (member_name qt) (others_from left (i + 1))));
      chats = rest.chats;
      file = rest.file;
      found = λ j.
          rest.found j
          ∙ rw
              (
                find_text-insert_text (member_name qt i) (member_name qt j) i w.member_addresses,
                name_of-other i j,
              )
              (elim (Bool-cases (i == j)) [
                | inl same ↦ rw (← eq_of_== i j same, other) (ground arith)
                | inr apart ↦ ground arith
              ]);
    }

    members_from-Listed :
        (left i : ℕ) (w : ChatRoomWindow) (a : Addressing)
        → a.addr_file ≡ some me
        → Listed left i w
            (members_from qt left i reachable w a).0
            (members_from qt left i reachable w a).1
    unfolding members_from
    members_from-Listed zero i w a file = record {
      listed = sym (append-nil w.members);
      chats = refl;
      file = file;
      found = λ j. ground arith;
    }
    members_from-Listed (suc left) i w a file = elim (Bool-cases (at_or false (find i reachable))) [
      | inl reached ↦ elim (Bool-cases (i == me)) [
        | inl itself ↦
            rw (file, reached, itself)
              (Listed-skip left i w _ _ (rw (reached, itself) refl)
                (members_from-Listed left (i + 1) w (record a { addr_file = some me }) refl))
        | inr other ↦
            rw (file, reached, other)
              (Listed-append left i w _ _ (rw (reached, other) refl) (
                members_from-Listed left (i + 1) (append_member qt i w)
                  (record a { addr_file = some me }) refl))
      ]
      | inr unreached ↦
          rw unreached (
            Listed-skip left i w _ _ (rw unreached refl)
              (members_from-Listed left (i + 1) w a file))
    ]

    length-map_names : (is : List ℕ) → length (map (member_name qt) is) ≡ length is
    length-map_names [] = refl
    length-map_names (i ∷ is) = omega (arith, length-map_names is)

    -- At a node with an address, and with numbers that are written differently: the list shows the names
    -- of the reachable nodes from 1 to 4 other than the node, in order and nothing else, the label counts
    -- them, each name has its node's address, and the chats that are open stay.
    pub update_member_list_lem :
        (w : ChatRoomWindow) (a : Addressing)
        → a.addr_file ≡ some me
        → (w' : ChatRoomWindow) × (a' : Addressing) × (update_member_list qt reachable w a
            ≡ (w', a'))
          × (w'.member_list ≡ map (member_name qt) (others_from 4 1))
          × (w'.member_count_label ≡ length (others_from 4 1))
          × ((j : ℕ)
              → 1 ≤ j
              → j ≤ 4
              → is_other j ≡ true
              → find_text (member_name qt j) w'.member_addresses ≡ some j)
          × (w'.private_chats ≡ w.private_chats)
          × (a'.addr_file ≡ some me)
    unfolding update_member_list update_member_count
    update_member_list_lem w a file = (
      _,
      _,
      refl,
      looped.listed,
      ap length looped.listed ∙ length-map_names (others_from 4 1),
      λ j p q other. looped.found j ∙ rw other (ground arith),
      looped.chats,
      looped.file,
    )
      where
        looped :
            Listed 4 1
              (record w { members = [] })
              (members_from qt 4 1 reachable (record w { members = [] }) a).0
              (members_from qt 4 1 reachable (record w { members = [] }) a).1
        looped = members_from-Listed 4 1 (record w { members = [] }) a file

    opens :
        (std : Std) (name : List ℕ) (w : ChatRoomWindow) (a : Addressing) (q : MessageQueue)
        (dest : ℕ)
        → same_text name you_name ≡ false
        → contains_text name w.private_chats ≡ false
        → find_text name w.member_addresses ≡ some dest
        → a.addr_file ≡ some me
        → find_text name (handle_member_click qt std name w a q).0.private_chats
          ≡ some (private_chat_window qt std name dest me q).0
    unfolding handle_member_click
    opens std name w a q dest member new address file =
        rw (file, member, new, address)
          (find_text-insert_text name name (private_chat_window qt std name dest me q).0
              w.private_chats
            ∙ rw (same_text_refl name) refl)

    -- At a node with an address, and with numbers that are written differently: a click, after the list is
    -- brought up to date, on the name of a reachable node from 1 to 4 other than the node, with which no
    -- chat is open, opens a chat whose two ends are that node and the node itself.
    pub handle_member_click-update_member_list :
        (std : Std) (w : ChatRoomWindow) (a : Addressing) (q : MessageQueue) (j : ℕ)
        → a.addr_file ≡ some me
        → 1 ≤ j
        → j ≤ 4
        → is_other j ≡ true
        → contains_text (member_name qt j) w.private_chats ≡ false
        → (chat : PrivateChatWindow) × (find_text
              (member_name qt j)
              (handle_member_click qt std
                (member_name qt j)
                (update_member_list qt reachable w a).0
                (update_member_list qt reachable w a).1
                q).0.private_chats
            ≡ some chat)
          × (chat.contact_address ≡ j)
          × (chat.my_address ≡ me)
    handle_member_click-update_member_list std w a q j file p q' other new =
        let (w', a', listed, items, count, addresses, chats, file') =
          update_member_list_lem w a file in
        (
          (private_chat_window qt std (member_name qt j) j me q).0,
          rw listed (
              opens std (member_name qt j) w' a' q j refl (rw chats new) (addresses j p q' other)
                file'),
          ends.0,
          ends.1,
        )
      where
        ends :
            ((private_chat_window qt std (member_name qt j) j me q).0.contact_address ≡ j)
            × ((private_chat_window qt std (member_name qt j) j me q).0.my_address ≡ me)
        ends = unfold private_chat_window in load_history_ends qt std _ q
