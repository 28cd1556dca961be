-- ===== src/Windows/Delivered.antt =====
-- What a private chat shows of the messages that the transport layer has delivered
-- (src/frontend/Chatroom/privatechatwindow.cpp, src/backend/transport/TransportManager.cpp).
use networking_project_chat.Prelude.{
  ℕ, List, [], ◌∷◌, ◌++◌, some, Bool, true, false, ◌==◌, if◌then◌else◌, ◌≡◌, refl, sym, ap, ◌∙◌,
  map, any, any-append, elem, drop, arith, inl, inr, Bool-cases, ==_refl,
}
use mathlib.Core.Path.{ap₂}
use networking_project_chat.Prelude.Text.{same_text, elem_text, same_text_refl, eq_of_same_text}
use networking_project_chat.MessageQueue.{Message, MessageQueue, create_message}
use networking_project_chat.MessageQueue.Seen.{messages_of}
use networking_project_chat.Routing.State.{Node}
use networking_project_chat.Transport.Receiver.{Effect}
use networking_project_chat.Transport.Manager.{TransportManager, run_callbacks}
use networking_project_chat.Transport.Manager.Numbers.{delivered, queued, messages_of-run_callbacks}
use networking_project_chat.Windows.Library.{Qt, Std}
use networking_project_chat.Windows.PrivateChat.{
  PrivateChatWindow, you, them, get_message_signature, display_msg, load_history,
}
use networking_project_chat.Windows.History.{IsSort, IsDistinct, has_signature, load_history_lem}

elem-append_bar : (xs p : List ℕ) → elem 124 (xs ++ 124 ∷ p) ≡ true
elem-append_bar [] p = refl
elem-append_bar (x ∷ xs) p = ground (arith, elem-append_bar xs p)

abbrev head_of : List ℕ → ℕ
head_of [] = 0
head_of (x ∷ xs) = x

bar_head : (a : ℕ) (s : List ℕ) → a ≡ 124 → ¬ (elem 124 (a ∷ s) ≡ false)
bar_head a s e h = ground arith

elem_tail : (a : ℕ) (s : List ℕ) → elem 124 (a ∷ s) ≡ false → elem 124 s ≡ false
elem_tail a s h = ground arith

bar_behind : (ys t s : List ℕ) → s ≡ ys ++ 124 ∷ t → ¬ (elem 124 s ≡ false)
bar_behind ys t s e h = ground (arith, sym h ∙ ap (elem 124) e ∙ elem-append_bar ys t)

-- Cut at the first bar.
cut_first :
    (s t xs ys : List ℕ)
    → elem 124 s ≡ false
    → elem 124 t ≡ false
    → s ++ 124 ∷ xs ≡ t ++ 124 ∷ ys
    → (s ≡ t) × (xs ≡ ys)
cut_first [] [] xs ys p q e = (refl, ap (drop 1) e)
cut_first [] (b ∷ t) xs ys p q e = absurd (bar_head b t (sym (ap head_of e)) q)
cut_first (a ∷ s) [] xs ys p q e = absurd (bar_head a s (ap head_of e) p)
cut_first (a ∷ s) (b ∷ t) xs ys p q e =
    let (same, rest) = cut_first s t xs ys (elem_tail a s p) (elem_tail b t q) (ap (drop 1) e) in
    (ap₂ ◌∷◌ (ap head_of e) same, rest)

-- Cut at the last bar.
cut_last :
    (xs ys s t : List ℕ)
    → elem 124 s ≡ false
    → elem 124 t ≡ false
    → xs ++ 124 ∷ s ≡ ys ++ 124 ∷ t
    → (xs ≡ ys) × (s ≡ t)
cut_last [] [] s t p q e = (refl, ap (drop 1) e)
cut_last [] (y ∷ ys) s t p q e = absurd (bar_behind ys t s (ap (drop 1) e) p)
cut_last (x ∷ xs) [] s t p q e = absurd (bar_behind xs s t (sym (ap (drop 1) e)) q)
cut_last (x ∷ xs) (y ∷ ys) s t p q e =
    let (same, rest) = cut_last xs ys s t p q (ap (drop 1) e) in (ap₂ ◌∷◌ (ap head_of e) same, rest)

-- `std::to_string` writes no bar, and different numbers differently.
pub record IsToString (to_string : ℕ → List ℕ) : Type 0 where
  pub no_bar : (n : ℕ) → elem 124 (to_string n) ≡ false
  pub injective : (m n : ℕ) → to_string m ≡ to_string n → m ≡ n

module _ (qt : Qt) (std : Std) (digits : IsToString std.to_string) where
  abbrev after_sender : Message → List ℕ
  after_sender m = m.message ++ 124 ∷ std.to_string (if m.private_message then 1 else 0)

  signature_injective :
      (m n : Message)
      → get_message_signature qt std m ≡ get_message_signature qt std n
      → (m.sender_address ≡ n.sender_address) × (m.message ≡ n.message)
  unfolding get_message_signature
  signature_injective m n e =
      let (senders, rest) =
        cut_first (std.to_string m.sender_address) (std.to_string n.sender_address) (after_sender m)
          (after_sender n) (digits.no_bar m.sender_address) (digits.no_bar n.sender_address) e in
      (
        digits.injective m.sender_address n.sender_address senders,
        (cut_last m.message n.message _ _ (digits.no_bar _) (digits.no_bar _) rest).0,
      )

  same_line :
      (me : ℕ) (m n : Message)
      → get_message_signature qt std m ≡ get_message_signature qt std n
      → display_msg qt std me m ≡ display_msg qt std me n
  unfolding display_msg
  same_line me m n e =
      let (senders, messages) = signature_injective m n e in
      ap₂ (λ sender text. (if sender == me then you else them) ++ qt.from_std_string text) senders
        messages

  -- A signature that is shown is shown with its line.
  line_shown :
      (me : ℕ) (m : Message) (shown : List Message)
      → any (has_signature qt std (get_message_signature qt std m)) shown ≡ true
      → elem_text (display_msg qt std me m) (map (display_msg qt std me) shown) ≡ true
  line_shown me m [] h = h
  line_shown me m (n ∷ shown) h =
      elim (Bool-cases
        (same_text (get_message_signature qt std n) (get_message_signature qt std m))) [
          | inl same ↦
              rw
                (
                  same_line me n m (
                      eq_of_same_text (get_message_signature qt std n)
                        (get_message_signature qt std m) same),
                  same_text_refl (display_msg qt std me m),
                )
                refl
          | inr other ↦ ground (arith, line_shown me m shown (rw other at h))
        ]

  any-map-queued :
      (me : ℕ) (message : List ℕ) (messages : List (List ℕ))
      → elem_text message messages ≡ true
      → any
          (has_signature qt std (get_message_signature qt std (queued me message)))
          (map (queued me) messages)
        ≡ true
  any-map-queued me message [] h = h
  any-map-queued me message (t ∷ messages) h = elim (Bool-cases (same_text t message)) [
    | inl same ↦
        rw
          (
            eq_of_same_text t message same,
            same_text_refl (get_message_signature qt std (queued me message)),
          )
          refl
    | inr other ↦ ground (arith, any-map-queued me message messages (rw other at h))
  ]

  elem_text-append :
      (t : List ℕ) (xs ys : List (List ℕ)) → elem_text t ys ≡ true → elem_text t (xs ++ ys) ≡ true
  elem_text-append t [] ys h = h
  elem_text-append t (x ∷ xs) ys h = ground (arith, elem_text-append t xs ys h)

  -- A message that another node sent is shown as one's own: at a node with an address, when the
  -- receiver has put a message together, whoever sent it, the history of every private chat of the node
  -- has the line "You: " with its text, with a sort that keeps what a list contains, and numbers that
  -- are written without a bar and so that they differ.
  pub load_history-run_callbacks :
      (effects : List Effect) (n : Node) (tm : TransportManager) (message : List ℕ)
      (w : PrivateChatWindow)
      → IsSort std.sort
      → n.addressing.addr_file ≡ some w.my_address
      → elem_text message (delivered effects) ≡ true
      → elem_text
          (you ++ qt.from_std_string message)
          (load_history qt std w (run_callbacks effects n tm).2.msg_queue).0.private_chat_display
        ≡ true
  load_history-run_callbacks effects n tm message w sorts file comes =
      let (shown, display, distinct, all) = history in
      rw display (
        elem_text-append (you ++ qt.from_std_string message) w.private_chat_display
          (map (display_msg qt std w.my_address) shown)
          (rw (← own_line) (
            line_shown w.my_address own shown (
              all (get_message_signature qt std own)
              ∙ rw
                  (
                    any-append own_sig (messages_of w.my_address q)
                        (messages_of w.contact_address q),
                    queued_own,
                  )
                  refl))))
    where
      q : MessageQueue
      q = (run_callbacks effects n tm).2.msg_queue

      own : Message
      own = queued w.my_address message

      own_sig : Message → Bool
      own_sig = has_signature qt std (get_message_signature qt std own)

      own_line : display_msg qt std w.my_address own ≡ you ++ qt.from_std_string message
      own_line = unfold display_msg create_message in rw (==_refl w.my_address) refl

      queued_own : any own_sig (messages_of w.my_address q) ≡ true
      queued_own =
          rw
            (
              messages_of-run_callbacks effects n tm w.my_address w.my_address file,
              ==_refl w.my_address,
            )
            (any-append own_sig (messages_of w.my_address tm.msg_queue)
                (map (queued w.my_address) (delivered effects))
              ∙ ground (arith, any-map-queued w.my_address message (delivered effects) comes))

      history :
          (shown : List Message) × ((load_history qt std w q).0 ≡ record w {
            private_chat_display =
                w.private_chat_display ++ map (display_msg qt std w.my_address) shown;
          })
          × IsDistinct (map (get_message_signature qt std) shown)
          × ((s : List ℕ)
              → any (has_signature qt std s) shown
                ≡ any
                    (has_signature qt std s)
                    (messages_of w.my_address q ++ messages_of w.contact_address q))
      history = load_history_lem qt std w q sorts
