-- ===== src/Windows/History.antt =====
-- Which messages a private chat shows from the history (src/frontend/Chatroom/privatechatwindow.cpp).
use networking_project_chat.Prelude.{
  ℕ, List, [], ◌∷◌, ◌++◌, Bool, true, false, not, ◌&&◌, ◌==◌, if◌then◌else◌, ◌≡◌, refl, sym, ap,
  ◌∙◌, map, any, any-append, arith, inl, inr, Bool-cases, Option-cases,
}
use mathlib.Core.List.{append_assoc, append-nil}
use networking_project_chat.Prelude.Assoc.{find}
use networking_project_chat.Prelude.Text.{same_text, elem_text, same_text_refl, eq_of_same_text}
use networking_project_chat.MessageQueue.{Message, MessageQueue, mark_seen, get_messages_from}
use networking_project_chat.MessageQueue.Seen.{messages_of, messages_of-get_messages_from}
use networking_project_chat.Windows.Library.{Qt, Std}
use networking_project_chat.Windows.PrivateChat.{
  PrivateChatWindow, append, get_message_signature, display_msg, show_from, load_history,
}

abbrev pub IsDistinct : List (List ℕ) → Type 0
IsDistinct [] = Unit
IsDistinct (t ∷ ts) = (elem_text t ts ≡ false) × IsDistinct ts

-- A sort keeps what a list contains.
abbrev pub IsSort : ((Message → Message → Bool) → List Message → List Message) → Type 0
IsSort sort =
    (less : Message → Message → Bool) (p : Message → Bool) (ms : List Message)
    → any p (sort less ms) ≡ any p ms

module _ (qt : Qt) (std : Std) where
  abbrev sig : Message → List ℕ
  sig = get_message_signature qt std

  abbrev pub has_signature : List ℕ → Message → Bool
  has_signature s m = same_text (sig m) s

  -- The messages that are shown, when those signatures have been seen.
  unfoldable unique : List (List ℕ) → List Message → List Message
  unique seen [] = []
  unique seen (m ∷ ms) =
      let shown = unique (sig m ∷ seen) ms in
      let skipped = unique seen ms in if elem_text (sig m) seen then skipped else m ∷ shown

  show_from-unique :
      (seen : List (List ℕ)) (ms : List Message) (w : PrivateChatWindow)
      → show_from qt std seen ms w ≡ record w {
        private_chat_display =
            w.private_chat_display ++ map (display_msg qt std w.my_address) (unique seen ms);
      }
  unfolding show_from unique
  show_from-unique seen [] w =
      ap (λ lines. record w { private_chat_display = lines })
        (sym (append-nil w.private_chat_display))
  show_from-unique seen (m ∷ ms) w = elim (Bool-cases (elem_text (sig m) seen)) [
    | inl skipped ↦ rw skipped (show_from-unique seen ms w)
    | inr shown ↦ rw shown (
        show_from-unique (sig m ∷ seen) ms (append (display_msg qt std w.my_address m) w)
        ∙ ap (λ lines. record w { private_chat_display = lines })
            (append_assoc w.private_chat_display (display_msg qt std w.my_address m ∷ [])
              (map (display_msg qt std w.my_address) (unique (sig m ∷ seen) ms))))
  ]

  any-unique :
      (s : List ℕ) (seen : List (List ℕ)) (ms : List Message)
      → any (has_signature s) (unique seen ms)
        ≡ (any (has_signature s) ms && not (elem_text s seen))
  unfolding unique
  any-unique s seen [] = refl
  any-unique s seen (m ∷ ms) = elim (Bool-cases (elem_text (sig m) seen)) [
    | inl skipped ↦ rw skipped (
        any-unique s seen ms ∙ elim (Bool-cases (same_text (sig m) s)) [
          | inl same ↦ rw (← eq_of_same_text (sig m) s same, skipped) (ground arith)
          | inr other ↦ rw other refl
        ])
    | inr shown ↦ rw shown (elim (Bool-cases (same_text (sig m) s)) [
      | inl same ↦ rw (← eq_of_same_text (sig m) s same, shown, same_text_refl (sig m)) refl
      | inr other ↦ rw other (any-unique s (sig m ∷ seen) ms ∙ rw other refl)
    ])
  ]

  elem_text-any :
      (s : List ℕ) (ms : List Message) → elem_text s (map sig ms) ≡ any (has_signature s) ms
  elem_text-any s [] = refl
  elem_text-any s (m ∷ ms) = ground (arith, elem_text-any s ms)

  unique-IsDistinct :
      (seen : List (List ℕ)) (ms : List Message) → IsDistinct (map sig (unique seen ms))
  unfolding unique
  unique-IsDistinct seen [] = tt
  unique-IsDistinct seen (m ∷ ms) = elim (Bool-cases (elem_text (sig m) seen)) [
    | inl skipped ↦ rw skipped (unique-IsDistinct seen ms)
    | inr shown ↦ rw shown (
      elem_text-any (sig m) (unique (sig m ∷ seen) ms)
          ∙ any-unique (sig m) (sig m ∷ seen) ms
          ∙ ground (arith, same_text_refl (sig m)),
      unique-IsDistinct (sig m ∷ seen) ms,
    )
  ]

  mark_seen_signature : (m : Message) → sig (mark_seen m) ≡ sig m
  unfolding mark_seen get_message_signature
  mark_seen_signature m = ground arith

  any-mark_seen :
      (s : List ℕ) (ms : List Message)
      → any (has_signature s) (map mark_seen ms) ≡ any (has_signature s) ms
  any-mark_seen s [] = refl
  any-mark_seen s (m ∷ ms) = rw (mark_seen_signature m, any-mark_seen s ms) refl

  any-get_messages_from :
      (s : List ℕ) (k : ℕ) (q : MessageQueue)
      → any (has_signature s) (get_messages_from k q).0 ≡ any (has_signature s) (messages_of k q)
  unfolding get_messages_from
  any-get_messages_from s k q = elim (Option-cases (find k q.message_queue)) [
    | inl missing ↦ rw (missing, get_messages_from) refl
    | inr (ms, held) ↦ rw (held, get_messages_from) (any-mark_seen s ms)
  ]

  any-messages_of :
      (s : List ℕ) (k j : ℕ) (q : MessageQueue)
      → any (has_signature s) (messages_of j (get_messages_from k q).1)
        ≡ any (has_signature s) (messages_of j q)
  any-messages_of s k j q = elim (Bool-cases (k == j)) [
    | inl same ↦ rw (messages_of-get_messages_from k j q, same) (any-mark_seen s (messages_of j q))
    | inr other ↦ rw (messages_of-get_messages_from k j q, other) refl
  ]

  -- With a sort that keeps what a list contains, the window appends one line for each of some messages,
  -- no two of them with the same signature, and their signatures are exactly those of the messages that
  -- are queued under the node's own address and under the contact's.
  pub load_history_lem :
      (w : PrivateChatWindow) (q : MessageQueue)
      → IsSort std.sort
      → (shown : List Message) × ((load_history qt std w q).0 ≡ record w {
        private_chat_display =
            w.private_chat_display ++ map (display_msg qt std w.my_address) shown;
      })
        × IsDistinct (map (get_message_signature qt std) shown)
        × ((s : List ℕ)
            → any (has_signature s) shown
              ≡ any
                  (has_signature s)
                  (messages_of w.my_address q ++ messages_of w.contact_address q))
  load_history_lem w q sorts = (
    unique [] all,
    unfold load_history in show_from-unique [] all w,
    unique-IsDistinct [] all,
    same,
  )
    where
      q1 : MessageQueue
      q1 = (get_messages_from w.my_address q).1

      both : List Message
      both = (get_messages_from w.my_address q).0 ++ (get_messages_from w.contact_address q1).0

      by_text : Message → Message → Bool
      by_text a b = std.less a.message b.message

      all : List Message
      all = std.sort by_text both

      and_true : (b : Bool) → (b && true) ≡ b
      and_true b = ground arith

      same :
          (s : List ℕ)
          → any (has_signature s) (unique [] all)
            ≡ any (has_signature s) (messages_of w.my_address q ++ messages_of w.contact_address q)
      same s =
          any-unique s [] all
          ∙ and_true (any (has_signature s) all)
          ∙ sorts by_text (has_signature s) both
          ∙ any-append (has_signature s) (get_messages_from w.my_address q).0
              (get_messages_from w.contact_address q1).0
          ∙ rw
              (
                any-get_messages_from s w.my_address q,
                any-get_messages_from s w.contact_address q1,
                any-messages_of s w.my_address w.contact_address q,
              )
              (sym (
                any-append (has_signature s) (messages_of w.my_address q)
                  (messages_of w.contact_address q)))

  -- The names of the two ends stay.
  pub load_history_ends :
      (w : PrivateChatWindow) (q : MessageQueue)
      → ((load_history qt std w q).0.contact_address ≡ w.contact_address)
        × ((load_history qt std w q).0.my_address ≡ w.my_address)
  unfolding load_history
  load_history_ends w q =
      let sent = get_messages_from w.my_address q in
      let all =
        std.sort (λ a b. std.less a.message b.message)
          (sent.0 ++ (get_messages_from w.contact_address sent.1).0) in
      (
        ap (λ v. v.contact_address) (show_from-unique [] all w),
        ap (λ v. v.my_address) (show_from-unique [] all w),
      )
