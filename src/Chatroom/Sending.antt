-- ===== src/Chatroom/Sending.antt =====
-- src/frontend/Chatroom/main.cpp: the function that `real_main` gives to the transport layer for sending
-- a packet. It runs in a thread of its own, which it ends.
use networking_project_chat.Prelude.{
  ℕ, zero, suc, ◌+◌, List, Option, none, some, Bool, not, ◌&&◌, ◌>>=◌, if◌then◌else◌,
}
use networking_project_chat.Network.Messages.{data_frame, Message}
use networking_project_chat.BlockingQueue.{BlockingQueue, push}
use networking_project_chat.Routing.State.{Node, pause_protocol}

-- The loop, from round `k` on: what a round reads of the line before and after its sleep. The result is
-- the round that sends; `none` is fuel run out.
unfoldable pub wait_until_free : ℕ → (ℕ → Bool) → (ℕ → Bool) → ℕ → Option ℕ
wait_until_free zero busy still_busy k = none
wait_until_free (suc fuel) busy still_busy k =
    let again = wait_until_free fuel busy still_busy (k + 1) in
    if not (busy k) then (if not (still_busy k) then some k else again) else again

unfoldable pub send_packet :
    ℕ
    → (ℕ → Bool)
    → (ℕ → Bool)
    → List ℕ
    → Node
    → BlockingQueue Message
    → Option (Node × BlockingQueue Message)
unfolding wait_until_free
send_packet fuel busy still_busy packet n sender_queue =
    let n' : Node = if not n.pause_flag then pause_protocol n else n in
    wait_until_free fuel busy still_busy 0 >>= λ k.
    some (n', push (record { type = data_frame; content = packet }) sender_queue)

module _ (busy still_busy : ℕ → Bool) where
  abbrev pub is_free : ℕ → Bool
  is_free k = not (busy k) && not (still_busy k)
