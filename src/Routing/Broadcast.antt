-- ===== src/Routing/Broadcast.antt =====
-- src/backend/routing/VectorRoutingProtocol.cpp: `broadcast_table`, the thread that sends the table.
pub mod Fresh
pub mod Race
use networking_project_chat.Prelude.{
  ℕ, zero, suc, ◌+◌, ◌-◌, ◌<◌, List, Option, none, some, Bool, false, ◌>>=◌, ◌≡◌, if◌then◌else◌,
}
use networking_project_chat.Routing.Route.{Table, bcast_timeout}
use networking_project_chat.Routing.State.{Node, start_broadcasting_thread}
use networking_project_chat.Routing.Table.{build_custom_echo}

-- What a round of the loop finds: whether the protocol is paused, whether the line is busy before and
-- after the random sleep, and the address and the table for a new echo.
pub record Look : Type 0 where
  pub paused : Bool
  pub busy : Bool
  pub still_busy : Bool
  pub my_addr : ℕ
  pub table : Table

-- The loop, from round `k` on, with the echo at hand: the echo that is sent, if one is. `none` is fuel
-- run out or a null route.
unfoldable pub broadcast_from : ℕ → (ℕ → Look) → ℕ → List ℕ → Option (Option (List ℕ))
broadcast_from zero looks k packet = none
broadcast_from (suc fuel) looks k packet =
    let waits = broadcast_from fuel looks (k + 1) packet in
    let renews = build_custom_echo (looks k).my_addr 0 (looks k).table >>= λ renewed.
    broadcast_from fuel looks (k + 1) renewed in
    if (looks k).paused
    then some none
    else if (looks k).busy
    then renews
    else if (looks k).still_busy
    then waits
    else some (some packet)

-- The node when the thread begins and when it ends.
unfoldable pub begin_broadcast : Node → Node
begin_broadcast n = record n { broadcast_to = bcast_timeout }

unfoldable pub end_broadcast : Node → Node
end_broadcast n = record n {
  update_broadcast_pending = false;
  broadcast_threads = n.broadcast_threads - 1;
}
