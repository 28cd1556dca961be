-- ===== src/Routing/Broadcast/Race.antt =====
-- Two threads in `start_broadcasting_thread` (src/backend/routing/VectorRoutingProtocol.cpp): the flag is
-- tested and set with no lock, by the thread that ticks and by the main loop.
use networking_project_chat.Prelude.{ℕ, suc, ◌+◌, ◌<◌, ◌≡◌, true, false}
use networking_project_chat.Routing.State.{Node, launch_broadcast, postpone_broadcast}
use networking_project_chat.Routing.Broadcast.{begin_broadcast, end_broadcast}

-- The node, and how many callers have found the flag reset and not yet set it.
pub record Callers : Type 0 where
  pub node : Node
  pub decided : ℕ

pub data Step (c : Callers) : Callers → Type 0 where
  finds_reset :
      c.node.update_broadcast_pending ≡ false → Step c (record c { decided = c.decided + 1 })
  finds_set :
      c.node.update_broadcast_pending ≡ true
      → Step c (record c { node = postpone_broadcast c.node })
  launches :
      (left : ℕ)
      → c.decided ≡ suc left
      → Step c (record { node = launch_broadcast c.node; decided = left })
  begins : 0 < c.node.broadcast_threads → Step c (record c { node = begin_broadcast c.node })
  ends : 0 < c.node.broadcast_threads → Step c (record c { node = end_broadcast c.node })

pub data Reach (c : Callers) : Callers → Type 0 where
  here : Reach c c
  next : {d e : Callers} → Reach c d → Step d e → Reach c e
