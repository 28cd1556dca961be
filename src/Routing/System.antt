-- ===== src/Routing/System.antt =====
-- Several nodes that run the routing protocol (src/backend/routing/VectorRoutingProtocol.cpp, and the
-- handling of echoes in src/frontend/Chatroom/main.cpp), and the echoes in the air between them. An echo stays in the air, so that it may be heard late, out of order,
-- more than once, or by none of the nodes.
pub mod Walk
pub mod Kept
pub mod Costs
pub mod Exchange
pub mod Passed
pub mod Shortest
mod Tests
use networking_project_chat.Prelude.{
  ℕ, List, [], ◌∷◌, ◌++◌, Option, none, some, Bool, false, ◌==◌, get_elem?, ◌>>=◌, if◌then◌else◌,
}
use networking_project_chat.Addressing.{get_my_addr}
use networking_project_chat.Routing.State.{Node, pause_protocol, resume_protocol_to}
use networking_project_chat.Routing.Table.{build_custom_echo}
use networking_project_chat.Routing.Echo.{register_echo}
use networking_project_chat.Routing.Tick.{tick}

-- Each echo in the air is there with the node that has sent it, the newest first.
pub record System : Type 0 where
  pub nodes : ℕ → Node
  pub air : List (ℕ × List ℕ)

-- What happens at a node: it sends its table, the echo at some place in the air reaches it, a round of
-- its clock, a pause, or the end of one.
pub data Event : Type 0 where
  sends : ℕ → Event
  receives : ℕ → ℕ → Event
  ticks pauses wakes : ℕ → Event

abbrev pub actor : Event → ℕ
actor (sends i) = i
actor (receives i k) = i
actor (ticks i) = i
actor (pauses i) = i
actor (wakes i) = i

abbrev pub update : ℕ → Node → (ℕ → Node) → ℕ → Node
update i n nodes k = if i == k then n else nodes k

-- A handler runs at node `i`.
abbrev pub runs_at : ℕ → (Node → Option Node) → System → Option System
runs_at i handler s = do n ← handler (s.nodes i); some (record s { nodes = update i n s.nodes })

-- `broadcast_table` when the line is free: the echo is made of the node's table as it is, and is sent
-- unless the node pauses.
pub send : ℕ → System → Option System
send i s = do
  let n = s.nodes i
  let (my_addr, a) = get_my_addr n.addressing
  packet ← build_custom_echo my_addr 0 n.routing_table
  some (record {
    nodes = update i (record n { addressing = a }) s.nodes;
    air = if n.pause_flag then s.air else (i, packet) ∷ s.air;
  })

-- What `real_main` does with an echo: a node that pauses leaves it alone.
abbrev pub hear : ℕ → (ℕ → ℕ) → List ℕ → Node → Option Node
hear fuel rand packet n = if n.pause_flag then some n else register_echo fuel rand packet n

-- A round of the clock of a node that has chosen its address.
abbrev pub clock : ℕ → (ℕ → ℕ) → Node → Option Node
clock fuel rand n = do (first_run, n) ← tick fuel rand false n; some n

-- `linked i k` says whether node `i` hears node `k`. A random number is asked for only by a node that
-- has lost its address.
module _ (linked : ℕ → ℕ → Bool) (fuel : ℕ) (rand : ℕ → ℕ) where
  pub receive : ℕ → ℕ → System → Option System
  receive i k s = elim (get_elem? s.air k) [
    | none ↦ some s
    | some heard ↦ if linked i heard.0 then runs_at i (hear fuel rand heard.1) s else some s
  ]

  pub step : Event → System → Option System
  unfolding send receive
  step (sends i) s = send i s
  step (receives i k) s = receive i k s
  step (ticks i) s = runs_at i (clock fuel rand) s
  step (pauses i) s = runs_at i (λ n. some (pause_protocol n)) s
  step (wakes i) s = runs_at i (λ n. some (resume_protocol_to n)) s

  pub run : List Event → System → Option System
  unfolding step
  run [] s = some s
  run (e ∷ es) s = do s ← step e s; run es s
