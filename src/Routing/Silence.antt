-- ===== src/Routing/Silence.antt =====
-- A neighbour that is not heard from, while the node hears others and pauses
-- (src/backend/routing/VectorRoutingProtocol.cpp).
mod Steps
pub mod Lost
use mathlib.Core.Logic.{⊎_elim}
use networking_project_chat.Prelude.{
  ℕ, zero, suc, ◌+◌, ◌-◌, ◌≤◌, List, [], ◌∷◌, Option, none, some, Bool, true, false, not, ◌&&◌,
  ◌==◌, u8, ◌≡◌, refl, ap, sym, ◌∙◌, ◌⊎◌, inl, inr, arith, Bool-cases, All, if◌then◌else◌, ◌>>=◌,
}
use networking_project_chat.Prelude.Assoc.{find}
use networking_project_chat.Routing.Route.{Route}
use networking_project_chat.Routing.State.{
  Node, pause_protocol, resume_protocol, resume_protocol_to,
}
use networking_project_chat.Routing.Tick.{count_down, start_up, tick}
use networking_project_chat.Routing.Tick.Ageing.{aged}
use networking_project_chat.Routing.Tick.Inactive.{unreachable}
use networking_project_chat.Routing.Tick.Second.{IsAwake, Second, tick-Second}
use networking_project_chat.Routing.Echo.Relax.{HasRows, replaces, relaxed}
use networking_project_chat.Routing.Echo.KeepsOthers.{entered}
use networking_project_chat.Routing.Echo.Neighbour.{start_row, Outcome, register_echo-Outcome}
use networking_project_chat.Routing.Run.{
  Event, hears, ticks, pauses, wakes, IsEchoOfAnother, IsRegular, step, run,
}

-- Whether the node pauses after an event.
abbrev pub pause_after : Event → Bool → Bool
pause_after pauses paused = true
pause_after wakes paused = false
pause_after _ paused = paused

-- The seconds that pass for the rows of a node: rounds of its clock while it does not pause.
abbrev pub awake_second : Event → Bool → ℕ
awake_second ticks paused = if paused then 0 else 1
awake_second _ paused = 0

abbrev pub awake_seconds : List Event → Bool → ℕ
awake_seconds [] paused = 0
awake_seconds (e ∷ es) paused = awake_second e paused + awake_seconds es (pause_after e paused)

-- An echo is not of node `h`.
abbrev pub IsSilent : ℕ → ℕ → Event → Type 0
IsSilent me h (hears packet) =
    (e : IsEchoOfAnother me packet) × ((e.header.source_address == h) ≡ false)
IsSilent me h _ = Unit

-- The node has an address, and a row for each of the four numbers.
pub record IsSetUp (me : ℕ) (n : Node) : Type 0 where
  pub address : n.addressing.addr_file ≡ some me
  pub rows : HasRows n.routing_table

-- No row of another node leads through `h`.
abbrev pub Avoids : ℕ → ℕ → Node → Type 0
Avoids me h n =
    (j : ℕ)
    → (1 ≤ j) × (j ≤ 4)
    → (me == j) ≡ false
    → (r : Route) × (find j n.routing_table ≡ some r) × ((r.next_hop == h) ≡ false)

-- Node `h` is a neighbour, whose row has some seconds to live, and at most `left`.
abbrev pub Lives : ℕ → ℕ → Node → Type 0
Lives h left n =
    (r : Route) × (find h n.routing_table ≡ some r)
    × (r.next_hop ≡ h)
    × (r.cost ≤ 1)
    × (1 ≤ r.ttl)
    × (r.ttl ≤ left)
