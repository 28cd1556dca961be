-- ===== src/Routing/Tick/Rounds.antt =====
-- A round of `tick` at a node that has its address.
use networking_project_chat.Prelude.{
  ℕ, ◌-◌, ◌^◌, ◌<◌, some, Bool, true, false, not, ◌&&◌, ◌==◌, ◌≡◌, refl, ap, ◌∙◌, arith, length,
  if◌then◌else◌,
}
use networking_project_chat.Routing.Route.{Route}
use networking_project_chat.Routing.State.{Node, start_broadcasting_thread}
use networking_project_chat.Routing.Tick.{count_down, start_up, tick}
use networking_project_chat.Routing.Tick.Stages.{unless_paused-Stage, SameRoutes-IsRunningWith}
use networking_project_chat.Routing.Echo.SameRoutes.{SameRoutes, broadcast-SameRoutes}
use networking_project_chat.Routing.Rows.{IsRunningWith, ClockLaws}
use networking_project_chat.Routing.Sound.{IsRunning, IsUsable, IsUsable-ClockLaws}

module _ (P : ℕ → Route → Type 0) (me : ℕ) (laws : ClockLaws me P) where
  count_down-IsRunningWith :
      (first_run : Bool) (n : Node)
      → IsRunningWith P me n
      → IsRunningWith P me (count_down first_run n)
  unfolding count_down
  count_down-IsRunningWith first_run n v = record {
    address = v.address;
    rows = v.rows;
    holds = v.holds;
  }

  -- A round once it is known whether the node has chosen its address.
  round_returns :
      (fuel : ℕ) (rand : ℕ → ℕ) (first_run still : Bool) (n n1 : Node)
      → start_up fuel rand first_run n ≡ some (still, n1)
      → IsRunningWith P me n1
      → (n' : Node) × (tick fuel rand first_run n ≡ some (still, count_down still n'))
        × IsRunningWith P me (count_down still n')
        × (n'.wait_first_echo_recv_to ≡ n1.wait_first_echo_recv_to)
        × (length (count_down still n').routing_table ≡ length n1.routing_table)
  unfolding tick
  round_returns fuel rand first_run still n n1 started v =
      let timed_out : Bool = n1.broadcast_to == 0 && not still && not n1.pause_flag in
      let n2 : Node = if timed_out then start_broadcasting_thread n1 else n1 in
      let same : SameRoutes n1 n2 = broadcast-SameRoutes timed_out n1 in
      let stage =
        unless_paused-Stage P me laws n2.pause_flag still n2
          (SameRoutes-IsRunningWith P me laws same v) in
      (
        stage.after,
        rw (started, stage.returns),
        count_down-IsRunningWith still stage.after stage.running,
        stage.wait ∙ same.wait,
        unfold count_down in stage.size ∙ ap length same.table,
      )

  -- In a node that has chosen its address, has it in its file, and has a row for each of the four
  -- numbers, a round of `tick` returns and keeps all this, with the number of its rows and what `P` says
  -- of them, with whatever the timers and the pause say.
  pub tick-IsRunningWith :
      (fuel : ℕ) (rand : ℕ → ℕ) (n : Node)
      → IsRunningWith P me n
      → (n' : Node) × (tick fuel rand false n ≡ some (false, n'))
        × IsRunningWith P me n'
        × (length n'.routing_table ≡ length n.routing_table)
  tick-IsRunningWith fuel rand n v =
      let (n', returns, running, wait, size) =
        round_returns fuel rand false false n n (unfold start_up in refl) v in
      (count_down false n', returns, running, size)

count_down_wait :
    (n : Node)
    → 0 < n.wait_first_echo_recv_to
    → n.wait_first_echo_recv_to < 2 ^ 32
    → (count_down true n).wait_first_echo_recv_to ≡ n.wait_first_echo_recv_to - 1
unfolding count_down
count_down_wait n p q = omega arith

start_up_waits :
    (fuel : ℕ) (rand : ℕ → ℕ) (n : Node)
    → n.first_table_received ≡ false
    → 0 < n.wait_first_echo_recv_to
    → start_up fuel rand true n ≡ some (true, n)
unfolding start_up
start_up_waits fuel rand n none_yet p = ground arith

-- The wait for a first table, an `unsigned int`, never wraps around: in a node that has an address in
-- its file and a row for each of the four numbers, where those of the others have a cost of at most 5 and
-- a next hop among the four when it is less, and that waits for its first table with some wait left, a
-- round of `tick` returns, the wait has one less, the node keeps its address and such rows, and it waits
-- still.
pub tick_waits :
    (fuel : ℕ) (rand : ℕ → ℕ) (me : ℕ) (n : Node)
    → IsRunning me n
    → n.first_table_received ≡ false
    → 0 < n.wait_first_echo_recv_to
    → n.wait_first_echo_recv_to < 2 ^ 32
    → (n' : Node) × (tick fuel rand true n ≡ some (true, n'))
      × IsRunning me n'
      × (n'.wait_first_echo_recv_to ≡ n.wait_first_echo_recv_to - 1)
tick_waits fuel rand me n v none_yet p q =
    let (n', returns, running, wait, size) =
      round_returns (IsUsable me) me (IsUsable-ClockLaws me) fuel rand true true n n
        (start_up_waits fuel rand n none_yet p) v in
    (
      count_down true n',
      returns,
      running,
      count_down_wait n' (omega (arith, wait)) (omega (arith, wait)) ∙ ap (λ w. w - 1) wait,
    )
