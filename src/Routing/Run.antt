-- ===== src/Routing/Run.antt =====
-- A node of the routing protocol over any run of events.
use networking_project_chat.Prelude.{
  ℕ, ◌≤◌, List, [], ◌∷◌, Option, some, false, ◌==◌, ◌≡◌, refl, ◌>>=◌, All,
}
use networking_project_chat.Packet.{Header, extract_header}
use networking_project_chat.Routing.Route.{Route, Table}
use networking_project_chat.Routing.State.{Node, pause_protocol, resume_protocol_to}
use networking_project_chat.Routing.Table.{process_payload}
use networking_project_chat.Routing.Echo.{register_echo}
use networking_project_chat.Routing.Echo.Relax.{HasRows}
use networking_project_chat.Routing.Echo.Neighbour.{register_echo-Outcome}
use networking_project_chat.Routing.Sound.{
  IsRunning, IsUsable, IsUsable-ClockLaws, IsUsable-EchoLaws,
}
use networking_project_chat.Routing.Rows.{Outcome-HoldsRows}
use networking_project_chat.Prelude.Assoc.{find}
use networking_project_chat.Routing.Tick.{tick}
use networking_project_chat.Routing.Tick.Rounds.{tick-IsRunningWith}

-- What comes to a node that has chosen its address: an echo, a round of its clock, a pause, or the
-- end of the wait after one.
pub data Event : Type 0 where
  hears : List ℕ → Event
  ticks pauses wakes : Event

unfoldable pub step : ℕ → (ℕ → ℕ) → Event → Node → Option Node
step fuel rand (hears packet) n = register_echo fuel rand packet n
step fuel rand ticks n = do (first_run, n) ← tick fuel rand false n; some n
step fuel rand pauses n = some (pause_protocol n)
step fuel rand wakes n = some (resume_protocol_to n)

unfoldable pub run : ℕ → (ℕ → ℕ) → List Event → Node → Option Node
unfolding step
run fuel rand [] n = some n
run fuel rand (e ∷ es) n = do n ← step fuel rand e n; run fuel rand es n

-- An echo with four rows and costs of at most 5, of one of the four nodes and not of `me`.
pub record IsEchoOfAnother (me : ℕ) (packet : List ℕ) : Type 0 where
  pub header : Header
  pub recv : Table
  pub read : extract_header packet ≡ some header
  pub parsed : process_payload packet ≡ some recv
  pub rows : HasRows recv
  pub costs : (j : ℕ) (r : Route) → (1 ≤ j) × (j ≤ 4) → find j recv ≡ some r → r.cost ≤ 5
  pub from_four : (1 ≤ header.source_address) × (header.source_address ≤ 4)
  pub other : (header.source_address == me) ≡ false

abbrev pub IsRegular : ℕ → Event → Type 0
IsRegular me (hears packet) = IsEchoOfAnother me packet
IsRegular me _ = Unit

pub register_echo-IsRunning :
    (fuel : ℕ) (rand : ℕ → ℕ) (me : ℕ) (packet : List ℕ) (n : Node)
    → (1 ≤ me) × (me ≤ 4)
    → IsEchoOfAnother me packet
    → IsRunning me n
    → (n' : Node) × (register_echo fuel rand packet n ≡ some n') × IsRunning me n'
register_echo-IsRunning fuel rand me packet n range echo v =
    let out =
      register_echo-Outcome fuel rand packet n me echo.header echo.recv v.address range v.rows
        echo.read echo.parsed echo.rows echo.from_four echo.other in
    (
      out.after,
      out.returns,
      record {
        address = out.address;
        rows = out.rows;
        holds =
            Outcome-HoldsRows (IsUsable me) me echo.header.source_address echo.recv n echo.rows
              (IsUsable-EchoLaws me echo.header.source_address echo.recv echo.from_four echo.costs)
              v out;
      },
    )

step-IsRunning :
    (fuel : ℕ) (rand : ℕ → ℕ) (me : ℕ) (e : Event) (n : Node)
    → (1 ≤ me) × (me ≤ 4)
    → IsRegular me e
    → IsRunning me n
    → (n' : Node) × (step fuel rand e n ≡ some n') × IsRunning me n'
unfolding step
step-IsRunning fuel rand me (hears packet) n range echo v =
    register_echo-IsRunning fuel rand me packet n range echo v
step-IsRunning fuel rand me ticks n range regular v =
    let (n', returns, running, size) =
      tick-IsRunningWith (IsUsable me) me (IsUsable-ClockLaws me) fuel rand n v in
    (n', rw returns, running)
step-IsRunning fuel rand me pauses n range regular v = (
  pause_protocol n,
  refl,
  unfold pause_protocol in record { address = v.address; rows = v.rows; holds = v.holds },
)
step-IsRunning fuel rand me wakes n range regular v = (
  resume_protocol_to n,
  refl,
  unfold resume_protocol_to in record { address = v.address; rows = v.rows; holds = v.holds },
)

-- From a node that has an address from 1 to 4 in its file and a row for each of the four numbers, where
-- those of the others have a cost of at most 5 (the infinite cost), and a next hop among the four when it
-- is less: every run of rounds of the clock, pauses, ends of pauses, and echoes of other nodes among the
-- four, with four rows and costs of at most 5, returns, so that no null route is read, and leaves the node
-- with its address and with such rows.
pub run-IsRunning :
    (fuel : ℕ) (rand : ℕ → ℕ) (me : ℕ) (es : List Event) (n : Node)
    → (1 ≤ me) × (me ≤ 4)
    → All (IsRegular me) es
    → IsRunning me n
    → (n' : Node) × (run fuel rand es n ≡ some n') × IsRunning me n'
unfolding run
run-IsRunning fuel rand me [] n range regular v = (n, refl, v)
run-IsRunning fuel rand me (e ∷ es) n range regular v =
    let (n', one, v') = step-IsRunning fuel rand me e n range regular.0 v in
    let (n'', rest, v'') = run-IsRunning fuel rand me es n' range regular.1 v' in
    (n'', rw (one, rest), v'')
