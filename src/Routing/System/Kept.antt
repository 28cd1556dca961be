-- ===== src/Routing/System/Kept.antt =====
-- What the nodes and the echoes between them keep when something happens at one node.
use mathlib.Core.Path.{subst}
use networking_project_chat.Prelude.{
  ℕ, zero, suc, ◌≤◌, List, [], ◌∷◌, Option, some, Bool, true, false, ◌==◌, ◌≡◌, refl, ap, ◌∙◌, inl,
  inr, arith, length, get_elem?, All, Bool-cases, ◌>>=◌, if◌then◌else◌,
}
use networking_project_chat.Packet.{Header, extract_header}
use networking_project_chat.Routing.Route.{Table}
use networking_project_chat.Routing.State.{Node, pause_protocol, resume_protocol_to}
use networking_project_chat.Routing.Table.{process_payload}
use networking_project_chat.Routing.Echo.{register_echo}
use networking_project_chat.Routing.Echo.Relax.{HasRows}
use networking_project_chat.Routing.Echo.Neighbour.{Outcome, register_echo-Outcome}
use networking_project_chat.Routing.Rows.{IsRunningWith, Outcome-HoldsRows}
use networking_project_chat.Routing.Tick.{tick}
use networking_project_chat.Routing.Tick.Rounds.{tick-IsRunningWith}
use networking_project_chat.Routing.System.{System, hear, update, runs_at}
use networking_project_chat.Routing.System.Walk.{
  IsTopology, IsWalked, HasOffers, IsWalked-ClockLaws, IsWalked-EchoLaws,
}

pub All-get_elem? {ℓ κ} :
    {A : Type ℓ} (P : A → Type κ) (xs : List A) (k : ℕ) (x : A)
    → All P xs
    → get_elem? xs k ≡ some x
    → P x
All-get_elem? P [] k x h e = cc
All-get_elem? P (y ∷ ys) zero x h e = let same : y ≡ x = cc in subst P same h.0
All-get_elem? P (y ∷ ys) (suc k) x h e = All-get_elem? P ys k x h.1 e

abbrev pub IsNode : ℕ → Type 0
IsNode i = (1 ≤ i) × (i ≤ 4)

-- What holds of each node holds when one of them has changed.
pub update_all :
    (Q : ℕ → Node → Type 0) (i : ℕ) (n : Node) (nodes : ℕ → Node)
    → Q i n
    → ((a : ℕ) → IsNode a → Q a (nodes a))
    → (a : ℕ) → IsNode a
    → Q a (update i n nodes a)
update_all Q i n nodes one all a range = elim (Bool-cases (i == a)) [
  | inl same ↦ let e : i ≡ a = ground (arith, same) in rw same (subst (λ k. Q k n) e one)
  | inr other ↦ rw other (all a range)
]

module _ (linked : ℕ → ℕ → Bool) where
  -- Node `i` has its number as its address, and four rows, whose finite costs are lengths of walks.
  pub record IsWalkedNode (i : ℕ) (n : Node) : Type 0 where
    pub running : IsRunningWith (IsWalked linked i) i n
    pub size : length n.routing_table ≡ 4

  -- An echo of node `src` whose finite costs are lengths of walks from there.
  pub record IsWalkedEcho (src : ℕ) (packet : List ℕ) : Type 0 where
    pub header : Header
    pub recv : Table
    pub read : extract_header packet ≡ some header
    pub source : header.source_address ≡ src
    pub parsed : process_payload packet ≡ some recv
    pub rows : HasRows recv
    pub offers : HasOffers linked src recv

  pub record IsWalkedSystem (s : System) : Type 0 where
    pub nodes : (i : ℕ) → IsNode i → IsWalkedNode i (s.nodes i)
    pub air : All (λ (e : ℕ × List ℕ). IsWalkedEcho e.0 e.1) s.air

  -- A handler that returns, and keeps what is asked of its node.
  pub runs_at-IsWalkedSystem :
      (i : ℕ) (handler : Node → Option Node) (s : System)
      → IsWalkedSystem s
      → (n : Node) × (handler (s.nodes i) ≡ some n) × IsWalkedNode i n
      → (s' : System) × (runs_at i handler s ≡ some s') × IsWalkedSystem s'
  runs_at-IsWalkedSystem i handler s v (n, returns, kept) = (
    record s { nodes = update i n s.nodes },
    rw returns refl,
    record { nodes = update_all IsWalkedNode i n s.nodes kept v.nodes; air = v.air },
  )

  pub ticked-IsWalkedNode :
      (fuel : ℕ) (rand : ℕ → ℕ) (i : ℕ) (n : Node)
      → IsWalkedNode i n
      → (n' : Node) × ((do (first_run, n') ← tick fuel rand false n; some n') ≡ some n')
        × IsWalkedNode i n'
  ticked-IsWalkedNode fuel rand i n v =
      let (n', returns, running, size) =
        tick-IsRunningWith (IsWalked linked i) i (IsWalked-ClockLaws linked i) fuel rand n
          v.running in
      (n', rw returns refl, record { running = running; size = size ∙ v.size })

  pub paused-IsWalkedNode :
      (i : ℕ) (n : Node) → IsWalkedNode i n → IsWalkedNode i (pause_protocol n)
  unfolding pause_protocol
  paused-IsWalkedNode i n v = record {
    running = record {
      address = v.running.address;
      rows = v.running.rows;
      holds = v.running.holds;
    };
    size = v.size;
  }

  pub woken-IsWalkedNode :
      (i : ℕ) (n : Node) → IsWalkedNode i n → IsWalkedNode i (resume_protocol_to n)
  unfolding resume_protocol_to
  woken-IsWalkedNode i n v = record {
    running = record {
      address = v.running.address;
      rows = v.running.rows;
      holds = v.running.holds;
    };
    size = v.size;
  }

  -- The echo of a neighbour, heard.
  pub register_echo-heard :
      (topology : IsTopology linked) (fuel : ℕ) (rand : ℕ → ℕ) (i src : ℕ) (packet : List ℕ)
      (n : Node)
      → linked i src ≡ true
      → IsWalkedNode i n
      → (echo : IsWalkedEcho src packet)
      → Outcome i src echo.recv n (register_echo fuel rand packet n)
  register_echo-heard topology fuel rand i src packet n link v echo =
      let (me_range, src_range, other) = topology i src link in
      subst (λ k. Outcome i k echo.recv n (register_echo fuel rand packet n)) echo.source
        (register_echo-Outcome fuel rand packet n i echo.header echo.recv v.running.address me_range
          v.running.rows echo.read echo.parsed echo.rows (rw echo.source src_range)
          (rw echo.source other))

  pub Outcome-IsWalkedNode :
      (i src : ℕ) (packet : List ℕ) (n : Node) {out : Option Node}
      → linked i src ≡ true
      → IsWalkedNode i n
      → (echo : IsWalkedEcho src packet) → (o : Outcome i src echo.recv n out)
      → IsWalkedNode i o.after
  Outcome-IsWalkedNode i src packet n link v echo o = record {
    running = record {
      address = o.address;
      rows = o.rows;
      holds =
          Outcome-HoldsRows (IsWalked linked i) i src echo.recv n echo.rows
            (IsWalked-EchoLaws linked i src echo.recv link echo.offers) v.running o;
    };
    size = o.size ∙ v.size;
  }

  -- A node that pauses leaves the echo alone.
  pub hear-IsWalkedNode :
      (topology : IsTopology linked) (fuel : ℕ) (rand : ℕ → ℕ) (i src : ℕ) (packet : List ℕ)
      (n : Node)
      → linked i src ≡ true
      → IsWalkedNode i n
      → IsWalkedEcho src packet
      → (n' : Node) × (hear fuel rand packet n ≡ some n') × IsWalkedNode i n'
  hear-IsWalkedNode topology fuel rand i src packet n link v echo = elim (Bool-cases n.pause_flag) [
    | inl paused ↦ (n, ap (λ b. if b then some n else register_echo fuel rand packet n) paused, v)
    | inr awake ↦
        let o = register_echo-heard topology fuel rand i src packet n link v echo in
        (
          o.after,
          ap (λ b. if b then some n else register_echo fuel rand packet n) awake ∙ o.returns,
          Outcome-IsWalkedNode i src packet n link v echo o,
        )
  ]
