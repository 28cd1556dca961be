-- ===== src/Routing/System/Costs.antt =====
-- The costs in the tables of the nodes, over any run.
use networking_project_chat.Prelude.{
  ℕ, List, [], ◌∷◌, Option, some, Bool, true, false, ◌≡◌, refl, inl, inr, arith, get_elem?, All,
  Bool-cases, Option-cases, if◌then◌else◌,
}
use networking_project_chat.Prelude.Assoc.{find}
use networking_project_chat.Routing.Route.{Route, Table}
use networking_project_chat.Routing.State.{Node, pause_protocol, resume_protocol_to}
use networking_project_chat.Routing.Table.RoundTrip.{received}
use networking_project_chat.Routing.Table.Offers.{Offers, NamesRows, build_custom_echo-Carries}
use networking_project_chat.Routing.Echo.Relax.{HasRows}
use networking_project_chat.Routing.Echo.SameRoutes.{get_my_addr_lem}
use networking_project_chat.Routing.Rows.{HoldsRows-find}
use networking_project_chat.Routing.System.{
  System, Event, sends, receives, ticks, pauses, wakes, actor, update, clock, hear, send, receive,
  step, run,
}
use networking_project_chat.Routing.System.Walk.{IsTopology, IsWalked, HasOffers, WalkVia-Walk}
use networking_project_chat.Routing.System.Kept.{
  All-get_elem?, IsNode, IsWalkedNode, IsWalkedEcho, IsWalkedSystem, update_all,
  runs_at-IsWalkedSystem, ticked-IsWalkedNode, paused-IsWalkedNode, woken-IsWalkedNode,
  hear-IsWalkedNode,
}

module _ (linked : ℕ → ℕ → Bool) where
  NamesRows-IsWalkedNode : (i : ℕ) (n : Node) → IsWalkedNode linked i n → NamesRows n.routing_table
  NamesRows-IsWalkedNode i n v j r range e =
      (HoldsRows-find (IsWalked linked i) j r n.routing_table v.running.holds range e).names

  received_walked :
      (src : ℕ) (t recv : Table)
      → HasRows t
      → ((j : ℕ) (r : Route) → IsNode j → find j t ≡ some r → IsWalked linked src j r)
      → Offers src t recv
      → HasOffers linked src recv
  received_walked src t recv has walked offers j r range e =
      let (row, e') = has j range.0 range.1 in
      let w = walked j row range e' in
      let o = offers j row range e' in
      let same : r ≡ received src row = cc in
      rw same (record {
        at_most = w.at_most;
        walk = λ h. WalkVia-Walk linked row.cost src row.next_hop j (w.walk h);
      })

  -- Node `i` has sent its table.
  pub record Sent (i : ℕ) (s : System) : Type 0 where
    pub packet : List ℕ
    pub node : Node
    pub returns :
        send i s
        ≡ some (record {
          nodes = update i node s.nodes;
          air = if (s.nodes i).pause_flag then s.air else (i, packet) ∷ s.air;
        })
    pub pause : node.pause_flag ≡ (s.nodes i).pause_flag
    pub table : node.routing_table ≡ (s.nodes i).routing_table
    pub kept : IsWalkedNode linked i node
    pub echo : IsWalkedEcho linked i packet
    pub offers : Offers i (s.nodes i).routing_table echo.recv

  received-HasRows : (src : ℕ) (t recv : Table) → HasRows t → Offers src t recv → HasRows recv
  received-HasRows src t recv has offers j p q =
      let (row, e) = has j p q in (received src row, offers j row (p, q) e)

  pub send-Sent : (i : ℕ) (s : System) → IsNode i → IsWalkedNode linked i (s.nodes i) → Sent i s
  unfolding send
  send-Sent i s range v =
      let n = s.nodes i in
      let walked : (j : ℕ) (r : Route)
          → IsNode j
          → find j n.routing_table ≡ some r
          → IsWalked linked i j r =
        λ j r. HoldsRows-find (IsWalked linked i) j r n.routing_table v.running.holds in
      let carried =
        build_custom_echo-Carries i 0 n.routing_table (omega arith) v.size v.running.rows
          (NamesRows-IsWalkedNode i n v) in
      let reads = carried.reads in
      record {
        packet = reads.packet;
        node = record n { addressing = record n.addressing { addr_file = some i } };
        returns = rw (get_my_addr_lem n.addressing i v.running.address, reads.built) refl;
        pause = refl;
        table = refl;
        kept = record {
          running = record { address = refl; rows = v.running.rows; holds = v.running.holds };
          size = v.size;
        };
        echo = record {
          header = reads.header;
          recv = carried.recv;
          read = reads.read;
          source = reads.source;
          parsed = reads.parsed;
          rows = received-HasRows i n.routing_table carried.recv v.running.rows carried.offers;
          offers =
              received_walked i n.routing_table carried.recv v.running.rows walked carried.offers;
        };
        offers = carried.offers;
      }

  -- The echoes in the air, whether or not the node pauses.
  sent_air :
      (i : ℕ) (packet : List ℕ) (paused : Bool) (air : List (ℕ × List ℕ))
      → IsWalkedEcho linked i packet
      → All (λ (e : ℕ × List ℕ). IsWalkedEcho linked e.0 e.1) air
      → All
          (λ (e : ℕ × List ℕ). IsWalkedEcho linked e.0 e.1)
          (if paused then air else (i, packet) ∷ air)
  sent_air i packet true air echo all = all
  sent_air i packet false air echo all = (echo, all)

  abbrev Kept : Option System → Type 0
  Kept out = (s' : System) × (out ≡ some s') × IsWalkedSystem linked s'

  send-Kept : (i : ℕ) (s : System) → IsNode i → IsWalkedSystem linked s → Kept (send i s)
  send-Kept i s range v =
      let sent = send-Sent i s range (v.nodes i range) in
      (
        _,
        sent.returns,
        record {
          nodes = update_all (IsWalkedNode linked) i sent.node s.nodes sent.kept v.nodes;
          air = sent_air i sent.packet (s.nodes i).pause_flag s.air sent.echo v.air;
        },
      )

  module _ (topology : IsTopology linked) (fuel : ℕ) (rand : ℕ → ℕ) where
    receive-Kept :
        (i k : ℕ) (s : System)
        → IsNode i
        → IsWalkedSystem linked s
        → Kept (receive linked fuel rand i k s)
    unfolding receive
    receive-Kept i k s range v = elim (Option-cases (get_elem? s.air k)) [
      | inl silent ↦ rw (receive, silent) (s, refl, v)
      | inr (heard, e) ↦ elim (Bool-cases (linked i heard.0)) [
        | inl link ↦
            let echo = All-get_elem? _ s.air k heard v.air e in
            let one = v.nodes i range in
            rw (receive, e, link)
              (runs_at-IsWalkedSystem linked i (hear fuel rand heard.1) s v (
                hear-IsWalkedNode linked topology fuel rand i heard.0 heard.1 (s.nodes i) link one
                  echo))
        | inr apart ↦ rw (receive, e, apart) (s, refl, v)
      ]
    ]

    step-Kept :
        (e : Event) (s : System)
        → IsNode (actor e)
        → IsWalkedSystem linked s
        → Kept (step linked fuel rand e s)
    unfolding step
    step-Kept (sends i) s range v = send-Kept i s range v
    step-Kept (receives i k) s range v = receive-Kept i k s range v
    step-Kept (ticks i) s range v =
        runs_at-IsWalkedSystem linked i (clock fuel rand) s v
          (ticked-IsWalkedNode linked fuel rand i (s.nodes i) (v.nodes i range))
    step-Kept (pauses i) s range v =
        runs_at-IsWalkedSystem linked i (λ n. some (pause_protocol n)) s v
          (_, refl, paused-IsWalkedNode linked i (s.nodes i) (v.nodes i range))
    step-Kept (wakes i) s range v =
        runs_at-IsWalkedSystem linked i (λ n. some (resume_protocol_to n)) s v
          (_, refl, woken-IsWalkedNode linked i (s.nodes i) (v.nodes i range))

    -- From nodes 1 to 4 with four rows each and their numbers as addresses, where each row names its
    -- destination and a cost below 5 (the infinite cost) is the length of a walk along links that begins
    -- with the next hop, and in the echoes in the air the length of a walk from the sender: every run at these nodes, of echoes sent and heard along links, early, late,
    -- twice or never, of rounds of the clocks, pauses and ends of pauses, returns, so that no node reads a
    -- null route, and leaves such nodes and echoes, so that no node ever claims a route shorter than the
    -- links allow.
    pub run-IsWalkedSystem :
        (es : List Event) (s : System)
        → All (λ e. IsNode (actor e)) es
        → IsWalkedSystem linked s
        → (s' : System) × (run linked fuel rand es s ≡ some s') × IsWalkedSystem linked s'
    unfolding run
    run-IsWalkedSystem [] s range v = (s, refl, v)
    run-IsWalkedSystem (e ∷ es) s range v =
        let (s', one, v') = step-Kept e s range.0 v in
        let (s'', rest, v'') = run-IsWalkedSystem es s' range.1 v' in
        (s'', rw (one, rest) refl, v'')
