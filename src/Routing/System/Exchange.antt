-- ===== src/Routing/System/Exchange.antt =====
-- One node hears another as soon as that has sent its table.
use mathlib.Core.Path.{subst}
use networking_project_chat.Prelude.{
  ℕ, ◌+◌, ◌≤◌, List, [], ◌∷◌, Option, none, some, Bool, true, false, ◌==◌, ◌≡◌, refl, ap, ◌∙◌, inl,
  inr, arith, Bool-cases, if◌then◌else◌,
}
use networking_project_chat.Prelude.Assoc.{find}
use networking_project_chat.Routing.Route.{Route, Table}
use networking_project_chat.Routing.State.{Node}
use networking_project_chat.Routing.Table.RoundTrip.{received}
use networking_project_chat.Routing.Table.Offers.{Offers}
use networking_project_chat.Routing.Echo.{register_echo}
use networking_project_chat.Routing.Echo.Relax.{HasRows, replaces, relaxed}
use networking_project_chat.Routing.Echo.KeepsOthers.{entered}
use networking_project_chat.Routing.Echo.Neighbour.{start_row, Outcome}
use networking_project_chat.Routing.Rows.{HoldsRows, EchoLaws, HoldsRows-find, Outcome-HoldsRows}
use networking_project_chat.Routing.System.{
  System, Event, sends, receives, update, send, receive, step, run,
}
use networking_project_chat.Routing.System.Walk.{IsTopology, IsWalked, HasOffers}
use networking_project_chat.Routing.System.Kept.{
  IsNode, IsWalkedNode, IsWalkedSystem, register_echo-heard, update_all, Outcome-IsWalkedNode,
}
use networking_project_chat.Routing.System.Costs.{send-Sent}

-- A row that has not expired, at cost 0 where it is the node's own.
pub record IsFresh (me j : ℕ) (r : Route) : Type 0 where
  pub alive : 1 ≤ r.ttl
  pub own : (me == j) ≡ true → r.cost ≡ 0

relaxed_ttl :
    (src j : ℕ) (offered row : Route)
    → 1 ≤ row.ttl
    → 1 ≤ (relaxed src offered (start_row src j row)).ttl
unfolding relaxed entered
relaxed_ttl src j offered row p = ground (arith, p)

pub IsFresh-EchoLaws : (me src : ℕ) (recv : Table) → EchoLaws me src recv (IsFresh me)
IsFresh-EchoLaws me src recv = record {
  entered_self = λ r fresh. record { alive = fresh.alive; own = λ same. refl };
  relaxes = λ j offered r range other e fresh. record {
    alive = relaxed_ttl src j offered r fresh.alive;
    own = λ same. absurd (ground (arith, other, same));
  };
}

-- A row that is alive gets no dearer by an offer, and no dearer than the way through the sender.
relaxed_cost :
    (src j : ℕ) (offered row : Route)
    → offered.cost ≤ 5
    → row.cost ≤ 5
    → 1 ≤ row.ttl
    → ((relaxed src offered (start_row src j row)).cost ≤ row.cost)
      × ((relaxed src offered (start_row src j row)).cost ≤ offered.cost + 1)
unfolding relaxed replaces entered
relaxed_cost src j offered row p q alive = ground (arith, p, q, alive)

-- The cost that a table gives, 5 where it has no row.
abbrev pub cost_in : Option Route → ℕ
cost_in none = 5
cost_in (some r) = r.cost

abbrev pub cost_at : System → ℕ → ℕ → ℕ
cost_at s i j = cost_in (find j (s.nodes i).routing_table)

abbrev pub IsFreshSystem : System → Type 0
IsFreshSystem s = (i : ℕ) → IsNode i → HoldsRows (IsFresh i) (s.nodes i).routing_table

-- No cost has risen.
abbrev pub Improves : System → System → Type 0
Improves s s' = (i j : ℕ) → IsNode i → IsNode j → cost_at s' i j ≤ cost_at s i j

-- Each cost of node `i` is at most that of node `k` and one more.
abbrev pub HasHeard : System → System → ℕ → ℕ → Type 0
HasHeard s s' i k = (j : ℕ) → IsNode j → cost_at s' i j ≤ cost_at s k j + 1

-- Node `k` sends its table, and node `i` hears it.
abbrev pub exchange : ℕ → ℕ → List Event
exchange i k = sends k ∷ receives i 0 ∷ []

-- What node `i` has heard, destination by destination, from the table `t` of node `k`.
heard_costs :
    (linked : ℕ → ℕ → Bool) (i k j : ℕ) (t recv : Table) (n : Node) {out : Option Node}
    → IsNode i
    → IsNode j
    → HasRows t
    → Offers k t recv
    → HasOffers linked k recv
    → IsWalkedNode linked i n
    → HoldsRows (IsFresh i) n.routing_table
    → (o : Outcome i k recv n out) → HoldsRows (IsFresh i) o.after.routing_table
    → (cost_in (find j o.after.routing_table) ≤ cost_in (find j n.routing_table))
      × (cost_in (find j o.after.routing_table) ≤ cost_in (find j t) + 1)
heard_costs linked i k j t recv n node range has offers offered v fresh o fresh' =
    elim (Bool-cases (i == j)) [
      | inl self ↦
          let (r, e) = o.rows j range.0 range.1 in
          let own =
            (HoldsRows-find (IsFresh i) j r o.after.routing_table fresh' range e).own self in
          rw (e, own) (omega arith)
      | inr other ↦
          let (r, e) = has j range.0 range.1 in
          let (row, e') = v.running.rows j range.0 range.1 in
          let e'' = offers j r range e in
          let w =
            HoldsRows-find (IsWalked linked i) j row n.routing_table v.running.holds range e' in
          let f = HoldsRows-find (IsFresh i) j row n.routing_table fresh range e' in
          rw (o.row j (received k r) row range other e'' e', e, e')
            (relaxed_cost k j (received k r) row (offered j (received k r) range e'').at_most
              w.at_most f.alive)
    ]

-- A node that has sent its table has the table it had.
sent_table :
    (k : ℕ) (n : Node) (nodes : ℕ → Node)
    → n.routing_table ≡ (nodes k).routing_table
    → (a : ℕ) → (update k n nodes a).routing_table ≡ (nodes a).routing_table
sent_table k n nodes e a = elim (Bool-cases (k == a)) [
  | inl same ↦
      let e' : k ≡ a = ground (arith, same) in rw same (e ∙ ap (λ b. (nodes b).routing_table) e')
  | inr other ↦ rw other refl
]

update_here : (i : ℕ) (n : Node) (nodes : ℕ → Node) → update i n nodes i ≡ n
update_here i n nodes = ground arith

-- Nodes that do not pause, whose costs are lengths of walks, and whose rows have not expired.
pub record IsLive (linked : ℕ → ℕ → Bool) (s : System) : Type 0 where
  pub awake : (i : ℕ) → IsNode i → (s.nodes i).pause_flag ≡ false
  pub walked : IsWalkedSystem linked s
  pub fresh : IsFreshSystem s

module _ (linked : ℕ → ℕ → Bool) (topology : IsTopology linked) (fuel : ℕ) (rand : ℕ → ℕ) where
  pub record Exchanged (i k : ℕ) (s : System) : Type 0 where
    pub after : System
    pub returns : run linked fuel rand (exchange i k) s ≡ some after
    pub live : IsLive linked after
    pub improves : Improves s after
    pub heard : HasHeard s after i k

  exchange_returns :
      (i k : ℕ) (s : System) (packet : List ℕ) (n n' : Node)
      → linked i k ≡ true
      → send k s
        ≡ some (record {
          nodes = update k n s.nodes;
          air = if (s.nodes k).pause_flag then s.air else (k, packet) ∷ s.air;
        })
      → (s.nodes k).pause_flag ≡ false
      → (update k n s.nodes i).pause_flag ≡ false
      → register_echo fuel rand packet (update k n s.nodes i) ≡ some n'
      → run linked fuel rand (exchange i k) s
        ≡ some (record { nodes = update i n' (update k n s.nodes); air = (k, packet) ∷ s.air })
  unfolding run step receive
  exchange_returns i k s packet n n' link one awake_k awake_i two =
      let sent : send k s
          ≡ some (record { nodes = update k n s.nodes; air = (k, packet) ∷ s.air }) =
        one
        ∙ ap
            (λ b. some (record {
              nodes = update k n s.nodes;
              air = if b then s.air else (k, packet) ∷ s.air;
            }))
            awake_k in
      rw (sent, receive, link, awake_i, two) refl

  pub exchange-Exchanged :
      (i k : ℕ) (s : System) → linked i k ≡ true → IsLive linked s → Exchanged i k s
  exchange-Exchanged i k s link live =
      let (node_i, node_k, apart) = topology i k link in
      let sent = send-Sent linked k s node_k (live.walked.nodes k node_k) in
      let nodes1 = update k sent.node s.nodes in
      let same = sent_table k sent.node s.nodes sent.table in
      let walked1 =
        update_all (IsWalkedNode linked) k sent.node s.nodes sent.kept live.walked.nodes in
      let o =
        register_echo-heard linked topology fuel rand i k sent.packet (nodes1 i) link
          (walked1 i node_i) sent.echo in
      let fresh1 : (a : ℕ) → IsNode a → HoldsRows (IsFresh a) (nodes1 a).routing_table =
        λ a range. rw (same a) (live.fresh a range) in
      let awake1 =
        update_all (λ a n. n.pause_flag ≡ false) k sent.node s.nodes
          (sent.pause ∙ live.awake k node_k) live.awake in
      let fresh_i =
        Outcome-HoldsRows (IsFresh i) i k sent.echo.recv (nodes1 i) sent.echo.rows
          (IsFresh-EchoLaws i k sent.echo.recv)
          (record {
            address = (walked1 i node_i).running.address;
            rows = (walked1 i node_i).running.rows;
            holds = fresh1 i node_i;
          })
          o in
      let costs = λ (j : ℕ) (range : IsNode j).
        heard_costs linked i k j (s.nodes k).routing_table sent.echo.recv (nodes1 i) node_i range
          (live.walked.nodes k node_k).running.rows sent.offers sent.echo.offers (walked1 i node_i)
          (fresh1 i node_i) o fresh_i in
      record {
        after = record { nodes = update i o.after nodes1; air = (k, sent.packet) ∷ s.air };
        returns =
            exchange_returns i k s sent.packet sent.node o.after link sent.returns
              (live.awake k node_k) (awake1 i node_i) o.returns;
        live = record {
          awake =
              update_all (λ a n. n.pause_flag ≡ false) i o.after nodes1 (o.pause ∙ awake1 i node_i)
                awake1;
          walked = record {
            nodes =
                update_all (IsWalkedNode linked) i o.after nodes1
                  (Outcome-IsWalkedNode linked i k sent.packet (nodes1 i) link (walked1 i node_i)
                    sent.echo o)
                  walked1;
            air = (sent.echo, live.walked.air);
          };
          fresh =
              update_all (λ a n. HoldsRows (IsFresh a) n.routing_table) i o.after nodes1 fresh_i
                fresh1;
        };
        improves = λ a j range_a range_j.
            update_all (λ b n. cost_in (find j n.routing_table) ≤ cost_at s b j) i o.after nodes1
              (subst (λ t. cost_in (find j o.after.routing_table) ≤ cost_in (find j t)) (same i)
                (costs j range_j).0)
              (λ b range_b. rw (same b) (omega arith)) a range_a;
        heard = λ j range_j. rw (update_here i o.after nodes1) (costs j range_j).1;
      }
