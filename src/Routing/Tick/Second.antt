-- ===== src/Routing/Tick/Second.antt =====
-- One second of a node that has chosen its address and does not pause.
use networking_project_chat.Prelude.{
  ℕ, ◌-◌, ◌≤◌, Option, some, Bool, true, false, not, ◌&&◌, ◌==◌, ltb, leb, ◌≡◌, refl, ap, ◌∙◌,
  arith, if◌then◌else◌,
}
use networking_project_chat.Prelude.Assoc.{find}
use networking_project_chat.Routing.Route.{Route}
use networking_project_chat.Routing.State.{Node, start_broadcasting_thread}
use networking_project_chat.Routing.Tick.{
  expire_from, inactive_neighbours_handling, count_down, start_up, tick,
}
use networking_project_chat.Routing.Tick.Ageing.{is_active, aged, Aged}
use networking_project_chat.Routing.Tick.Expiry.{in_rounds, expire_from-Aged}
use networking_project_chat.Routing.Tick.Inactive.{
  is_lost, unreachable, inactive_neighbours_handling_lem,
}
use networking_project_chat.Routing.Tick.Stages.{unless_paused}
use networking_project_chat.Routing.Echo.Relax.{HasRows}
use networking_project_chat.Routing.Echo.SameRoutes.{SameRoutes, broadcast-SameRoutes}

-- The node has an address, does not pause, and has a row for each of the four numbers.
pub record IsAwake (me : ℕ) (n : Node) : Type 0 where
  pub address : n.addressing.addr_file ≡ some me
  pub awake : n.pause_flag ≡ false
  pub rows : HasRows n.routing_table

-- A round of the clock: each row of another node gets older, and is lost when its next hop is.
pub record Second (me : ℕ) (n : Node) (out : Option (Bool × Node)) : Type 0 where
  pub after : Node
  pub returns : out ≡ some (false, after)
  pub awake : IsAwake me after
  pub lost : ℕ → Bool
  pub row :
      (k : ℕ) (r : Route)
      → (1 ≤ k) × (k ≤ 4)
      → (me == k) ≡ false
      → find k n.routing_table ≡ some r
      → find k after.routing_table ≡ some (if lost r.next_hop then unreachable (aged r) else aged r)
  pub silent :
      (h : ℕ) (r : Route)
      → (1 ≤ h) × (h ≤ 4)
      → (me == h) ≡ false
      → find h n.routing_table ≡ some r
      → r.next_hop ≡ h
      → r.ttl ≤ 1
      → lost h ≡ true

-- Which next hops the handling of inactive neighbours finds lost.
abbrev lost_hop : ℕ → Node → ℕ → Bool
lost_hop me n h = leb 1 h && ltb h 5 && is_lost me n.neighbors n.routing_table h

lost_hop_silent :
    (me h : ℕ) (n : Node) (r : Route)
    → (1 ≤ h) × (h ≤ 4)
    → (me == h) ≡ false
    → find h n.routing_table ≡ some r
    → r.next_hop ≡ h
    → is_active h n ≡ false
    → lost_hop me n h ≡ true
unfolding is_lost
lost_hop_silent me h n r range other e hop inactive = ground (arith, range, other, e, hop, inactive)

-- The node once it has seen to its broadcast.
abbrev seen_to : Node → Node
seen_to n =
    if n.broadcast_to == 0 && not false && not n.pause_flag then start_broadcasting_thread n else n

tick_lem :
    (fuel : ℕ) (rand : ℕ → ℕ) (n n3 : Node)
    → unless_paused (seen_to n).pause_flag false (seen_to n) ≡ some n3
    → tick fuel rand false n ≡ some (false, count_down false n3)
unfolding tick start_up
tick_lem fuel rand n n3 ended = rw ended refl

unless_paused_lem :
    (n n2 n3 : Node)
    → n.pause_flag ≡ false
    → expire_from 4 1 false n ≡ some n2
    → inactive_neighbours_handling n2 ≡ some n3
    → unless_paused n.pause_flag false n ≡ some n3
unless_paused_lem n n2 n3 awake expired handled =
    ap (λ b. unless_paused b false n) awake ∙ rw expired handled

count_down_kept : (me : ℕ) (n : Node) → IsAwake me n → IsAwake me (count_down false n)
unfolding count_down
count_down_kept me n v = record { address = v.address; awake = v.awake; rows = v.rows }

count_down_table : (n : Node) → (count_down false n).routing_table ≡ n.routing_table
unfolding count_down
count_down_table n = refl

in_four : (k : ℕ) → (1 ≤ k) × (k ≤ 4) → in_rounds 4 1 k ≡ true
in_four k range = ground (arith, range)

lapsed :
    (h : ℕ) (r : Route) (active : Bool)
    → (1 ≤ h) × (h ≤ 4)
    → r.ttl ≤ 1
    → (if in_rounds 4 1 h && r.ttl - 1 == 0 then false else active) ≡ false
lapsed h r active range expired = ground (arith, in_four h range, expired)

pub tick-Second :
    (fuel : ℕ) (rand : ℕ → ℕ) (me : ℕ) (n : Node)
    → IsAwake me n
    → Second me n (tick fuel rand false n)
tick-Second fuel rand me n v =
    let n1 = seen_to n in
    let same : SameRoutes n n1 = broadcast-SameRoutes _ n in
    let awake1 : n1.pause_flag ≡ false = same.pause ∙ v.awake in
    let e : Aged me (in_rounds 4 1) n1 (expire_from 4 1 false n1) =
      expire_from-Aged me 4 1 n1 (omega arith) (omega arith) (same.address ∙ v.address)
        (rw same.table v.rows) in
    let (t, returns, rows, size, row) =
      inactive_neighbours_handling_lem e.after me e.address e.rows in
    let n3 : Node = record e.after { routing_table = t } in
    let old : (k : ℕ) (r : Route)
        → (1 ≤ k) × (k ≤ 4)
        → (me == k) ≡ false
        → find k n.routing_table ≡ some r
        → find k e.after.routing_table ≡ some (aged r) =
      λ k r range other e'.
        e.row k r other (ap (find k) same.table ∙ e')
        ∙ ap (λ b. some (if b then aged r else r)) (in_four k range) in
    record {
      after = count_down false n3;
      returns = tick_lem fuel rand n n3 (unless_paused_lem n1 e.after n3 awake1 e.returns returns);
      awake =
          count_down_kept me n3
            (record { address = e.address; awake = e.pause ∙ awake1; rows = rows });
      lost = lost_hop me e.after;
      row = λ k r range other e'.
          ap (find k) (count_down_table n3) ∙ row k (aged r) range (old k r range other e');
      silent = λ h r range other e' hop expired.
          lost_hop_silent me h e.after (aged r) range other (old h r range other e') hop (
            e.neighbour h r other (ap (find h) same.table ∙ e')
            ∙ lapsed h r (is_active h n1) range expired);
    }
