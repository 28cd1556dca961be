-- ===== src/Routing/Tick/Stages.antt =====
-- The parts of a round of `tick`, at a node that has its address and keeps a property of its rows.
use mathlib.Core.Path.{subst}
use networking_project_chat.Prelude.{
  sym, ℕ, zero, suc, ◌+◌, ◌-◌, ◌≤◌, Option, some, Bool, true, false, not, ◌==◌, ◌≡◌, refl, ap, ◌∙◌,
  inl, inr, arith, length, if◌then◌else◌, Bool-cases, ◌>>=◌,
}
use networking_project_chat.Prelude.Assoc.{find, insert_or_assign, find-insert_or_assign}
use networking_project_chat.Routing.Route.{Route}
use networking_project_chat.Routing.State.{Node}
use networking_project_chat.Routing.Tick.{
  lapse, check_myself, expire_row, expire_from, inactive_neighbours_handling,
}
use networking_project_chat.Routing.Tick.Inactive.{unreachable, inactive_neighbours_handling_lem}
use networking_project_chat.Routing.Echo.KeepsOthers.{
  HasRows-insert_or_assign, size-insert_or_assign,
}
use networking_project_chat.Routing.Echo.SameRoutes.{SameRoutes}
use networking_project_chat.Routing.Rows.{
  HoldsRows, IsRunningWith, ClockLaws, HoldsRows-find, insert_or_assign-HoldsRows,
}

lapse-SameRoutes : (i ttl : ℕ) (n : Node) → SameRoutes n (lapse i ttl n)
unfolding lapse
lapse-SameRoutes i ttl n = elim (Bool-cases (ttl == 0)) [
  | inl now ↦ rw now (record { table = refl; address = refl; wait = refl; pause = refl })
  | inr later ↦ rw later (record { table = refl; address = refl; wait = refl; pause = refl })
]

-- The part of a round that a pause skips.
abbrev pub unless_paused : Bool → Bool → Node → Option Node
unless_paused paused first_run n =
    if not paused
    then (do n ← expire_from 4 1 first_run n; inactive_neighbours_handling n)
    else some n

module _ (P : ℕ → Route → Type 0) (me : ℕ) (laws : ClockLaws me P) where
  pub SameRoutes-IsRunningWith :
      {n n' : Node} → SameRoutes n n' → IsRunningWith P me n → IsRunningWith P me n'
  SameRoutes-IsRunningWith same v = record {
    address = same.address ∙ v.address;
    rows = rw same.table v.rows;
    holds = rw same.table v.holds;
  }

  -- A part of a round: it returns, the node is running still, and its first wait and the number of its
  -- rows are as they were.
  pub record Stage (n : Node) (out : Option Node) : Type 0 where
    pub after : Node
    pub returns : out ≡ some after
    pub running : IsRunningWith P me after
    pub wait : after.wait_first_echo_recv_to ≡ n.wait_first_echo_recv_to
    pub size : length after.routing_table ≡ length n.routing_table

  check_myself-IsRunningWith :
      (i : ℕ) (r : Route) (n : Node)
      → P i r
      → IsRunningWith P me n
      → IsRunningWith P me (check_myself i r n)
  unfolding check_myself
  check_myself-IsRunningWith i r n good v = elim (Bool-cases (i == me)) [
    | inl own ↦
        let same : i ≡ me = ground (arith, own) in
        rw v.address (
          rw own (record {
            address = refl;
            rows = HasRows-insert_or_assign i (record r { cost = 0 }) n.routing_table v.rows;
            holds =
                insert_or_assign-HoldsRows P i (record r { cost = 0 }) n.routing_table
                  (subst (λ k. P k (record r { cost = 0 })) (sym same)
                    (laws.own r (subst (λ k. P k r) same good)))
                  v.holds;
          }))
    | inr other ↦
        rw v.address (rw other (record { address = refl; rows = v.rows; holds = v.holds }))
  ]

  check_myself_wait :
      (i : ℕ) (r : Route) (n : Node)
      → (check_myself i r n).wait_first_echo_recv_to ≡ n.wait_first_echo_recv_to
  unfolding check_myself
  check_myself_wait i r n = refl

  check_myself_size :
      (i : ℕ) (r w : Route) (n : Node)
      → n.addressing.addr_file ≡ some me
      → find i n.routing_table ≡ some w
      → length (check_myself i r n).routing_table ≡ length n.routing_table
  unfolding check_myself
  check_myself_size i r w n file e = elim (Bool-cases (i == me)) [
    | inl own ↦ rw (file, own) (size-insert_or_assign i (record r { cost = 0 }) w n.routing_table e)
    | inr other ↦ rw (file, other) refl
  ]

  expire_row-Stage :
      (first_run : Bool) (i : ℕ) (n : Node)
      → 1 ≤ i
      → i ≤ 4
      → IsRunningWith P me n
      → Stage n (expire_row first_run i n)
  unfolding expire_row
  expire_row-Stage first_run i n p q v =
      let (r, e) = v.rows i p q in
      let aged : Route = record r { ttl = r.ttl - 1 } in
      let young : P i aged =
        laws.aged i r (HoldsRows-find P i r n.routing_table v.holds (p, q) e) in
      let n1 : Node = record n { routing_table = insert_or_assign i aged n.routing_table } in
      let n2 : Node = lapse i aged.ttl n1 in
      let same : SameRoutes n1 n2 = lapse-SameRoutes i aged.ttl n1 in
      let size = ap length same.table ∙ size-insert_or_assign i aged r n.routing_table e in
      let running : IsRunningWith P me n2 = SameRoutes-IsRunningWith same (record {
        address = v.address;
        rows = HasRows-insert_or_assign i aged n.routing_table v.rows;
        holds = insert_or_assign-HoldsRows P i aged n.routing_table young v.holds;
      }) in
      elim (Bool-cases first_run) [
        | inl first ↦ record {
          after = n2;
          returns = rw (e, first);
          running = running;
          wait = same.wait;
          size = size;
        }
        | inr later ↦ record {
          after = check_myself i aged n2;
          returns = rw (e, later);
          running = check_myself-IsRunningWith i aged n2 young running;
          wait = check_myself_wait i aged n2 ∙ same.wait;
          size =
              check_myself_size i aged aged n2 running.address (
                ap (find i) same.table
                ∙ find-insert_or_assign i i aged n.routing_table
                ∙ ground arith)
              ∙ size;
        }
      ]

  expire_from-Stage :
      (first_run : Bool) (left i : ℕ) (n : Node)
      → 1 ≤ i
      → i + left ≤ 5
      → IsRunningWith P me n
      → Stage n (expire_from left i first_run n)
  unfolding expire_from
  expire_from-Stage first_run zero i n p q v = record {
    after = n;
    returns = refl;
    running = v;
    wait = refl;
    size = refl;
  }
  expire_from-Stage first_run (suc left) i n p q v =
      let one = expire_row-Stage first_run i n p (omega arith) v in
      let rest =
        expire_from-Stage first_run left (i + 1) one.after (omega arith) (omega arith)
          one.running in
      record {
        after = rest.after;
        returns = rw (one.returns, rest.returns);
        running = rest.running;
        wait = rest.wait ∙ one.wait;
        size = rest.size ∙ one.size;
      }

  unreachable-holds :
      (lost : Bool) (j : ℕ) (r : Route) → P j r → P j (if lost then unreachable r else r)
  unreachable-holds true j r good = laws.lost j r good
  unreachable-holds false j r good = good

  handling-Stage : (n : Node) → IsRunningWith P me n → Stage n (inactive_neighbours_handling n)
  handling-Stage n v =
      let (t, returns, rows, size, row) = inactive_neighbours_handling_lem n me v.address v.rows in
      let handled : HoldsRows P t = λ j range.
        let (r, e) = v.rows j range.0 range.1 in
        rw (row j r range e)
          (unreachable-holds _ j r (HoldsRows-find P j r n.routing_table v.holds range e)) in
      record {
        after = record n { routing_table = t };
        returns = returns;
        running = record { address = v.address; rows = rows; holds = handled };
        wait = refl;
        size = size;
      }

  pub unless_paused-Stage :
      (paused first_run : Bool) (n : Node)
      → IsRunningWith P me n
      → Stage n (unless_paused paused first_run n)
  unless_paused-Stage true first_run n v = record {
    after = n;
    returns = refl;
    running = v;
    wait = refl;
    size = refl;
  }
  unless_paused-Stage false first_run n v =
      let expired = expire_from-Stage first_run 4 1 n (omega arith) (omega arith) v in
      let handled = handling-Stage expired.after expired.running in
      record {
        after = handled.after;
        returns = rw expired.returns handled.returns;
        running = handled.running;
        wait = handled.wait ∙ expired.wait;
        size = handled.size ∙ expired.size;
      }
