-- ===== src/Routing/Tick/Ageing.antt =====
-- What a round of `tick` does to the row of another node, and to what the node knows of its neighbours.
use networking_project_chat.Prelude.{
  ℕ, ◌-◌, ◌≤◌, Option, some, Bool, true, false, ◌&&◌, ◌==◌, ◌≡◌, refl, ap, ◌∙◌, inl, inr, arith,
  if◌then◌else◌, Bool-cases,
}
use networking_project_chat.Prelude.Assoc.{find, insert_or_assign, find-insert_or_assign, at_or}
use networking_project_chat.Routing.Route.{Route, Table}
use networking_project_chat.Routing.State.{Node, put_neighbour_as_inactive, notify_unreachable_node}
use networking_project_chat.Routing.Tick.{lapse, check_myself, expire_row}
use networking_project_chat.Routing.Echo.Relax.{HasRows}
use networking_project_chat.Routing.Echo.KeepsOthers.{HasRows-insert_or_assign}

abbrev pub is_active : ℕ → Node → Bool
is_active k n = at_or false (find k n.neighbors)

abbrev pub aged : Route → Route
aged r = record r { ttl = r.ttl - 1 }

-- The rows that are looked at are in the range that `ages` tells.
module _ (me : ℕ) (ages : ℕ → Bool) where
  pub record Aged (n : Node) (out : Option Node) : Type 0 where
    pub after : Node
    pub returns : out ≡ some after
    pub address : after.addressing.addr_file ≡ some me
    pub pause : after.pause_flag ≡ n.pause_flag
    pub rows : HasRows after.routing_table
    pub row :
        (k : ℕ) (r : Route)
        → (me == k) ≡ false
        → find k n.routing_table ≡ some r
        → find k after.routing_table ≡ some (if ages k then aged r else r)
    pub neighbour :
        (k : ℕ) (r : Route)
        → (me == k) ≡ false
        → find k n.routing_table ≡ some r
        → is_active k after ≡ (if ages k && r.ttl - 1 == 0 then false else is_active k n)

lapse_active :
    (i ttl k : ℕ) (n : Node)
    → is_active k (lapse i ttl n) ≡ (if i == k && ttl == 0 then false else is_active k n)
unfolding lapse notify_unreachable_node put_neighbour_as_inactive
lapse_active i ttl k n = ground (arith, find-insert_or_assign i k false n.neighbors)

lapse_table : (i ttl : ℕ) (n : Node) → (lapse i ttl n).routing_table ≡ n.routing_table
unfolding lapse notify_unreachable_node put_neighbour_as_inactive
lapse_table i ttl n = ground arith

check_myself_other :
    (i k me : ℕ) (r : Route) (n : Node)
    → n.addressing.addr_file ≡ some me
    → (me == k) ≡ false
    → find k (check_myself i r n).routing_table ≡ find k n.routing_table
unfolding check_myself
check_myself_other i k me r n file other = elim (Bool-cases (i == me)) [
  | inl own ↦
      rw (file, own)
        (find-insert_or_assign i k (record r { cost = 0 }) n.routing_table
          ∙ ground (arith, own, other))
  | inr apart ↦ rw (file, apart) refl
]

lapse_kept :
    (i ttl : ℕ) (n : Node)
    → ((lapse i ttl n).addressing.addr_file ≡ n.addressing.addr_file)
      × ((lapse i ttl n).pause_flag ≡ n.pause_flag)
unfolding lapse notify_unreachable_node put_neighbour_as_inactive
lapse_kept i ttl n = (ground arith, ground arith)

check_myself_kept :
    (i me : ℕ) (r : Route) (n : Node)
    → n.addressing.addr_file ≡ some me
    → HasRows n.routing_table
    → ((check_myself i r n).addressing.addr_file ≡ some me)
      × ((check_myself i r n).pause_flag ≡ n.pause_flag)
      × ((check_myself i r n).neighbors ≡ n.neighbors)
      × HasRows (check_myself i r n).routing_table
unfolding check_myself
check_myself_kept i me r n file has = (rw file refl, refl, refl, rows)
  where
    rows : HasRows (check_myself i r n).routing_table
    rows = elim (Bool-cases (i == me)) [
      | inl own ↦ rw (file, own) (HasRows-insert_or_assign i _ n.routing_table has)
      | inr apart ↦ rw (file, apart) has
    ]

same_row :
    (i k : ℕ) (t : Table) (r w : Route)
    → (i == k) ≡ true
    → find i t ≡ some r
    → find k t ≡ some w
    → r ≡ w
same_row i k t r w same e e' = let is : i ≡ k = ground (arith, same) in cc

aged_here :
    (i k : ℕ) (t : Table) (r w : Route)
    → find i t ≡ some r
    → find k t ≡ some w
    → (if i == k then some (aged r) else find k t) ≡ some (if i == k then aged w else w)
aged_here i k t r w e e' = elim (Bool-cases (i == k)) [
  | inl same ↦ rw same (ap (λ x. some (aged x)) (same_row i k t r w same e e'))
  | inr apart ↦ rw apart e'
]

lapsed_here :
    (i k : ℕ) (t : Table) (r w : Route) (active : Bool)
    → find i t ≡ some r
    → find k t ≡ some w
    → (if i == k && r.ttl - 1 == 0 then false else active)
      ≡ (if i == k && w.ttl - 1 == 0 then false else active)
lapsed_here i k t r w active e e' = elim (Bool-cases (i == k)) [
  | inl same ↦
      rw same (ap (λ x. if x.ttl - 1 == 0 then false else active) (same_row i k t r w same e e'))
  | inr apart ↦ rw apart refl
]

-- One round of the loop over the rows.
pub expire_row-Aged :
    (me i : ℕ) (n : Node)
    → 1 ≤ i
    → i ≤ 4
    → n.addressing.addr_file ≡ some me
    → HasRows n.routing_table
    → Aged me (λ k. i == k) n (expire_row false i n)
unfolding expire_row
expire_row-Aged me i n p q file has =
    let (r, e) = has i p q in
    let n1 : Node = record n { routing_table = insert_or_assign i (aged r) n.routing_table } in
    let n2 : Node = lapse i (r.ttl - 1) n1 in
    let table = lapse_table i (r.ttl - 1) n1 in
    let (file2, pause2) = lapse_kept i (r.ttl - 1) n1 in
    let rows2 : HasRows n2.routing_table =
      rw table (HasRows-insert_or_assign i (aged r) n.routing_table has) in
    let (file3, pause3, same3, rows3) = check_myself_kept i me (aged r) n2 (file2 ∙ file) rows2 in
    record {
      after = check_myself i (aged r) n2;
      returns = rw e refl;
      address = file3;
      pause = pause3 ∙ pause2;
      rows = rows3;
      row = λ k w other e'.
          check_myself_other i k me (aged r) n2 (file2 ∙ file) other
          ∙ ap (find k) table
          ∙ find-insert_or_assign i k (aged r) n.routing_table
          ∙ aged_here i k n.routing_table r w e e';
      neighbour = λ k w other e'.
          ap (λ nb. at_or false (find k nb)) same3
          ∙ lapse_active i (r.ttl - 1) k n1
          ∙ lapsed_here i k n.routing_table r w (is_active k n) e e';
    }
