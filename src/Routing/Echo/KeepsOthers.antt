-- ===== src/Routing/Echo/KeepsOthers.antt =====
-- What `register_self` and `discover` do to the table: one row is written, and the others stay.
use networking_project_chat.Prelude.{
  ℕ, ◌≤◌, some, Bool, true, false, not, ◌||◌, ◌==◌, length, ◌≡◌, refl, ◌∙◌, if◌then◌else◌, arith,
  Bool-cases, inl, inr, ◌⊎◌,
}
use networking_project_chat.Prelude.Assoc.{
  find, insert_or_assign, find-insert_or_assign, length-insert_or_assign,
}
use networking_project_chat.Routing.Route.{Route, Table}
use networking_project_chat.Routing.State.{Node}
use networking_project_chat.Routing.Echo.{register_self, discover}
use networking_project_chat.Routing.Echo.Relax.{HasRows}

pub HasRows-insert_or_assign :
    (k : ℕ) (v : Route) (t : Table) → HasRows t → HasRows (insert_or_assign k v t)
HasRows-insert_or_assign k v t has j p q = elim (Bool-cases (k == j)) [
  | inl same ↦ (v, find-insert_or_assign k j v t ∙ rw same)
  | inr other ↦ let (r, e) = has j p q in (r, find-insert_or_assign k j v t ∙ rw other e)
]

-- Assigning a row that is there keeps the number of rows.
pub size-insert_or_assign :
    (k : ℕ) (v w : Route) (t : Table)
    → find k t ≡ some w
    → length (insert_or_assign k v t) ≡ length t
size-insert_or_assign k v w t e = length-insert_or_assign k v t ∙ rw e

-- The table keeps its four rows; those of numbers other than `k` are as before.
pub record KeepsOthers (k : ℕ) (t t' : Table) : Type 0 where
  pub rows : HasRows t'
  pub size : length t' ≡ length t
  pub others : (j : ℕ) → (k == j) ≡ false → find j t' ≡ find j t

KeepsOthers-refl : (k : ℕ) (t : Table) → HasRows t → KeepsOthers k t t
KeepsOthers-refl k t has = record { rows = has; size = refl; others = λ j ne. refl }

KeepsOthers-insert_or_assign :
    (k : ℕ) (v w : Route) (t : Table)
    → HasRows t
    → find k t ≡ some w
    → KeepsOthers k t (insert_or_assign k v t)
KeepsOthers-insert_or_assign k v w t has e = record {
  rows = HasRows-insert_or_assign k v t has;
  size = size-insert_or_assign k v w t e;
  others = λ j ne. find-insert_or_assign k j v t ∙ rw ne;
}

-- The node's own row when the node has entered itself.
abbrev pub own_row : ℕ → Route → Route
own_row me r = record r { next_hop = me; cost = 0; destination_node = me }

-- The node's own row is as it was, or the node has entered itself.
abbrev pub KeepsOwn : ℕ → Table → Table → Type 0
KeepsOwn me t t' =
    (r : Route) → find me t ≡ some r → (find me t' ≡ some r) ⊎ (find me t' ≡ some (own_row me r))

KeepsOwn-insert_or_assign :
    (me : ℕ) (r : Route) (t : Table)
    → find me t ≡ some r
    → KeepsOwn me t (insert_or_assign me (own_row me r) t)
KeepsOwn-insert_or_assign me r t e r' e' =
    inr (find-insert_or_assign me me (own_row me r) t ∙ ground arith)

-- The node's own row may be written, and nothing else of the node changes.
pub register_self-KeepsOthers :
    (me : ℕ) (n : Node)
    → 1 ≤ me
    → me ≤ 4
    → HasRows n.routing_table
    → (t : Table) × (register_self me n ≡ some (record n { routing_table = t }))
      × KeepsOthers me n.routing_table t
      × KeepsOwn me n.routing_table t
unfolding register_self
register_self-KeepsOthers me n p q has =
    elim (Bool-cases (not n.first_table_received || n.wait_first_echo_recv_to == 0)) [
      | inl enters ↦
          let (r, e) = has me p q in
          (
            insert_or_assign me (own_row me r) n.routing_table,
            rw (enters, e),
            KeepsOthers-insert_or_assign me _ r n.routing_table has e,
            KeepsOwn-insert_or_assign me r n.routing_table e,
          )
      | inr stays ↦
          (n.routing_table, rw stays, KeepsOthers-refl me n.routing_table has, λ r e. inl e)
    ]

-- The row of a neighbour when its echo has come.
unfoldable pub entered : ℕ → Route → Route
entered src row =
    if row.cost == 5
    then record { destination_node = src; next_hop = src; cost = 1; ttl = 40 }
    else row

pub discover-KeepsOthers :
    (fuel : ℕ) (rand : ℕ → ℕ) (me src : ℕ) (n : Node) (row : Route)
    → (src == me) ≡ false
    → HasRows n.routing_table
    → find src n.routing_table ≡ some row
    → (t : Table) × (c : Bool) × (discover fuel rand me src n
        ≡ some (record n { routing_table = t }, c))
      × KeepsOthers src n.routing_table t
      × (find src t ≡ some (entered src row))
unfolding discover entered
discover-KeepsOthers fuel rand me src n row ne has e = elim (Bool-cases (row.cost == 5)) [
  | inl new ↦ (
    insert_or_assign src (record { destination_node = src; next_hop = src; cost = 1; ttl = 40 })
        n.routing_table,
    true,
    ground (arith, e),
    KeepsOthers-insert_or_assign src _ row n.routing_table has e,
    ground (
      arith,
      find-insert_or_assign src src
          (record { destination_node = src; next_hop = src; cost = 1; ttl = 40 }) n.routing_table,
    ),
  )
  | inr known ↦ (
    n.routing_table,
    false,
    ground (arith, e),
    KeepsOthers-refl src n.routing_table has,
    ground (arith, e),
  )
]
