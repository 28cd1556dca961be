-- ===== src/Routing/Echo/Neighbour.antt =====
-- `register_echo` on the echo of a neighbour with another address: it ends, and improves the table.
use native.Mathlib.Decide.{ℕ_discrete}
use mathlib.Core.Logic.{⊎_elim}
use networking_project_chat.Prelude.{
  ℕ, ◌≤◌, List, Option, some, Bool, true, false, ◌==◌, length, ◌≡◌, ap, sym, ◌∙◌, if◌then◌else◌,
  arith, ◌>>=◌, inl, inr,
}
use networking_project_chat.Prelude.Assoc.{find}
use networking_project_chat.Packet.{Header, extract_header}
use networking_project_chat.Addressing.{update_connected_nodes_list_from_rt}
use networking_project_chat.Routing.Route.{Route, Table}
use networking_project_chat.Routing.State.{
  Node, register_active_neighbour, start_broadcasting_thread,
}
use networking_project_chat.Routing.Table.{process_payload}
use networking_project_chat.Routing.Echo.{
  register_self, discover, relax_from, publish_from, register_echo,
}
use networking_project_chat.Routing.Echo.Relax.{
  HasRows, relaxed, Rounds, relax_from-Rounds, row_after,
}
use networking_project_chat.Routing.Echo.KeepsOthers.{
  KeepsOthers, KeepsOwn, register_self-KeepsOthers, entered, discover-KeepsOthers,
}
use networking_project_chat.Routing.Echo.SameRoutes.{
  SameRoutes, addr_file-update, get_my_addr_lem, broadcast-SameRoutes, published-SameRoutes,
}

Rounds-HasRows :
    (me src : ℕ) (recv t : Table) (c : Bool) (out : Option (Table × Bool))
    (loop : Rounds me src recv 1 5 (t, c) out)
    → HasRows recv
    → HasRows t
    → HasRows loop.table
Rounds-HasRows me src recv t c out loop offers has j p q =
    let (offered, o) = offers j p q in
    let (row, r) = has j p q in
    (if me == j then row else relaxed src offered row, loop.rows j ∙ ground (arith, o, r))

-- What the table says of a destination, after the echo of `src` with the offers `recv`.
abbrev pub start_row : ℕ → ℕ → Route → Route
start_row src j row = if src == j then entered src row else row

-- What `register_echo` does once the row of the sender is there.
abbrev pub rest_of_echo : ℕ → ℕ → Table → Node × Bool → Option Node
rest_of_echo me src recv (n, discovered) = do
  (table, changes) ← relax_from 4 1 me src recv (n.routing_table, discovered)
  let n : Node = record n { routing_table = table }
  n ← if changes then publish_from 4 1 n else some n
  let n : Node = record n {
    addressing = update_connected_nodes_list_from_rt table n.addressing;
    first_table_received = true;
  }
  some (if changes then start_broadcasting_thread n else n)

pub register_echo_lem :
    (fuel : ℕ) (rand : ℕ → ℕ) (payload : List ℕ) (n : Node) (me : ℕ) (h : Header) (recv : Table)
    (n1 : Node) (found : Node × Bool)
    → extract_header payload ≡ some h
    → process_payload payload ≡ some recv
    → n.addressing.addr_file ≡ some me
    → register_self me (record n { addressing = record n.addressing { addr_file = some me } })
      ≡ some n1
    → discover fuel rand me h.source_address (register_active_neighbour h.source_address n1)
      ≡ some found
    → register_echo fuel rand payload n ≡ rest_of_echo me h.source_address recv found
unfolding register_echo
register_echo_lem fuel rand payload n me h recv n1 found eh et ea es ed =
    rw (eh, et, get_my_addr_lem n.addressing me ea, es, ed)

-- The node after the rest of an echo: its routes are those of the loop, and its address is kept.
pub record Rested (me src : ℕ) (recv : Table) (n : Node) (c : Bool) (out : Option Node)
    : Type 0 where
  pub after : Node
  pub returns : out ≡ some after
  pub address : after.addressing.addr_file ≡ n.addressing.addr_file
  pub pause : after.pause_flag ≡ n.pause_flag
  pub rows : HasRows after.routing_table
  pub size : length after.routing_table ≡ length n.routing_table
  pub own : find me after.routing_table ≡ find me n.routing_table
  pub row :
      (j : ℕ) (offered row : Route)
      → (1 ≤ j) × (j ≤ 4)
      → (me == j) ≡ false
      → find j recv ≡ some offered
      → find j n.routing_table ≡ some row
      → find j after.routing_table ≡ some (relaxed src offered row)

-- The node at the end of `register_echo`, from the node `n3` that has published the new table `t`.
abbrev finished : Table → Bool → Node → Node
finished t c n3 =
    let n4 : Node = record n3 {
      addressing = update_connected_nodes_list_from_rt t n3.addressing;
      first_table_received = true;
    } in
    if c then start_broadcasting_thread n4 else n4

finished-SameRoutes : (t : Table) (c : Bool) (n3 : Node) → SameRoutes n3 (finished t c n3)
finished-SameRoutes t c n3 =
    let kept = broadcast-SameRoutes c _ in
    record {
      table = kept.table;
      address = kept.address ∙ addr_file-update t n3.addressing;
      wait = kept.wait;
      pause = kept.pause;
    }

row_after-relaxed :
    (me src j : ℕ) (recv t : Table) (offered row : Route)
    → (1 ≤ j) × (j ≤ 4)
    → (me == j) ≡ false
    → find j recv ≡ some offered
    → find j t ≡ some row
    → row_after me src recv 1 5 t j ≡ some (relaxed src offered row)
row_after-relaxed me src j recv t offered row (p, q) ne o r = ground (arith, p, q, ne, o, r)

row_after-own : (me src : ℕ) (recv t : Table) → row_after me src recv 1 5 t me ≡ find me t
row_after-own me src recv t = ground arith

rest_of_echo_returns :
    (me src : ℕ) (recv t : Table) (n n3 : Node) (c changes : Bool)
    → relax_from 4 1 me src recv (n.routing_table, c) ≡ some (t, changes)
    → (if changes
        then publish_from 4 1 (record n { routing_table = t })
        else some (record n { routing_table = t }))
      ≡ some n3
    → rest_of_echo me src recv (n, c) ≡ some (finished t changes n3)
rest_of_echo_returns me src recv t n n3 c changes e p = rw (e, p)

pub rest_of_echo-Rested :
    (me src : ℕ) (recv : Table) (n : Node) (c : Bool)
    → HasRows recv
    → HasRows n.routing_table
    → Rested me src recv n c (rest_of_echo me src recv (n, c))
rest_of_echo-Rested me src recv n c offers has =
    let loop : Rounds me src recv 1 5 (n.routing_table, c)
        (relax_from 4 1 me src recv (n.routing_table, c)) =
      relax_from-Rounds me src recv 4 1 n.routing_table c offers has (omega arith) (omega arith) in
    let rows = Rounds-HasRows me src recv n.routing_table c _ loop offers has in
    let (n3, published, same) =
      published-SameRoutes loop.changes (record n { routing_table = loop.table }) rows in
    let kept = finished-SameRoutes loop.table loop.changes n3 in
    let table = kept.table ∙ same.table in
    record {
      after = finished loop.table loop.changes n3;
      returns =
          rest_of_echo_returns me src recv loop.table n n3 c loop.changes loop.returns published;
      address = kept.address ∙ same.address;
      pause = kept.pause ∙ same.pause;
      rows = rw table rows;
      size = ap length table ∙ loop.size;
      own = ap (find me) table ∙ loop.rows me ∙ row_after-own me src recv n.routing_table;
      row = λ j offered row range ne o r.
          ap (find j) table
          ∙ loop.rows j
          ∙ row_after-relaxed me src j recv n.routing_table offered row range ne o r;
    }

-- What the echo of `src` with the offers `recv` makes of the node `n`: the node returns, keeps its
-- address, its pause and the number of its rows, keeps or enters its own row, and relaxes that of each other
-- destination.
pub record Outcome (me src : ℕ) (recv : Table) (n : Node) (out : Option Node) : Type 0 where
  pub after : Node
  pub returns : out ≡ some after
  pub address : after.addressing.addr_file ≡ some me
  pub pause : after.pause_flag ≡ n.pause_flag
  pub rows : HasRows after.routing_table
  pub size : length after.routing_table ≡ length n.routing_table
  pub own : KeepsOwn me n.routing_table after.routing_table
  pub row :
      (j : ℕ) (offered row : Route)
      → (1 ≤ j) × (j ≤ 4)
      → (me == j) ≡ false
      → find j recv ≡ some offered
      → find j n.routing_table ≡ some row
      → find j after.routing_table ≡ some (relaxed src offered (start_row src j row))

-- The table when the rounds begin.
find-start_row :
    (me src j : ℕ) (row : Route) (t t1 t2 : Table)
    → (me == j) ≡ false
    → (self : KeepsOthers me t t1) → KeepsOthers src t1 t2
    → ((r : Route) → find src t1 ≡ some r → find src t2 ≡ some (entered src r))
    → find j t ≡ some row
    → find j t2 ≡ some (start_row src j row)
find-start_row me src j row t t1 t2 ne self found here e =
    let before : find j t1 ≡ some row = self.others j ne ∙ e in
    elim (ℕ_discrete j src) [
      | yes same ↦
          ap (λ k. find k t2) same
          ∙ here row (ap (λ k. find k t1) (sym same) ∙ before)
          ∙ ground (arith, same)
      | no other ↦ found.others j (ground (arith, other)) ∙ before ∙ ground (arith, other)
    ]

pub register_echo-Outcome :
    (fuel : ℕ) (rand : ℕ → ℕ) (payload : List ℕ) (n : Node) (me : ℕ) (h : Header) (recv : Table)
    → n.addressing.addr_file ≡ some me
    → (1 ≤ me) × (me ≤ 4)
    → HasRows n.routing_table
    → extract_header payload ≡ some h
    → process_payload payload ≡ some recv
    → HasRows recv
    → (1 ≤ h.source_address) × (h.source_address ≤ 4)
    → (h.source_address == me) ≡ false
    → Outcome me h.source_address recv n (register_echo fuel rand payload n)
unfolding register_active_neighbour
register_echo-Outcome fuel rand payload n me h recv ea (p, q) has eh et offers (p', q') ne =
    let src = h.source_address in
    let n0 : Node = record n { addressing = record n.addressing { addr_file = some me } } in
    let (t1, es, self, own) = register_self-KeepsOthers me n0 p q has in
    let n1 : Node = record n0 { routing_table = t1 } in
    let (row, er) = self.rows src p' q' in
    let n2 : Node = register_active_neighbour src n1 in
    let (t2, c, ed, found, here) = discover-KeepsOthers fuel rand me src n2 row ne self.rows er in
    let final =
      rest_of_echo-Rested me src recv (record n2 { routing_table = t2 }) c offers found.rows in
    record {
      after = final.after;
      returns = register_echo_lem fuel rand payload n me h recv n1 _ eh et ea es ed ∙ final.returns;
      address = final.address;
      pause = final.pause;
      rows = final.rows;
      size = final.size ∙ found.size ∙ self.size;
      own = λ r e.
          let kept = final.own ∙ found.others me ne in
          ⊎_elim (λ same. inl (kept ∙ same)) (λ entered. inr (kept ∙ entered)) (own r e);
      row = λ j offered r range ne' o e. final.row j offered (start_row src j r) range ne' o (
          find-start_row me src j r n.routing_table t1 t2 ne' self found
            (λ r' e'. here ∙ ap (λ o. o >>= (λ x. some (entered src x))) (sym er ∙ e')) e);
    }
