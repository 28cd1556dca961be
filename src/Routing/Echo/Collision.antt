-- ===== src/Routing/Echo/Collision.antt =====
-- `register_echo` on the echo of a node with the same address, at a node that has had a table.
use networking_project_chat.Prelude.{
  ℕ, ◌+◌, ◌%◌, ◌≤◌, ◌<◌, List, Option, some, true, false, ◌==◌, ◌≡◌, refl, ap, sym, ◌∙◌, arith,
  ◌>>=◌, ◌||◌, if◌then◌else◌,
}
use mathlib.Core.Path.{subst}
use networking_project_chat.Prelude.Assoc.{find, insert_or_assign, find-insert_or_assign}
use networking_project_chat.Packet.{Header, extract_header}
use networking_project_chat.Addressing.{Addressing, in_use, get_my_addr, gen_random_addr}
use networking_project_chat.Addressing.Choice.{IsKeptOrFree, gen_random_addr-KeepsOrFree}
use networking_project_chat.Routing.Route.{Route, Table}
use networking_project_chat.Routing.State.{Node, register_active_neighbour}
use networking_project_chat.Routing.Table.{process_payload}
use networking_project_chat.Routing.Echo.{discover, handle_collision, register_echo}
use networking_project_chat.Routing.Echo.Relax.{HasRows, relaxed, replaces}
use networking_project_chat.Routing.Echo.KeepsOthers.{
  HasRows-insert_or_assign, register_self-KeepsOthers,
}
use networking_project_chat.Routing.Echo.SameRoutes.{get_my_addr_lem}
use networking_project_chat.Routing.Echo.Neighbour.{
  rest_of_echo, rest_of_echo-Rested, register_echo_lem,
}

-- The row of a node for itself, and for a neighbour.
abbrev pub at_home : ℕ → Route
at_home addr = record { destination_node = addr; next_hop = addr; cost = 0; ttl = 40 }

abbrev pub next_door : ℕ → Route
next_door addr = record { destination_node = addr; next_hop = addr; cost = 1; ttl = 40 }

-- The table once the node has address `addr`, and the other has `me`.
abbrev parted : ℕ → ℕ → Table → Table
parted me addr t = insert_or_assign me (next_door me) (insert_or_assign addr (at_home addr) t)

-- What `handle_collision` does at a node that has had a table, once it has chosen an address.
abbrev settled : Node → ℕ × Addressing → Option Node
settled n (addr, a) = do
  r ← find addr n.routing_table
  some (record n {
    addressing = a;
    routing_table = insert_or_assign addr (at_home addr) n.routing_table;
  })

abbrev recovered : ℕ → (ℕ → ℕ) → Node → Option Node
recovered fuel rand n =
    gen_random_addr false fuel rand n.addressing >>= λ a. settled n (get_my_addr a)

handle_collision_lem :
    (fuel : ℕ) (rand : ℕ → ℕ) (n : Node) (a : Addressing) (addr : ℕ) (r : Route)
    → n.first_table_received ≡ true
    → gen_random_addr false fuel rand n.addressing ≡ some a
    → a.addr_file ≡ some addr
    → find addr n.routing_table ≡ some r
    → handle_collision fuel rand n
      ≡ some (record n {
        addressing = record a { addr_file = some addr };
        routing_table = insert_or_assign addr (at_home addr) n.routing_table;
      })
unfolding handle_collision
handle_collision_lem fuel rand n a addr r received chosen file e =
    ap (λ b. if b then recovered fuel rand n else some n) received
    ∙ ap (λ o. o >>= λ a. settled n (get_my_addr a)) chosen
    ∙ ap (settled n) (get_my_addr_lem a addr file)
    ∙ rw e refl

discover_collision :
    (fuel : ℕ) (rand : ℕ → ℕ) (me : ℕ) (n n' : Node) (r r' : Route)
    → find me n.routing_table ≡ some r
    → handle_collision fuel rand n ≡ some n'
    → find me n'.routing_table ≡ some r'
    → discover fuel rand me me n
      ≡ some
          (record n' { routing_table = insert_or_assign me (next_door me) n'.routing_table }, true)
unfolding discover
discover_collision fuel rand me n n' r r' e collided e' =
    let self : (me == me) ≡ true = ground arith in
    let enters : (r.cost == 5 || me == me) ≡ true = ground arith in
    rw (e, enters, self, collided, e') refl

-- The new own row is not changed by what the other offers.
home_stays : (src addr : ℕ) (offered : Route) → relaxed src offered (at_home addr) ≡ at_home addr
unfolding relaxed replaces
home_stays src addr offered = ground arith

-- The node after the collision: its address, and the rows for it and for the old one.
pub record Parted (me addr : ℕ) (n : Node) (out : Option Node) : Type 0 where
  pub after : Node
  pub returns : out ≡ some after
  pub address : after.addressing.addr_file ≡ some addr
  pub choice : IsKeptOrFree n.addressing me addr
  pub rows : HasRows after.routing_table
  pub neighbour : find me after.routing_table ≡ some (next_door me)
  pub home : (me == addr) ≡ false → find addr after.routing_table ≡ some (at_home addr)

find-parted :
    (me addr : ℕ) (t : Table)
    → (me == addr) ≡ false
    → find addr (parted me addr t) ≡ some (at_home addr)
find-parted me addr t other =
    find-insert_or_assign me addr (next_door me) (insert_or_assign addr (at_home addr) t)
    ∙ rw other (find-insert_or_assign addr addr (at_home addr) t ∙ ground arith)

find-parted_old : (me addr : ℕ) (t : Table) → find me (parted me addr t) ≡ some (next_door me)
find-parted_old me addr t =
    find-insert_or_assign me me (next_door me) (insert_or_assign addr (at_home addr) t)
    ∙ ground arith

IsKeptOrFree-range :
    (a : Addressing) (me addr : ℕ)
    → (1 ≤ me) × (me ≤ 4)
    → IsKeptOrFree a me addr
    → (1 ≤ addr) × (addr ≤ 4)
IsKeptOrFree-range a me addr range choice = ground (arith, choice)

module _ (fuel : ℕ) (rand : ℕ → ℕ) (payload : List ℕ) (n : Node) (me j : ℕ) (h : Header)
    (recv : Table) (file : n.addressing.addr_file ≡ some me) (range : (1 ≤ me) × (me ≤ 4))
    (has : HasRows n.routing_table) (received : n.first_table_received ≡ true)
    (header : extract_header payload ≡ some h) (table : process_payload payload ≡ some recv)
    (offers : HasRows recv) (collides : h.source_address ≡ me) (enough : j < fuel)
    (draw : in_use n.addressing (rand (1 + j) % 4 + 1) ≡ false) where
  -- At a node with an address `me` from 1 to 4 and a row for each of the four numbers, that has had a
  -- table, when an echo with four rows has come from another node with the same address, and one of the
  -- draws of random numbers gives an address that is not in use, with fuel for it: `register_echo` returns,
  -- and the node has an address that is `me` still, or one from 1 to 4 that was not in use. The row for
  -- `me` is that of a neighbour at cost 1, also when the node has kept that address. When the address is
  -- another, its row is the node's own at cost 0, whatever the echo offers for it.
  pub register_echo-Parted : (addr : ℕ) × Parted me addr n (register_echo fuel rand payload n)
  unfolding register_active_neighbour
  register_echo-Parted =
      let n0 : Node = record n { addressing = record n.addressing { addr_file = some me } } in
      let (t1, es, self, own) = register_self-KeepsOthers me n0 range.0 range.1 has in
      let n1 : Node = record n0 { routing_table = t1 } in
      let n2 : Node = register_active_neighbour me n1 in
      let (a, addr, chosen, file', choice) =
        gen_random_addr-KeepsOrFree false fuel rand n2.addressing me j refl enough draw in
      let within = IsKeptOrFree-range n2.addressing me addr range choice in
      let (r, er) = self.rows me range.0 range.1 in
      let (r', er') = self.rows addr within.0 within.1 in
      let collided = handle_collision_lem fuel rand n2 a addr r' received chosen file' er' in
      let rows1 = HasRows-insert_or_assign addr (at_home addr) t1 self.rows in
      let (r'', er'') = rows1 me range.0 range.1 in
      let found = discover_collision fuel rand me n2 _ r r'' er collided er'' in
      let n3 : Node = record n2 {
        addressing = record a { addr_file = some addr };
        routing_table = parted me addr t1;
      } in
      let rows2 = HasRows-insert_or_assign me (next_door me) _ rows1 in
      let final = rest_of_echo-Rested me me recv n3 true offers rows2 in
      (
        addr,
        record {
          after = final.after;
          returns =
              register_echo_lem fuel rand payload n me h recv n1 (n3, true) header table file es
                (subst
                  (λ k. discover fuel rand me k (register_active_neighbour k n1) ≡ some (n3, true))
                  (sym collides) found)
              ∙ ap (λ k. rest_of_echo me k recv (n3, true)) collides
              ∙ final.returns;
          address = final.address;
          choice = choice;
          rows = final.rows;
          neighbour = final.own ∙ find-parted_old me addr t1;
          home = λ other.
              let (offered, eo) = offers addr within.0 within.1 in
              final.row addr offered (at_home addr) within other eo (find-parted me addr t1 other)
              ∙ ap some (home_stays me addr offered);
        },
      )
