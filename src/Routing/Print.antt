-- ===== src/Routing/Print.antt =====
-- What print_table of src/backend/routing/VectorRoutingProtocol.cpp shows of a table: a line for a row, with
-- whether it is the node's own. And predict_next_hop.
use networking_project_chat.Prelude.{
  ℕ, zero, suc, ◌+◌, ◌≤◌, ◌<◌, ◌≡◌, refl, List, [], ◌∷◌, ◌++◌, Option, none, some, Bool, ◌==◌,
  arith, length, ◌>>=◌,
}
use networking_project_chat.Prelude.Assoc.{find}
use networking_project_chat.Addressing.{Addressing, get_my_addr}
use networking_project_chat.Packet.{Header}
use networking_project_chat.Routing.Route.{Route, Table}
use networking_project_chat.Routing.State.{Node}

pub record Line : Type 0 where
  pub own : Bool
  pub node : ℕ
  pub cost : ℕ
  pub next_hop : ℕ

-- The line for number `i`, if it has a row. The address is read for each line.
unfoldable pub print_row : ℕ → Option Route → Addressing → List Line × Addressing
unfolding get_my_addr
print_row i none a = ([], a)
print_row i (some r) a =
    let (my_addr, a) = get_my_addr a in
    (
      record { own = i == my_addr; node = r.destination_node; cost = r.cost; next_hop = r.next_hop }
          ∷ [],
      a,
    )

-- The loop of `print_table` from `i` on, with that many rounds left.
unfoldable pub print_from : ℕ → ℕ → Table → Addressing → List Line × Addressing
unfolding print_row
print_from zero i table a = ([], a)
print_from (suc left) i table a =
    let (line, a) = print_row i (find i table) a in
    let (lines, a) = print_from left (i + 1) table a in (line ++ lines, a)

unfoldable pub print_table : Table → Addressing → List Line × Addressing
unfolding print_from
print_table table a = print_from (length table) 1 table a

unfoldable pub print_interntal_table : Node → List Line × Node
unfolding print_table
print_interntal_table n =
    let (lines, a) = print_table n.routing_table n.addressing in
    (lines, record n { addressing = a })

-- The next hop of the row for the packet's destination; `none` is a null route.
unfoldable pub predict_next_hop : Header → Node → Option Header
predict_next_hop h n = do
  r ← find h.dest_address n.routing_table
  some (record h { next_hop_address = r.next_hop })

print_from_nothing :
    (left i : ℕ) (table : Table) (a : Addressing)
    → ((k : ℕ) → i ≤ k → k < i + left → find k table ≡ none)
    → print_from left i table a ≡ ([], a)
unfolding print_from
print_from_nothing zero i table a missing = refl
print_from_nothing (suc left) i table a missing =
    rw
      (
        missing i (omega arith) (omega arith),
        print_from_nothing left (i + 1) table a (λ k p q. missing k (omega arith) (omega arith)),
      )
      refl

-- A table whose rows all have numbers above the count of its rows, or the number 0, is shown empty: the
-- loop goes over the numbers up to the count, and not over the rows.
pub print_table_nothing :
    (table : Table) (a : Addressing)
    → ((k : ℕ) → 1 ≤ k → k ≤ length table → find k table ≡ none)
    → print_table table a ≡ ([], a)
unfolding print_table
print_table_nothing table a missing =
    print_from_nothing (length table) 1 table a (λ k p q. missing k p (omega arith))
