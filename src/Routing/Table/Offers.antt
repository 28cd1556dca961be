-- ===== src/Routing/Table/Offers.antt =====
-- The offers that a node's echo carries: its rows, each through itself.
use networking_project_chat.Prelude.{
  ℕ, zero, suc, ◌≤◌, ◌<◌, List, [], ◌∷◌, Option, length, some, ◌≡◌, arith,
}
use networking_project_chat.Prelude.Assoc.{find}
use networking_project_chat.Routing.Route.{Route, Table}
use networking_project_chat.Routing.Table.{build_custom_echo}
use networking_project_chat.Routing.Table.RoundTrip.{received, Reads, build_custom_echo-Reads}
use networking_project_chat.Routing.Echo.Relax.{HasRows}

-- Each row is for the number it stands at.
abbrev pub NamesRows : Table → Type 0
NamesRows t = (j : ℕ) (r : Route) → (1 ≤ j) × (j ≤ 4) → find j t ≡ some r → r.destination_node ≡ j

-- Each row of `t` is offered in `recv` as a route through `src`.
abbrev pub Offers : ℕ → Table → Table → Type 0
Offers src t recv =
    (j : ℕ) (r : Route)
    → (1 ≤ j) × (j ≤ 4)
    → find j t ≡ some r
    → find j recv ≡ some (received src r)

four-Offers :
    (src : ℕ) (t : Table) (r1 r2 r3 r4 : Route)
    → find 1 t ≡ some r1
    → find 2 t ≡ some r2
    → find 3 t ≡ some r3
    → find 4 t ≡ some r4
    → Offers src t (
        (1, received src r1)
        ∷ (2, received src r2)
        ∷ (3, received src r3)
        ∷ (4, received src r4)
        ∷ [])
unfolding find
four-Offers src t r1 r2 r3 r4 e1 e2 e3 e4 zero r range e = absurd (omega arith)
four-Offers src t r1 r2 r3 r4 e1 e2 e3 e4 (suc zero) r range e = cc
four-Offers src t r1 r2 r3 r4 e1 e2 e3 e4 (suc (suc zero)) r range e = cc
four-Offers src t r1 r2 r3 r4 e1 e2 e3 e4 (suc (suc (suc zero))) r range e = cc
four-Offers src t r1 r2 r3 r4 e1 e2 e3 e4 (suc (suc (suc (suc zero)))) r range e = cc
four-Offers src t r1 r2 r3 r4 e1 e2 e3 e4 (suc (suc (suc (suc (suc j))))) r range e =
    absurd (omega arith)

pub record Carries (src : ℕ) (t : Table) (out : Option (List ℕ)) : Type 0 where
  pub recv : Table
  pub reads : Reads src recv out
  pub offers : Offers src t recv

pub build_custom_echo-Carries :
    (my_addr dest_node : ℕ) (t : Table)
    → my_addr < 8
    → length t ≡ 4
    → HasRows t
    → NamesRows t
    → Carries my_addr t (build_custom_echo my_addr dest_node t)
build_custom_echo-Carries my_addr dest_node t small size has names =
    let (r1, e1) = has 1 (omega arith) (omega arith) in
    let (r2, e2) = has 2 (omega arith) (omega arith) in
    let (r3, e3) = has 3 (omega arith) (omega arith) in
    let (r4, e4) = has 4 (omega arith) (omega arith) in
    record {
      recv = _;
      reads =
          build_custom_echo-Reads my_addr dest_node t r1 r2 r3 r4 small size e1 e2 e3 e4
            (names 1 r1 (omega arith) e1) (names 2 r2 (omega arith) e2)
            (names 3 r3 (omega arith) e3) (names 4 r4 (omega arith) e4);
      offers = four-Offers my_addr t r1 r2 r3 r4 e1 e2 e3 e4;
    }
