-- ===== src/Routing/System/Walk.antt =====
-- Walks from node to node, and what a row says when its cost is the length of one.
use mathlib.Core.Path.{subst}
use networking_project_chat.Prelude.{
  ℕ, zero, suc, ◌+◌, u8, ◌≤◌, ◌<◌, some, Bool, true, false, ◌==◌, ◌≡◌, refl, sym, inl, inr, arith,
  Bool-cases,
}
use networking_project_chat.Prelude.Assoc.{find}
use networking_project_chat.Routing.Route.{Route, Table}
use networking_project_chat.Routing.Echo.Relax.{replaces, relaxed}
use networking_project_chat.Routing.Echo.KeepsOthers.{entered}
use networking_project_chat.Routing.Echo.Neighbour.{start_row}
use networking_project_chat.Routing.Rows.{ClockLaws, EchoLaws}

-- Links are among the numbers from 1 to 4, and no node hears itself.
abbrev pub IsTopology : (ℕ → ℕ → Bool) → Type 0
IsTopology linked =
    (i k : ℕ) → linked i k ≡ true → ((1 ≤ i) × (i ≤ 4)) × ((1 ≤ k) × (k ≤ 4)) × ((k == i) ≡ false)

module _ (linked : ℕ → ℕ → Bool) where
  -- A walk of so many links, each from a node to one that it hears.
  pub data Walk : ℕ → ℕ → ℕ → Type 0 where
    here : {i : ℕ} → Walk zero i i
    via : {d i k j : ℕ} → linked i k ≡ true → Walk d k j → Walk (suc d) i j

  -- A walk of so many links from `me` to `j` that begins with the link to `hop`, if with any.
  abbrev pub WalkVia : ℕ → ℕ → ℕ → ℕ → Type 0
  WalkVia zero me hop j = me ≡ j
  WalkVia (suc d) me hop j = (linked me hop ≡ true) × Walk d hop j

  pub WalkVia-Walk : (d me hop j : ℕ) → WalkVia d me hop j → Walk d me j
  WalkVia-Walk zero me hop j e = subst (Walk 0 me) e here
  WalkVia-Walk (suc d) me hop j (link, w) = via link w

  -- A row of node `me` for `j`: it names `j`, and a cost that is not infinite is the length of a walk
  -- that begins with the next hop.
  pub record IsWalked (me j : ℕ) (r : Route) : Type 0 where
    pub names : r.destination_node ≡ j
    pub at_most : r.cost ≤ 5
    pub walk : r.cost < 5 → WalkVia r.cost me r.next_hop j

  -- A row of node `i` for `j` is right: its cost is the length of a shortest walk, which begins with the
  -- next hop, or it is 5 and no walk is shorter.
  pub record IsShortest (i j : ℕ) (r : Route) : Type 0 where
    pub at_most : r.cost ≤ 5
    pub reached : r.cost < 5 → WalkVia r.cost i r.next_hop j
    pub shortest : (d : ℕ) → Walk d i j → r.cost ≤ d

  pub IsWalked-ClockLaws : (me : ℕ) → ClockLaws me (IsWalked me)
  IsWalked-ClockLaws me = record {
    aged = λ j r w. record { names = w.names; at_most = w.at_most; walk = w.walk };
    lost = λ j r w. record {
      names = w.names;
      at_most = omega arith;
      walk = λ h. absurd (omega arith);
    };
    own = λ r w. record { names = w.names; at_most = omega arith; walk = λ h. refl };
  }

  -- What node `src` offers for `j`.
  pub record IsOffer (src j : ℕ) (r : Route) : Type 0 where
    pub at_most : r.cost ≤ 5
    pub walk : r.cost < 5 → Walk r.cost src j

  abbrev pub HasOffers : ℕ → Table → Type 0
  HasOffers src recv =
      (j : ℕ) (r : Route) → (1 ≤ j) × (j ≤ 4) → find j recv ≡ some r → IsOffer src j r

  entered-IsWalked :
      (me src : ℕ) (row : Route)
      → linked me src ≡ true
      → IsWalked me src row
      → IsWalked me src (entered src row)
  unfolding entered
  entered-IsWalked me src row link w = elim (Bool-cases (row.cost == 5)) [
    | inl new ↦ rw new (record { names = refl; at_most = omega arith; walk = λ h. (link, here) })
    | inr known ↦ rw known w
  ]

  start_row-IsWalked :
      (me src j : ℕ) (row : Route)
      → linked me src ≡ true
      → IsWalked me j row
      → IsWalked me j (start_row src j row)
  start_row-IsWalked me src j row link w = elim (Bool-cases (src == j)) [
    | inl same ↦
        let e : src ≡ j = ground (arith, same) in
        rw same (
          subst (λ k. IsWalked me k (entered src row)) e
            (entered-IsWalked me src row link (subst (λ k. IsWalked me k row) (sym e) w)))
    | inr other ↦ rw other w
  ]

  replaces_cost :
      (offered row : Route)
      → replaces offered row ≡ true
      → offered.cost ≤ 5
      → (offered.cost < 5)
        × (suc offered.cost ≡ u8 (offered.cost + 1))
        × (u8 (offered.cost + 1) ≤ 5)
  unfolding replaces
  replaces_cost offered row better p = ground (arith, better, p)

  relaxed-IsWalked :
      (me src j : ℕ) (offered row : Route)
      → linked me src ≡ true
      → IsOffer src j offered
      → IsWalked me j row
      → IsWalked me j (relaxed src offered row)
  unfolding relaxed
  relaxed-IsWalked me src j offered row link o w = elim (Bool-cases (replaces offered row)) [
    | inl better ↦
        let (finite, e, cost) = replaces_cost offered row better o.at_most in
        rw better (record {
          names = w.names;
          at_most = cost;
          walk = λ h. subst (λ d. WalkVia d me src j) e (link, o.walk finite);
        })
    | inr kept ↦ rw kept w
  ]

  pub IsWalked-EchoLaws :
      (me src : ℕ) (recv : Table)
      → linked me src ≡ true
      → HasOffers src recv
      → EchoLaws me src recv (IsWalked me)
  IsWalked-EchoLaws me src recv link offers = record {
    entered_self = λ r w. record { names = refl; at_most = omega arith; walk = λ h. refl };
    relaxes = λ j offered r range other e w.
        relaxed-IsWalked me src j offered (start_row src j r) link (offers j offered range e)
          (start_row-IsWalked me src j r link w);
  }
