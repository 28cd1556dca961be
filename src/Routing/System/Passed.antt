-- ===== src/Routing/System/Passed.antt =====
-- Exchanges of tables, one after another.
use networking_project_chat.Prelude.{
  ℕ, List, [], ◌∷◌, ◌++◌, Option, none, some, Bool, true, ◌≡◌, refl, ap, sym, ◌∙◌, inl, inr, arith,
  All, Option-cases, ◌>>=◌,
}
use networking_project_chat.Routing.System.{System, Event, step, run}
use networking_project_chat.Routing.System.Walk.{IsTopology}
use networking_project_chat.Routing.System.Exchange.{
  IsLive, exchange, exchange-Exchanged, Improves, HasHeard,
}

-- For each pair `(i, k)`, node `i` hears node `k`, one after another.
abbrev pub exchanges : List (ℕ × ℕ) → List Event
exchanges [] = []
exchanges (p ∷ ps) = exchange p.0 p.1 ++ exchanges ps

module _ (linked : ℕ → ℕ → Bool) (topology : IsTopology linked) (fuel : ℕ) (rand : ℕ → ℕ) where
  run-cons :
      (e : Event) (es : List Event) (s : System) (out : Option System)
      → step linked fuel rand e s ≡ out
      → run linked fuel rand (e ∷ es) s ≡ (out >>= run linked fuel rand es)
  unfolding run
  run-cons e es s out one = rw one refl

  pub run-append :
      (es fs : List Event) (s s' : System)
      → run linked fuel rand es s ≡ some s'
      → run linked fuel rand (es ++ fs) s ≡ run linked fuel rand fs s'
  unfolding run
  run-append [] fs s s' e = let same : s ≡ s' = cc in ap (run linked fuel rand fs) same
  run-append (e1 ∷ es) fs s s' e = elim (Option-cases (step linked fuel rand e1 s)) [
    | inl faults ↦ let faults' = run-cons e1 es s none faults in absurd cc
    | inr (s1, one) ↦
        run-cons e1 (es ++ fs) s (some s1) one
        ∙ run-append es fs s1 s' (sym (run-cons e1 es s (some s1) one) ∙ e)
  ]

  -- The nodes after some exchanges.
  pub record Passed (ps : List (ℕ × ℕ)) (s : System) : Type 0 where
    pub after : System
    pub returns : run linked fuel rand (exchanges ps) s ≡ some after
    pub live : IsLive linked after
    pub improves : Improves s after
    pub heard : All (λ p. HasHeard s after p.0 p.1) ps

  -- What was heard before more exchanges is heard after them.
  HasHeard-Improves :
      (i k : ℕ) (s s1 s' : System)
      → linked i k ≡ true
      → HasHeard s s1 i k
      → Improves s1 s'
      → HasHeard s s' i k
  HasHeard-Improves i k s s1 s' link heard improves j range =
      let (node_i, node_k, apart) = topology i k link in
      omega (arith, heard j range, improves i j node_i range)

  HasHeard-earlier :
      (s s1 s' : System) (ps : List (ℕ × ℕ))
      → All (λ p. linked p.0 p.1 ≡ true) ps
      → Improves s s1
      → All (λ p. HasHeard s1 s' p.0 p.1) ps
      → All (λ p. HasHeard s s' p.0 p.1) ps
  HasHeard-earlier s s1 s' [] links improves heard = tt
  HasHeard-earlier s s1 s' (p ∷ ps) links improves heard = (
    λ j range.
        let (node_i, node_k, apart) = topology p.0 p.1 links.0 in
        omega (arith, heard.0 j range, improves p.1 j node_k range),
    HasHeard-earlier s s1 s' ps links.1 improves heard.1,
  )

  pub exchanges-Passed :
      (ps : List (ℕ × ℕ)) (s : System)
      → All (λ p. linked p.0 p.1 ≡ true) ps
      → IsLive linked s
      → Passed ps s
  unfolding run
  exchanges-Passed [] s links live = record {
    after = s;
    returns = refl;
    live = live;
    improves = λ i j node_i node_j. omega arith;
    heard = tt;
  }
  exchanges-Passed (p ∷ ps) s links live =
      let one = exchange-Exchanged linked topology fuel rand p.0 p.1 s links.0 live in
      let rest = exchanges-Passed ps one.after links.1 one.live in
      record {
        after = rest.after;
        returns =
            run-append (exchange p.0 p.1) (exchanges ps) s one.after one.returns ∙ rest.returns;
        live = rest.live;
        improves = λ i j node_i node_j.
            omega (arith, one.improves i j node_i node_j, rest.improves i j node_i node_j);
        heard = (
          HasHeard-Improves p.0 p.1 s one.after rest.after links.0 one.heard rest.improves,
          HasHeard-earlier s one.after rest.after ps links.1 one.improves rest.heard,
        );
      }
