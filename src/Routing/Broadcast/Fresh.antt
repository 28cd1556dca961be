-- ===== src/Routing/Broadcast/Fresh.antt =====
-- What the thread that broadcasts the table sends (src/backend/routing/VectorRoutingProtocol.cpp).
use networking_project_chat.Prelude.{
  ℕ, zero, suc, ◌+◌, ◌<◌, List, some, true, false, ◌≡◌, ap, arith,
}
use mathlib.Core.Path.{subst}
use networking_project_chat.Routing.Table.{build_custom_echo}
use networking_project_chat.Routing.Broadcast.{Look, broadcast_from}

-- The line is free, before and after the sleep.
pub record IsFree (l : Look) : Type 0 where
  pub goes_on : l.paused ≡ false
  pub free : l.busy ≡ false
  pub still_free : l.still_busy ≡ false

-- The line is busy, and the table of the round makes the echo `packet`.
pub record IsBusy (l : Look) (packet : List ℕ) : Type 0 where
  pub goes_on : l.paused ≡ false
  pub busy : l.busy ≡ true
  pub packed : build_custom_echo l.my_addr 0 l.table ≡ some packet

-- The echo at hand after `j` busy rounds from round `k` on.
abbrev pub latest : (ℕ → List ℕ) → ℕ → List ℕ → ℕ → List ℕ
latest echoes k packet zero = packet
latest echoes k packet (suc j) = echoes (k + j)

latest-suc :
    (echoes : ℕ → List ℕ) (k : ℕ) (packet : List ℕ) (j : ℕ)
    → latest echoes (k + 1) (echoes k) j ≡ latest echoes k packet (suc j)
latest-suc echoes k packet zero = ap echoes (omega arith)
latest-suc echoes k packet (suc j) = ap echoes (omega arith)

module _ (looks : ℕ → Look) (echoes : ℕ → List ℕ) where
  free_round :
      (fuel k : ℕ) (packet : List ℕ)
      → IsFree (looks k)
      → broadcast_from (suc fuel) looks k packet ≡ some (some packet)
  unfolding broadcast_from
  free_round fuel k packet f = rw (f.goes_on, f.free, f.still_free)

  busy_round :
      (fuel k : ℕ) (packet renewed : List ℕ)
      → IsBusy (looks k) renewed
      → broadcast_from (suc fuel) looks k packet ≡ broadcast_from fuel looks (k + 1) renewed
  unfolding broadcast_from
  busy_round fuel k packet renewed b = rw (b.goes_on, b.busy, b.packed)

  -- While the line is busy the echo is made anew in each round, so that the first round that finds the
  -- line free, before and after its sleep, sends the echo of the round before it: after `j` busy rounds
  -- from round `k` on, in none of which the protocol is paused, with fuel for more than `j` rounds.
  pub broadcast_from_fresh :
      (fuel k : ℕ) (packet : List ℕ) (j : ℕ)
      → j < fuel
      → ((i : ℕ) → i < j → IsBusy (looks (k + i)) (echoes (k + i)))
      → IsFree (looks (k + j))
      → broadcast_from fuel looks k packet ≡ some (some (latest echoes k packet j))
  broadcast_from_fresh zero k packet j enough busy free = absurd (omega arith)
  broadcast_from_fresh (suc fuel) k packet zero enough busy free =
      free_round fuel k packet (subst (λ i. IsFree (looks i)) (omega arith) free)
  broadcast_from_fresh (suc fuel) k packet (suc j) enough busy free = rw (
    busy_round fuel k packet (echoes k)
        (subst (λ i. IsBusy (looks i) (echoes i)) (omega arith) (busy 0 (omega arith))),
    broadcast_from_fresh fuel (k + 1) (echoes k) j (omega arith)
        (λ i i<j.
          subst (λ i. IsBusy (looks i) (echoes i)) (omega arith) (busy (suc i) (omega arith)))
        (subst (λ i. IsFree (looks i)) (omega arith) free),
    latest-suc echoes k packet j,
  )
