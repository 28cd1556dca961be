-- ===== src/Addressing/Choice.antt =====
-- `gen_random_addr`: the address that a node takes.
use networking_project_chat.Prelude.{
  ℕ, zero, suc, ◌+◌, ◌%◌, ◌^◌, ◌<◌, ◌≤◌, ◌≡◌, refl, ap, ◌∙◌, ◌⊎◌, inl, inr, some, Bool, true, false,
  ◌==◌, leb, ◌||◌, arith, Bool-cases, if◌then◌else◌,
}
use networking_project_chat.Prelude.Assoc.{insert_or_assign}
use networking_project_chat.Addressing.{
  Addressing, in_use, draw_addr, change_addr, gen_random_addr, all_used_from, set_my_addr,
  remove_addr_used_by_another_node,
}

-- A free address of a node.
record IsFree (a : Addressing) (addr : ℕ) : Type 0 where
  low : 1 ≤ addr
  high : addr ≤ 4
  free : in_use a addr ≡ false

shift : (k j : ℕ) → k + 1 + j ≡ k + suc j
shift k j = omega arith

-- A draw that is free is taken.
draw_addr-now :
    (fuel : ℕ) (rand : ℕ → ℕ) (k : ℕ) (a : Addressing)
    → in_use a (rand k % 4 + 1) ≡ false
    → (addr : ℕ) × (draw_addr (suc fuel) rand k a ≡ some addr) × IsFree a addr
unfolding draw_addr
draw_addr-now fuel rand k a free = (
  rand k % 4 + 1,
  ground (arith, small, free),
  record { low = omega arith; high = omega arith; free = free },
)
  where
    small : (rand k % 4 + 1) % 2 ^ 8 ≡ rand k % 4 + 1
    small = omega arith

-- The loop ends with a free address when one of the calls of `rand` that it has fuel for gives one.
draw_addr-IsFree :
    (fuel : ℕ) (rand : ℕ → ℕ) (k j : ℕ) (a : Addressing)
    → j < fuel
    → in_use a (rand (k + j) % 4 + 1) ≡ false
    → (addr : ℕ) × (draw_addr fuel rand k a ≡ some addr) × IsFree a addr
unfolding draw_addr
draw_addr-IsFree zero rand k j a h free = absurd (omega arith)
draw_addr-IsFree (suc fuel) rand k zero a h free =
    draw_addr-now fuel rand k a (ap (λ i. in_use a (rand i % 4 + 1)) (omega arith) ∙ free)
draw_addr-IsFree (suc fuel) rand k (suc j) a h free =
    elim (Bool-cases (in_use a (rand k % 4 + 1))) [
      | inr now ↦ draw_addr-now fuel rand k a now
      | inl used ↦
          let (addr, found, ok) =
            draw_addr-IsFree fuel rand (k + 1) j a (omega arith)
              (ap (λ i. in_use a (rand i % 4 + 1)) (shift k j) ∙ free) in
          let small : (rand k % 4 + 1) % 2 ^ 8 ≡ rand k % 4 + 1 = omega arith in
          (addr, ground (arith, small, used, found), ok)
    ]

-- What the node's address is after a choice.
abbrev pub IsKeptOrFree : Addressing → ℕ → ℕ → Type 0
IsKeptOrFree a me addr = (addr ≡ me) ⊎ ((1 ≤ addr) × (addr ≤ 4) × (in_use a addr ≡ false))

change_addr-IsKeptOrFree :
    (init : Bool) (fuel : ℕ) (rand : ℕ → ℕ) (a : Addressing) (me j : ℕ)
    → a.addr_file ≡ some me
    → j < fuel
    → in_use a (rand (1 + j) % 4 + 1) ≡ false
    → (a' : Addressing) × (addr : ℕ) × (change_addr init fuel rand me a ≡ some a')
      × (a'.addr_file ≡ some addr)
      × IsKeptOrFree a me addr
unfolding change_addr set_my_addr
change_addr-IsKeptOrFree init fuel rand a me j file h free =
    elim (Bool-cases (leb (rand 0 % 100) 50 || me == 0 || init)) [
      | inl draws ↦
          let (addr, found, ok) = draw_addr-IsFree fuel rand 1 j a h free in
          (
            record a { addr_file = some addr },
            addr,
            rw (draws, found),
            refl,
            inr (ok.low, ok.high, ok.free),
          )
      | inr keeps ↦ (a, me, rw keeps, file, inl refl)
    ]

-- The end of `gen_random_addr`, where the map of used addresses may change.
released :
    (init : Bool) (tmp_addr : ℕ) (a : Addressing)
    → (a' : Addressing) × ((if init
          then some (record (remove_addr_used_by_another_node tmp_addr a) {
            reachable_nodes = insert_or_assign tmp_addr false a.reachable_nodes;
          })
          else some a)
        ≡ some a')
      × (a'.addr_file ≡ a.addr_file)
unfolding remove_addr_used_by_another_node
released true tmp_addr a = (_, refl, refl)
released false tmp_addr a = (a, refl, refl)

-- At a node with an address, when one of the draws, from the second call of `rand` on, gives an
-- address that is not in use, and there is fuel for it, `gen_random_addr` returns, and the node has
-- its own address still or an address from 1 to 4 that was not in use.
pub gen_random_addr-KeepsOrFree :
    (init : Bool) (fuel : ℕ) (rand : ℕ → ℕ) (a : Addressing) (me j : ℕ)
    → a.addr_file ≡ some me
    → j < fuel
    → in_use a (rand (1 + j) % 4 + 1) ≡ false
    → (a' : Addressing) × (addr : ℕ) × (gen_random_addr init fuel rand a ≡ some a')
      × (a'.addr_file ≡ some addr)
      × IsKeptOrFree a me addr
unfolding gen_random_addr
gen_random_addr-KeepsOrFree init fuel rand a me j file h free =
    let a1 : Addressing = record a { addr_file = some me } in
    elim (Bool-cases (all_used_from 4 1 a1 true)) [
      | inl full ↦ (a1, me, rw (file, full), refl, inl refl)
      | inr some_free ↦
          let (a2, addr, changed, file', ok) =
            change_addr-IsKeptOrFree init fuel rand a1 me j refl h free in
          let (a3, end, same) = released init me a2 in
          (a3, addr, rw (file, some_free, changed) end, same ∙ file', ok)
    ]
