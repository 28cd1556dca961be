-- ===== src/Addressing/Tests.antt =====
-- The choice of an address at a concrete node.
use networking_project_chat.Prelude.{ℕ, ◌≡◌, refl, [], ◌∷◌, some, true, false, arith}
use networking_project_chat.Prelude.Assoc.{find}
use networking_project_chat.Addressing.{Addressing, gen_random_addr}
use networking_project_chat.Addressing.Choice.{IsKeptOrFree, gen_random_addr-KeepsOrFree}

-- Addresses 1 and 2 are in use; the third call of `rand` draws 3.
abbrev crowded : Addressing
crowded = record {
  addr_file = some 0;
  addr_in_use = (1, true) ∷ (2, true) ∷ (3, false) ∷ (4, false) ∷ [];
  reachable_nodes = [];
}

gen_random_addr-KeepsOrFree_example :
    (a' : Addressing) × (addr : ℕ) × (gen_random_addr true 5 (λ k. k) crowded ≡ some a')
    × (a'.addr_file ≡ some addr)
    × IsKeptOrFree crowded 0 addr
gen_random_addr-KeepsOrFree_example =
    gen_random_addr-KeepsOrFree true 5 (λ k. k) crowded 0 1 refl (omega arith) (unfold find in refl)
