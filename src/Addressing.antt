-- ===== src/Addressing.antt =====
-- src/backend/addressing: the node's own address, kept in a file, and the choice of a free one.
-- The files can be opened and written; `rand k` is the value of the k-th call of `rand()`.
pub mod Choice
mod Tests
use networking_project_chat.Prelude.{
  ℕ, zero, suc, ◌+◌, ◌%◌, List, [], Option, none, some, Bool, true, false, not, ◌&&◌, ◌||◌, ◌==◌,
  leb, ltb, u8, ◌>>=◌, if◌then◌else◌,
}
use networking_project_chat.Prelude.Assoc.{find, insert_or_assign, contains, at_or}
use networking_project_chat.Routing.Route.{Route, Table, max_node_number, infinity_cost}

-- The address file, if it exists; the map of `DynamicAddressing`; and the global map of reachable
-- nodes, which `gen_random_addr` writes too.
pub record Addressing : Type 0 where
  pub addr_file : Option ℕ
  pub addr_in_use : List (ℕ × Bool)
  pub reachable_nodes : List (ℕ × Bool)

-- A missing file reads as 0 and is created with the byte 1.
unfoldable pub get_my_addr : Addressing → ℕ × Addressing
get_my_addr a = (at_or 0 a.addr_file, record a { addr_file = some (at_or 1 a.addr_file) })

unfoldable pub set_my_addr : ℕ → Addressing → Addressing
set_my_addr addr a = record a { addr_file = some addr }

abbrev pub in_use : Addressing → ℕ → Bool
in_use a addr = at_or false (find addr a.addr_in_use)

unfoldable pub register_addr_used_by_another_node : ℕ → Addressing → Addressing
register_addr_used_by_another_node addr a = record a {
  addr_in_use = insert_or_assign addr true a.addr_in_use;
}

unfoldable pub remove_addr_used_by_another_node : ℕ → Addressing → Addressing
remove_addr_used_by_another_node addr a = record a {
  addr_in_use = insert_or_assign addr false a.addr_in_use;
}

-- `addr_in_use[i] = false` for the addresses from `i` on, `left` of them.
unfoldable pub clear_from : ℕ → ℕ → List (ℕ × Bool) → List (ℕ × Bool)
clear_from zero i m = m
clear_from (suc left) i m = clear_from left (i + 1) (insert_or_assign i false m)

unfoldable pub clear_nodes_addressing_map : Addressing → Addressing
unfolding clear_from
clear_nodes_addressing_map a = record a { addr_in_use = clear_from max_node_number 1 a.addr_in_use }

unfoldable pub dynamic_addressing : Option ℕ → List (ℕ × Bool) → Addressing
unfolding clear_from
dynamic_addressing file reachable = record {
  addr_file = file;
  addr_in_use = clear_from max_node_number 1 [];
  reachable_nodes = reachable;
}

-- The loop that computes `all_used`.
unfoldable pub all_used_from : ℕ → ℕ → Addressing → Bool → Bool
all_used_from zero i a all_used = all_used
all_used_from (suc left) i a all_used = all_used_from left (i + 1) a (all_used && in_use a i)

-- The `do … while` that draws an address, from call `k` of `rand()` on. `none` is fuel run out.
unfoldable pub draw_addr : ℕ → (ℕ → ℕ) → ℕ → Addressing → Option ℕ
draw_addr zero rand k a = none
draw_addr (suc fuel) rand k a =
    let addr = u8 (rand k % max_node_number + 1) in
    let again = draw_addr fuel rand (k + 1) a in
    if in_use a addr || addr == 0 then again else some addr

-- The branch that may draw a new address: with `rand() % 100 <= 50`, or without one, or at the start.
unfoldable pub change_addr : Bool → ℕ → (ℕ → ℕ) → ℕ → Addressing → Option Addressing
unfolding draw_addr set_my_addr
change_addr init fuel rand tmp_addr a =
    if leb (rand 0 % 100) 50 || tmp_addr == 0 || init
    then (do addr ← draw_addr fuel rand 1 a; some (set_my_addr addr a))
    else some a

unfoldable pub gen_random_addr : Bool → ℕ → (ℕ → ℕ) → Addressing → Option Addressing
unfolding get_my_addr set_my_addr change_addr all_used_from remove_addr_used_by_another_node
gen_random_addr init fuel rand a =
    let (tmp_addr, a) = get_my_addr a in
    if all_used_from max_node_number 1 a true then some (set_my_addr tmp_addr a) else (do
      a ← change_addr init fuel rand tmp_addr a
      if init
          then some (record (remove_addr_used_by_another_node tmp_addr a) {
            reachable_nodes = insert_or_assign tmp_addr false a.reachable_nodes;
          })
          else some a)

-- The loop over the routing table: a row below the infinite cost marks its address as used.
unfoldable pub register_from : ℕ → ℕ → Table → Addressing → Addressing
unfolding register_addr_used_by_another_node
register_from zero i rt a = a
register_from (suc left) i rt a = register_from left (i + 1) rt (elim (find i rt) [
  | none ↦ a
  | some r ↦ if ltb r.cost infinity_cost then register_addr_used_by_another_node i a else a
])

unfoldable pub update_connected_nodes_list_from_rt : Table → Addressing → Addressing
unfolding clear_nodes_addressing_map register_from
update_connected_nodes_list_from_rt rt a =
    register_from max_node_number 1 rt (clear_nodes_addressing_map a)
