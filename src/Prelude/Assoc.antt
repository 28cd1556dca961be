-- ===== src/Prelude/Assoc.antt =====
-- `std::map` and `std::unordered_map` with integer keys, as association lists: one entry for each
-- key, in the order of first insertion. `at_or` is `operator[]` read at a key, without the entry
-- that it leaves behind.
use Prim.Native.Nat.{ℕ, suc}
use mathlib.Core.Path.{◌≡◌, refl}
use mathlib.Core.Bool.{Bool, true, false}
use mathlib.Core.Option.{Option, none, some}
use mathlib.Core.List.{List, [], ◌∷◌}
use native.Mathlib.Omega.{arith}
use networking_project_chat.Prelude.Tests.{◌==◌, if◌then◌else◌}
use networking_project_chat.Prelude.Lists.{length}

module _ {ℓ} {V : Type ℓ} where
  unfoldable pub find : ℕ → List (ℕ × V) → Option V
  find k [] = none
  find k ((j, v) ∷ m) = if j == k then some v else find k m

  unfoldable pub insert_or_assign : ℕ → V → List (ℕ × V) → List (ℕ × V)
  insert_or_assign k v [] = (k, v) ∷ []
  insert_or_assign k v ((j, w) ∷ m) = if j == k then (k, v) ∷ m else (j, w) ∷ insert_or_assign k v m

  unfoldable pub erase : ℕ → List (ℕ × V) → List (ℕ × V)
  erase k [] = []
  erase k ((j, v) ∷ m) = if j == k then erase k m else (j, v) ∷ erase k m

  abbrev pub is_some : Option V → Bool
  is_some none = false
  is_some (some v) = true

  -- `count(k) > 0`.
  abbrev pub contains : ℕ → List (ℕ × V) → Bool
  contains k m = is_some (find k m)

  abbrev pub at_or : V → Option V → V
  at_or d none = d
  at_or d (some v) = v

  pub find-insert_or_assign :
      (k j : ℕ) (v : V) (m : List (ℕ × V))
      → find j (insert_or_assign k v m) ≡ (if k == j then some v else find j m)
  unfolding find insert_or_assign
  find-insert_or_assign k j v [] = refl
  find-insert_or_assign k j v ((i, w) ∷ m) = ground (arith, find-insert_or_assign k j v m)

  pub find-erase :
      (k j : ℕ) (m : List (ℕ × V)) → find j (erase k m) ≡ (if k == j then none else find j m)
  unfolding find erase
  find-erase k j [] = ground arith
  find-erase k j ((i, w) ∷ m) = ground (arith, find-erase k j m)

  -- An assignment to a key that is there keeps the number of entries.
  pub length-insert_or_assign :
      (k : ℕ) (v : V) (m : List (ℕ × V))
      → length (insert_or_assign k v m) ≡ (if contains k m then length m else suc (length m))
  unfolding find insert_or_assign
  length-insert_or_assign k v [] = refl
  length-insert_or_assign k v ((j, w) ∷ m) = ground (arith, length-insert_or_assign k v m)
