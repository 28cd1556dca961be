-- ===== src/Mac/Tests.antt =====
-- The backoff at a concrete random number generator.
use networking_project_chat.Prelude.{ℕ, List, [], ◌∷◌, arith}
use networking_project_chat.Mac.{IsDraw, medium_access_control}
use networking_project_chat.Mac.Backoff.{
  Call, recalculate, decrement, run, IsBounded, run-IsBounded,
}

-- A generator that always returns the largest number allowed.
abbrev highest : ℕ → ℕ → ℕ
highest lo hi = hi

highest-IsDraw : IsDraw highest
highest-IsDraw lo hi h = (h, omega arith)

abbrev calls : List Call
calls = recalculate ∷ recalculate ∷ decrement ∷ recalculate ∷ []

run-IsBounded_example : IsBounded (run highest medium_access_control calls)
run-IsBounded_example = run-IsBounded highest highest-IsDraw calls
