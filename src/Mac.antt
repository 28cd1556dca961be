-- ===== src/Mac.antt =====
-- src/backend/mac/MediumAccessControl.cpp and src/utils/Random.h. `draw lo hi` stands for
-- `Random::get(lo, hi)`, which returns some number from `lo` to `hi`. One call runs at a time, under
-- the object's mutex.
pub mod Backoff
mod Tests
use networking_project_chat.Prelude.{
  ℕ, zero, suc, ◌+◌, ◌-◌, ◌^◌, ◌≤◌, leb, ltb, u8, u16, if◌then◌else◌,
}

-- What the code relies on in the random number generator.
abbrev pub IsDraw : (ℕ → ℕ → ℕ) → Type 0
IsDraw draw = (lo hi : ℕ) → lo ≤ hi → (lo ≤ draw lo hi) × (draw lo hi ≤ hi)

pub record MediumAccessControl : Type 0 where
  pub time_to_wait : ℕ
  pub exponential_backoff : ℕ

unfoldable pub medium_access_control : MediumAccessControl
medium_access_control = record { time_to_wait = 0; exponential_backoff = 0 }

unfoldable pub recalculate_wait_time : (ℕ → ℕ → ℕ) → MediumAccessControl → MediumAccessControl
recalculate_wait_time draw m =
    let m' : MediumAccessControl =
      if leb m.exponential_backoff 10
      then record {
        time_to_wait = u16 (2 ^ m.exponential_backoff);
        exponential_backoff = u8 (m.exponential_backoff + 1);
      }
      else record m { exponential_backoff = 0 } in
    record m' { time_to_wait = draw 0 m'.time_to_wait }

unfoldable pub reset_wait_time : MediumAccessControl → MediumAccessControl
reset_wait_time m = record { time_to_wait = 0; exponential_backoff = 0 }

unfoldable pub decrement_wait_time : MediumAccessControl → MediumAccessControl
decrement_wait_time m =
    if ltb 0 m.time_to_wait then record m { time_to_wait = m.time_to_wait - 1 } else m
