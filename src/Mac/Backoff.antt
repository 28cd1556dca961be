-- ===== src/Mac/Backoff.antt =====
-- The exponential backoff over runs of calls.
use native.Mathlib.Nat.{pow-le-pow_right}
use native.Mathlib.Numerals.{add-one, sub-one}
use networking_project_chat.Prelude.{
  ℕ, zero, suc, ◌+◌, ◌-◌, ◌%◌, ◌^◌, ◌≤◌, ◌≡◌, ◌∙◌, ◌⊎◌, List, [], ◌∷◌, arith, Bool-cases, inl, inr,
  leb,
}
use networking_project_chat.Mac.{
  MediumAccessControl, IsDraw, medium_access_control, recalculate_wait_time, reset_wait_time,
  decrement_wait_time,
}

two_pow_bound : (k : ℕ) → k ≤ 10 → 2 ^ k ≤ 1024
two_pow_bound k h = pow-le-pow_right {n = 2} (omega arith) h

pub data Call : Type 0 where
  recalculate reset decrement : Call

pub step : (ℕ → ℕ → ℕ) → MediumAccessControl → Call → MediumAccessControl
step draw m recalculate = recalculate_wait_time draw m
step draw m reset = reset_wait_time m
step draw m decrement = decrement_wait_time m

pub run : (ℕ → ℕ → ℕ) → MediumAccessControl → List Call → MediumAccessControl
run draw m [] = m
run draw m (c ∷ cs) = run draw (step draw m c) cs

-- The exponent is at most 11 and the wait at most 1024; while the exponent is not 0, the wait is at
-- most 2 to the exponent before it.
pub record IsBounded (m : MediumAccessControl) : Type 0 where
  pub exponent_bound : m.exponential_backoff ≤ 11
  pub wait_bound : m.time_to_wait ≤ 1024
  pub window : (m.exponential_backoff ≡ 0) ⊎ (m.time_to_wait ≤ 2 ^ (m.exponential_backoff - 1))

module _ (draw : ℕ → ℕ → ℕ) (law : IsDraw draw) where
  -- Below the limit a call draws from the window of the exponent, and raises that.
  recalculate_wait_time_low :
      (m : MediumAccessControl)
      → m.exponential_backoff ≤ 10
      → recalculate_wait_time draw m ≡ record {
        time_to_wait = draw 0 (2 ^ m.exponential_backoff);
        exponential_backoff = m.exponential_backoff + 1;
      }
  unfolding recalculate_wait_time
  recalculate_wait_time_low m h = ground (arith, two_pow_bound m.exponential_backoff h)

  recalculate_wait_time-IsBounded :
      (m : MediumAccessControl) → IsBounded m → IsBounded (recalculate_wait_time draw m)
  recalculate_wait_time-IsBounded m v = elim (Bool-cases (leb m.exponential_backoff 10)) [
    | inl low ↦ rw (recalculate_wait_time_low m (ground arith)) (record {
      exponent_bound = ground arith;
      wait_bound = omega (
        arith,
        law 0 (2 ^ m.exponential_backoff) (omega arith),
        two_pow_bound m.exponential_backoff (ground arith),
      );
      window = inr (rw (add-one, sub-one) (law 0 (2 ^ m.exponential_backoff) (omega arith)).1);
    })
    | inr high ↦ unfold recalculate_wait_time in ground (arith, law 0 m.time_to_wait (omega arith))
  ]

  step-IsBounded : (m : MediumAccessControl) (c : Call) → IsBounded m → IsBounded (step draw m c)
  unfolding step reset_wait_time decrement_wait_time
  step-IsBounded m recalculate v = recalculate_wait_time-IsBounded m v
  step-IsBounded m reset v = omega arith
  step-IsBounded m decrement v = ground arith

  -- If every random number lies in the range asked for, then after any run of calls the exponent is
  -- at most 11, the wait at most 1024, and while the exponent is not 0 the wait is at most 2 to the
  -- exponent before it.
  pub run-IsBounded : (cs : List Call) → IsBounded (run draw medium_access_control cs)
  unfolding run
  run-IsBounded cs = from medium_access_control cs (unfold medium_access_control in omega arith)
    where
      from : (m : MediumAccessControl) (cs : List Call) → IsBounded m → IsBounded (run draw m cs)
      from m [] v = v
      from m (c ∷ cs) v = from (step draw m c) cs (step-IsBounded m c v)

abbrev pub recalculations : ℕ → List Call
recalculations zero = []
recalculations (suc k) = recalculate ∷ recalculations k

-- The exponent is back at 0 after twelve calls: after `k` of them it is `k % 12`.
pub exponential_backoff_cycle :
    (draw : ℕ → ℕ → ℕ) (k : ℕ)
    → (run draw medium_access_control (recalculations k)).exponential_backoff ≡ k % 12
unfolding run step medium_access_control
exponential_backoff_cycle draw k = from k medium_access_control (omega arith) ∙ omega arith
  where
    from :
        (k : ℕ) (m : MediumAccessControl)
        → m.exponential_backoff ≤ 11
        → (run draw m (recalculations k)).exponential_backoff ≡ (m.exponential_backoff + k) % 12
    from zero m h = omega arith
    from (suc k) m h =
        from k (recalculate_wait_time draw m) (omega (arith, raised)) ∙ omega (arith, raised)
      where
        raised :
            (recalculate_wait_time draw m).exponential_backoff ≡ (m.exponential_backoff + 1) % 12
        raised = unfold recalculate_wait_time in ground arith
