-- ===== src/Transport/Receiver/Firsts.antt =====
-- Numbers that come in some order, with repeats.
use networking_project_chat.Prelude.{
  ℕ, ◌≡◌, refl, ap, ◌∙◌, List, [], ◌∷◌, true, not, ◌&&◌, ◌||◌, ◌==◌, arith, if◌then◌else◌, All,
  elem, inl, inr, Bool-cases,
}

-- The numbers that come for the first time, where those of `seen` have come before.
abbrev pub firsts : List ℕ → List ℕ → List ℕ
firsts [] seen = []
firsts (i ∷ is) seen = if elem i seen then firsts is seen else i ∷ firsts is (i ∷ seen)

pub elem-firsts :
    (j : ℕ) (ids seen : List ℕ) → elem j (firsts ids seen) ≡ (elem j ids && not (elem j seen))
elem-firsts j [] seen = refl
elem-firsts j (i ∷ is) seen = elim (Bool-cases (elem i seen)) [
  | inl again ↦ rw again (elem-firsts j is seen ∙ ground (arith, again, same))
  | inr first ↦ rw first (ground (arith, first, same, elem-firsts j is (i ∷ seen)))
]
  where
    same : (i == j) ≡ true → elem i seen ≡ elem j seen
    same e = ap (λ k. elem k seen) (ground (arith, e))

pub firsts-All : (P : ℕ → Type 0) (ids seen : List ℕ) → All P ids → All P (firsts ids seen)
firsts-All P [] seen all = tt
firsts-All P (i ∷ is) seen all = elim (Bool-cases (elem i seen)) [
  | inl again ↦ rw again (firsts-All P is seen all.1)
  | inr first ↦ rw first (all.0, firsts-All P is (i ∷ seen) all.1)
]

-- The numbers that have come at the end.
abbrev pub come : List ℕ → List ℕ → List ℕ
come [] seen = seen
come (i ∷ is) seen = if elem i seen then come is seen else come is (i ∷ seen)

pub elem-come : (j : ℕ) (ids seen : List ℕ) → elem j (come ids seen) ≡ (elem j ids || elem j seen)
elem-come j [] seen = refl
elem-come j (i ∷ is) seen = elim (Bool-cases (elem i seen)) [
  | inl again ↦ rw again (elem-come j is seen ∙ ground (arith, again, same))
  | inr first ↦ rw first (ground (arith, first, elem-come j is (i ∷ seen)))
]
  where
    same : (i == j) ≡ true → elem i seen ≡ elem j seen
    same e = ap (λ k. elem k seen) (ground (arith, e))
