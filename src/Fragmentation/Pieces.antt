-- ===== src/Fragmentation/Pieces.antt =====
-- What a buffer holds while the fragments of one message arrive.
use networking_project_chat.Prelude.{
  ℕ, suc, ◌-◌, ◌<◌, ◌≤◌, ◌≡◌, refl, ◌∙◌, List, [], ◌∷◌, true, false, ◌&&◌, arith, if◌then◌else◌,
  ltb, Bool-cases, inl, inr, elem,
}
use networking_project_chat.Prelude.Assoc.{find}
use networking_project_chat.Fragmentation.Reassembler.{
  FragmentSet, no_fragments, is_empty, payload_at, complete_from, stored_fragment,
}
use networking_project_chat.Fragmentation.Completion.{
  payload_at-stored, &&-false, complete_from-true, complete_from_missing,
}

-- The buffer holds the pieces of `n` whose numbers are in `seen`.
pub record Holds (piece : ℕ → List ℕ) (n : ℕ) (seen : List ℕ) (fs : FragmentSet) : Type 0 where
  pub stored : (i : ℕ) → i < n → payload_at i fs.fragments ≡ (if elem i seen then piece i else [])
  pub last : fs.mf_recv ≡ elem (n - 1) seen
  pub total : fs.total_fragments ≡ (if elem (n - 1) seen then n else 0)

-- The buffer after piece `i` of `n`.
abbrev pub store : (ℕ → List ℕ) → ℕ → FragmentSet → ℕ → FragmentSet
store piece n fs i = stored_fragment fs i (ltb i (n - 1)) (piece i)

module _ (piece : ℕ → List ℕ) (n : ℕ) (pos : 0 < n) (small : n ≤ 256)
    (full : (i : ℕ) → i < n → is_empty (piece i) ≡ false) where
  pub no_fragments-Holds : Holds piece n [] no_fragments
  unfolding find
  no_fragments-Holds = record { stored = λ i h. refl; last = refl; total = refl }

  pub store-Holds :
      (seen : List ℕ) (fs : FragmentSet) (i : ℕ)
      → i < n
      → Holds piece n seen fs
      → Holds piece n (i ∷ seen) (store piece n fs i)
  unfolding stored_fragment
  store-Holds seen fs i h v = record {
    stored =
        λ j p. payload_at-stored (suc i) i j (piece i) fs.fragments ∙ ground (arith, v.stored j p);
    last = ground (arith, v.last);
    total = ground (arith, v.total);
  }

  store-is_complete :
      (fs : FragmentSet) (i : ℕ)
      → (store piece n fs i).is_complete
        ≡ complete_from (store piece n fs i).total_fragments 0 (store piece n fs i).fragments true
  unfolding stored_fragment
  store-is_complete fs i = refl

  -- While a piece is missing the buffer is kept.
  pub store_missing :
      (seen : List ℕ) (fs : FragmentSet) (i j : ℕ)
      → i < n
      → j < n
      → elem j (i ∷ seen) ≡ false
      → Holds piece n seen fs
      → ((store piece n fs i).is_complete && (store piece n fs i).mf_recv) ≡ false
  store_missing seen fs i j h k e v = elim (Bool-cases (elem (n - 1) (i ∷ seen))) [
    | inl ended ↦ rw (
      store-is_complete fs i,
      w.total,
      ended,
      complete_from_missing n 0 j (store piece n fs i).fragments true (omega arith) (omega arith)
          (rw (w.stored j k, e)),
    )
    | inr open_end ↦ rw (w.last, open_end) (&&-false (store piece n fs i).is_complete)
  ]
    where
      w : Holds piece n (i ∷ seen) (store piece n fs i)
      w = store-Holds seen fs i h v

  pub store_complete :
      (seen : List ℕ) (fs : FragmentSet) (i : ℕ)
      → i < n
      → ((j : ℕ) → j < n → elem j (i ∷ seen) ≡ true)
      → Holds piece n seen fs
      → ((store piece n fs i).is_complete && (store piece n fs i).mf_recv) ≡ true
  store_complete seen fs i h all v = rw (
    store-is_complete fs i,
    w.last,
    w.total,
    all (n - 1) (omega arith),
    complete_from-true n 0 (store piece n fs i).fragments
        (λ j p q. rw (w.stored j (omega arith), all j (omega arith)) (full j (omega arith))),
  )
    where
      w : Holds piece n (i ∷ seen) (store piece n fs i)
      w = store-Holds seen fs i h v
