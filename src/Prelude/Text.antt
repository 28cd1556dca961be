-- ===== src/Prelude/Text.antt =====
-- Texts as lists of their codes, and maps with texts as keys.
use Prim.Native.Nat.{ℕ}
use mathlib.Core.Path.{◌≡◌, refl, ap₂}
use mathlib.Core.Bool.{Bool, true, false, ◌&&◌}
use mathlib.Core.Option.{Option, none, some}
use mathlib.Core.List.{List, [], ◌∷◌}
use mathlib.Core.Logic.{inl, inr}
use native.Mathlib.Omega.{arith}
use networking_project_chat.Prelude.Tests.{◌==◌, if◌then◌else◌, Bool-cases}
use networking_project_chat.Prelude.Assoc.{is_some}

abbrev pub same_text : List ℕ → List ℕ → Bool
same_text [] [] = true
same_text [] (b ∷ ys) = false
same_text (a ∷ xs) [] = false
same_text (a ∷ xs) (b ∷ ys) = (a == b) && same_text xs ys

-- The member test of a set of texts.
abbrev pub elem_text : List ℕ → List (List ℕ) → Bool
elem_text t [] = false
elem_text t (s ∷ ts) = if same_text s t then true else elem_text t ts

pub same_text_refl : (t : List ℕ) → same_text t t ≡ true
same_text_refl [] = refl
same_text_refl (a ∷ t) = ground (arith, same_text_refl t)

same_text_comm : (s t : List ℕ) → same_text s t ≡ same_text t s
same_text_comm [] [] = refl
same_text_comm [] (b ∷ ys) = refl
same_text_comm (a ∷ xs) [] = refl
same_text_comm (a ∷ xs) (b ∷ ys) = ground (arith, same_text_comm xs ys)

pub eq_of_== : (a b : ℕ) → (a == b) ≡ true → a ≡ b
eq_of_== a b h = ground arith

pub eq_of_same_text : (s t : List ℕ) → same_text s t ≡ true → s ≡ t
eq_of_same_text [] [] h = refl
eq_of_same_text [] (b ∷ ys) h = absurd (ground arith)
eq_of_same_text (a ∷ xs) [] h = absurd (ground arith)
eq_of_same_text (a ∷ xs) (b ∷ ys) h = elim (Bool-cases (a == b)) [
  | inl same ↦ ap₂ ◌∷◌ (eq_of_== a b same) (eq_of_same_text xs ys (rw same at h))
  | inr other ↦ absurd (ground arith)
]

module _ {ℓ} {V : Type ℓ} where
  unfoldable pub find_text : List ℕ → List (List ℕ × V) → Option V
  find_text k [] = none
  find_text k ((j, v) ∷ m) = if same_text j k then some v else find_text k m

  unfoldable pub insert_text : List ℕ → V → List (List ℕ × V) → List (List ℕ × V)
  insert_text k v [] = (k, v) ∷ []
  insert_text k v ((j, w) ∷ m) = if same_text j k then (k, v) ∷ m else (j, w) ∷ insert_text k v m

  unfoldable pub erase_text : List ℕ → List (List ℕ × V) → List (List ℕ × V)
  erase_text k [] = []
  erase_text k ((j, v) ∷ m) = if same_text j k then erase_text k m else (j, v) ∷ erase_text k m

  abbrev pub contains_text : List ℕ → List (List ℕ × V) → Bool
  contains_text k m = is_some (find_text k m)

  apart :
      (k i j : List ℕ) (v w : V) (m : List (List ℕ × V))
      → same_text i k ≡ false
      → find_text j (insert_text k v m) ≡ (if same_text k j then some v else find_text j m)
      → (if same_text i j then some w else find_text j (insert_text k v m))
        ≡ (if same_text k j then some v else if same_text i j then some w else find_text j m)
  apart k i j v w m other found = elim (Bool-cases (same_text i j)) [
    | inl same ↦ rw (same, ← eq_of_same_text i j same, same_text_comm k i, other) refl
    | inr unlike ↦ rw unlike found
  ]

  pub find_text-insert_text :
      (k j : List ℕ) (v : V) (m : List (List ℕ × V))
      → find_text j (insert_text k v m) ≡ (if same_text k j then some v else find_text j m)
  unfolding find_text insert_text
  find_text-insert_text k j v [] = refl
  find_text-insert_text k j v ((i, w) ∷ m) = elim (Bool-cases (same_text i k)) [
    | inl same ↦ rw (same, eq_of_same_text i k same) (ground arith)
    | inr other ↦ rw other (apart k i j v w m other (find_text-insert_text k j v m))
  ]
