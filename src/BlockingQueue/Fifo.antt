-- ===== src/BlockingQueue/Fifo.antt =====
-- First in, first out, in every order of the producers' and the consumers' steps.
use mathlib.Core.List.{append_assoc}
use networking_project_chat.Prelude.{
  List-cases, ℕ, ◌-◌, ◌≡◌, refl, ap, sym, ◌∙◌, inl, inr, [], ◌∷◌, ◌++◌, arith,
}
use networking_project_chat.BlockingQueue.{
  BlockingQueue, blocking_queue, push, notify_one, take_front, pop, resume, wake_spuriously, Step,
  pushes, notifies, pops, resumes, wakes, Reach, here, next,
}

module _ {ℓ} {A : Type ℓ} where
  abbrev Fifo : BlockingQueue A → Type ℓ
  Fifo q = q.popped ++ q.the_queue ≡ q.pushed

  push-Fifo : (object : A) (q : BlockingQueue A) → Fifo q → Fifo (push object q)
  unfolding push
  push-Fifo object q f =
      sym (append_assoc q.popped q.the_queue (object ∷ [])) ∙ ap (λ xs. xs ++ object ∷ []) f

  notify_one-Fifo : (q : BlockingQueue A) → Fifo q → Fifo (notify_one q)
  unfolding notify_one
  notify_one-Fifo q f = ground arith

  take_front-Fifo : (q : BlockingQueue A) → Fifo q → Fifo (take_front q)
  unfolding take_front
  take_front-Fifo q f = elim (List-cases q.the_queue) [
    | inl e ↦ rw e (rw e at f)
    | inr (x, xs, e) ↦ rw e (append_assoc q.popped (x ∷ []) xs ∙ (rw e at f))
  ]

  pop-Fifo : (q : BlockingQueue A) → Fifo q → Fifo (pop q)
  unfolding pop take_front
  pop-Fifo q f = elim (List-cases q.the_queue) [
    | inl e ↦ rw e (rw e at f)
    | inr (x, xs, e) ↦ rw e (append_assoc q.popped (x ∷ []) xs ∙ (rw e at f))
  ]

  Step-Fifo : {q r : BlockingQueue A} → Step q r → Fifo q → Fifo r
  unfolding resume wake_spuriously
  Step-Fifo {q} (pushes object) f = push-Fifo object q f
  Step-Fifo {q} (notifies h) f = notify_one-Fifo q f
  Step-Fifo {q} (pops h) f = pop-Fifo q f
  Step-Fifo {q} (resumes h) f = take_front-Fifo (record q { woken = q.woken - 1 }) f
  Step-Fifo {q} (wakes h) f = f

  -- Whatever the order of the steps of any number of threads, what has been popped, in order, and
  -- then what the queue holds, is what has been pushed, in order.
  pub Reach-Fifo :
      (consumers : ℕ) (q : BlockingQueue A)
      → Reach (blocking_queue consumers) q
      → q.popped ++ q.the_queue ≡ q.pushed
  unfolding blocking_queue
  Reach-Fifo consumers q here = refl
  Reach-Fifo consumers q (next r running st) = Step-Fifo st (Reach-Fifo consumers _ r)
