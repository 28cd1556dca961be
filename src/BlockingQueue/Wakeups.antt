-- ===== src/BlockingQueue/Wakeups.antt =====
-- When consumers wait, and when the front of an empty queue is read.
use mathlib.Core.Path.{subst}
use networking_project_chat.Prelude.{
  List-cases, ℕ, suc, ◌+◌, ◌-◌, ◌<◌, ◌≤◌, ◌≡◌, ◌≢◌, refl, ap, sym, ◌⊎◌, inl, inr, List, [], ◌∷◌,
  length, length-append, true, false, arith,
}
use networking_project_chat.BlockingQueue.{
  BlockingQueue, blocking_queue, push, notify_one, take_front, pop, resume, wake_spuriously, Step,
  pushes, notifies, pops, resumes, wakes, Reach, here, next,
}

module _ {ℓ} {A : Type ℓ} where
  -- While a consumer waits, each object of the queue has a notification to come or a consumer that
  -- is awake.
  record IsAwaited (q : BlockingQueue A) : Type ℓ where
    awaited : (q.waiting ≡ 0) ⊎ (length q.the_queue ≤ q.unnotified + q.woken)

  push-IsAwaited : (object : A) (q : BlockingQueue A) → IsAwaited q → IsAwaited (push object q)
  unfolding push
  push-IsAwaited object q v = ground (arith, length-append q.the_queue (object ∷ []))

  notify_one-IsAwaited :
      (q : BlockingQueue A) → 0 < q.unnotified → IsAwaited q → IsAwaited (notify_one q)
  unfolding notify_one
  notify_one-IsAwaited q h v = ground arith

  pop-IsAwaited : (q : BlockingQueue A) → IsAwaited q → IsAwaited (pop q)
  unfolding pop take_front
  pop-IsAwaited q v = elim (List-cases q.the_queue) [
    | inl e ↦ rw e (record { awaited = inr (omega arith) })
    | inr (x, xs, e) ↦ rw e (ground (arith, ap length e))
  ]

  resume-IsAwaited : (q : BlockingQueue A) → 0 < q.woken → IsAwaited q → IsAwaited (resume q)
  unfolding resume take_front
  resume-IsAwaited q h v = elim (List-cases q.the_queue) [
    | inl e ↦ rw e (ground (arith, ap length e))
    | inr (x, xs, e) ↦ rw e (ground (arith, ap length e))
  ]

  Step-IsAwaited : {q r : BlockingQueue A} → Step q r → IsAwaited q → IsAwaited r
  unfolding wake_spuriously
  Step-IsAwaited {q} (pushes object) v = push-IsAwaited object q v
  Step-IsAwaited {q} (notifies h) v = notify_one-IsAwaited q h v
  Step-IsAwaited {q} (pops h) v = pop-IsAwaited q v
  Step-IsAwaited {q} (resumes h) v = resume-IsAwaited q h v
  Step-IsAwaited {q} (wakes h) v = ground arith

  Reach-IsAwaited :
      (consumers : ℕ) (q : BlockingQueue A) → Reach (blocking_queue consumers) q → IsAwaited q
  unfolding blocking_queue
  Reach-IsAwaited consumers q here = record { awaited = inl refl }
  Reach-IsAwaited consumers q (next r running st) =
      Step-IsAwaited st (Reach-IsAwaited consumers _ r)

  -- No wakeup is lost: whatever the order of the steps of any number of threads, when a consumer
  -- waits and the queue holds an object, a notification is to come or a consumer is awake.
  pub Reach-awaited :
      (consumers : ℕ) (q : BlockingQueue A)
      → Reach (blocking_queue consumers) q
      → 0 < q.waiting
      → q.the_queue ≢ []
      → 0 < q.unnotified + q.woken
  Reach-awaited consumers q r w ne = elim (List-cases q.the_queue) [
    | inl e ↦ absurd (ne e)
    | inr (x, xs, e) ↦ let v = Reach-IsAwaited consumers q r in ground (arith, ap length e)
  ]

  -- An empty queue with a consumer outside `pop`, and none in it.
  abbrev emptied : ℕ → ℕ → List A → List A → BlockingQueue A
  emptied others unnotified ins outs = record {
    the_queue = [];
    idle = suc others;
    waiting = 0;
    woken = 0;
    unnotified = unnotified;
    pushed = ins;
    popped = outs;
    faulted = false;
  }

  -- The push; `pop`, twice, the second time into the wait; the notification, late; the end of the wait.
  emptied_faults :
      (object : A) (others unnotified : ℕ) (ins outs : List A)
      → (r : BlockingQueue A) × Reach (emptied others unnotified ins outs) r × (r.faulted ≡ true)
  unfolding push pop take_front notify_one resume
  emptied_faults object others unnotified ins outs =
      let q1 = push object (emptied others unnotified ins outs) in
      let r1 : Reach (emptied others unnotified ins outs) q1 = next here refl (pushes object) in
      let r2 : Reach (emptied others unnotified ins outs) (pop q1) =
        next r1 refl (pops (omega arith)) in
      let r3 : Reach (emptied others unnotified ins outs) (pop (pop q1)) =
        next r2 refl (pops (omega arith)) in
      let r4 : Reach (emptied others unnotified ins outs) (notify_one (pop (pop q1))) =
        next r3 refl (notifies (omega arith)) in
      (resume (notify_one (pop (pop q1))), next r4 refl (resumes (omega arith)), refl)

  -- The notification of a push that comes late: an empty queue with a consumer outside `pop`, and none
  -- in it, can come to read the front of an empty queue, with one push and no wait that ends by itself.
  pub late_notification_faults :
      (object : A) (q : BlockingQueue A)
      → q.the_queue ≡ []
      → 0 < q.idle
      → q.waiting ≡ 0
      → q.woken ≡ 0
      → q.faulted ≡ false
      → (r : BlockingQueue A) × Reach q r × (r.faulted ≡ true)
  late_notification_faults object q empty i w k runs =
      let same : q ≡ emptied (q.idle - 1) q.unnotified q.pushed q.popped = ground arith in
      subst (λ t. (r : BlockingQueue A) × Reach t r × (r.faulted ≡ true)) (sym same)
        (emptied_faults object (q.idle - 1) q.unnotified q.pushed q.popped)
