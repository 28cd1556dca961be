-- ===== src/BlockingQueue.antt =====
-- src/utils/BlockingQueue.h: a queue between threads, a critical section of its mutex at a time.
-- `push` notifies after it has unlocked, so that its notification is a step of its own.
pub mod Fifo
pub mod Wakeups
mod Tests
use networking_project_chat.Prelude.{
  ℕ, ◌+◌, ◌-◌, ◌<◌, ◌≡◌, List, [], ◌∷◌, ◌++◌, Bool, true, false, ltb, if◌then◌else◌,
}

-- `idle`, `waiting` and `woken` count the consumers outside `pop`, those in `cond.wait`, and those
-- that have left it and not yet the lock. `unnotified` counts the pushes before their notification,
-- `pushed` and `popped` are what has gone in and out, and `faulted` says that `front` of an empty
-- queue has been read.
pub record BlockingQueue {ℓ} (A : Type ℓ) : Type ℓ where
  pub the_queue : List A
  pub idle : ℕ
  pub waiting : ℕ
  pub woken : ℕ
  pub unnotified : ℕ
  pub pushed : List A
  pub popped : List A
  pub faulted : Bool

module _ {ℓ} {A : Type ℓ} where
  unfoldable pub blocking_queue : ℕ → BlockingQueue A
  blocking_queue consumers = record {
    the_queue = [];
    idle = consumers;
    waiting = 0;
    woken = 0;
    unnotified = 0;
    pushed = [];
    popped = [];
    faulted = false;
  }

  -- The critical section of `push`.
  unfoldable pub push : A → BlockingQueue A → BlockingQueue A
  push object q = record q {
    the_queue = q.the_queue ++ object ∷ [];
    unnotified = q.unnotified + 1;
    pushed = q.pushed ++ object ∷ [];
  }

  -- `cond.notify_one()`, which wakes a consumer that waits, if there is one.
  unfoldable pub notify_one : BlockingQueue A → BlockingQueue A
  notify_one q =
      if ltb 0 q.waiting
      then record q { unnotified = q.unnotified - 1; waiting = q.waiting - 1; woken = q.woken + 1 }
      else record q { unnotified = q.unnotified - 1 }

  -- The end of `pop`, with the lock held.
  unfoldable pub take_front : BlockingQueue A → BlockingQueue A
  take_front q = elim q.the_queue [
    | [] ↦ record q { faulted = true }
    | x ∷ xs ↦ record q { the_queue = xs; idle = q.idle + 1; popped = q.popped ++ x ∷ [] }
  ]

  -- `pop` up to its return or to its wait.
  unfoldable pub pop : BlockingQueue A → BlockingQueue A
  unfolding take_front
  pop q = elim q.the_queue [
    | [] ↦ record q { idle = q.idle - 1; waiting = q.waiting + 1 }
    | x ∷ xs ↦ take_front (record q { idle = q.idle - 1 })
  ]

  -- `pop` after its wait: the queue is not looked at again before its front is read.
  unfoldable pub resume : BlockingQueue A → BlockingQueue A
  unfolding take_front
  resume q = take_front (record q { woken = q.woken - 1 })

  -- A wait that ends by itself, as the standard allows.
  unfoldable pub wake_spuriously : BlockingQueue A → BlockingQueue A
  wake_spuriously q = record q { waiting = q.waiting - 1; woken = q.woken + 1 }

  -- The steps of the producers and the consumers, in any order.
  pub data Step (q : BlockingQueue A) : BlockingQueue A → Type ℓ where
    pushes : (object : A) → Step q (push object q)
    notifies : 0 < q.unnotified → Step q (notify_one q)
    pops : 0 < q.idle → Step q (pop q)
    resumes : 0 < q.woken → Step q (resume q)
    wakes : 0 < q.waiting → Step q (wake_spuriously q)

  -- The queues that come of `q`, as long as nothing has faulted.
  pub data Reach (q : BlockingQueue A) : BlockingQueue A → Type ℓ where
    here : Reach q q
    next : {r s : BlockingQueue A} → Reach q r → r.faulted ≡ false → Step r s → Reach q s
