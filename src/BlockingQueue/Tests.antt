-- ===== src/BlockingQueue/Tests.antt =====
-- The queue at concrete runs.
use networking_project_chat.Prelude.{ℕ, ◌+◌, ◌<◌, ◌≡◌, refl, ◌++◌, true, arith}
use networking_project_chat.BlockingQueue.{
  BlockingQueue, blocking_queue, push, pop, Reach, here, next, pushes, pops,
}
use networking_project_chat.BlockingQueue.Fifo.{Reach-Fifo}
use networking_project_chat.BlockingQueue.Wakeups.{Reach-awaited, late_notification_faults}

-- Two consumers, of which one waits, and a push that is not notified yet.
abbrev busy_queue : BlockingQueue ℕ
busy_queue = push 7 (pop (blocking_queue 2))

busy_queue_run : Reach (blocking_queue 2) busy_queue
unfolding blocking_queue pop
busy_queue_run = next (next here refl (pops (omega arith))) refl (pushes 7)

Reach-Fifo_example : busy_queue.popped ++ busy_queue.the_queue ≡ busy_queue.pushed
Reach-Fifo_example = Reach-Fifo 2 busy_queue busy_queue_run

Reach-awaited_example : 0 < busy_queue.unnotified + busy_queue.woken
unfolding blocking_queue pop push
Reach-awaited_example = Reach-awaited 2 busy_queue busy_queue_run (omega arith) (cc)

late_notification_faults_example :
    (r : BlockingQueue ℕ) × Reach (blocking_queue 1) r × (r.faulted ≡ true)
unfolding blocking_queue
late_notification_faults_example =
    late_notification_faults 7 (blocking_queue 1) refl (omega arith) refl refl refl
