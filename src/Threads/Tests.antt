-- ===== src/Threads/Tests.antt =====
-- A pool of two threads with a queue of one task.
use handy_copy.Threads.Queue.{push, ready, pop}
use handy_copy.Threads.Pool.{
  Pool, new, add_task, run_worker, AllAwake, nobody, Reach, next, here, add, turn,
}
use handy_copy.Threads.Order.{InOrder, Reach-new-InOrder}
use handy_copy.Threads.Wakeup.{AllAsleep, Reach-new-NoLostWakeup}
use handy_copy.Base.{[], arith, false, refl, true, ℕ, ◌∷◌, ◌≡◌, ◌≢◌}

-- Task 7 is accepted, and thread 0 takes it; task 8 waits.
abbrev after_add : Pool ℕ
after_add = add_task (new 2 1) 7 0

abbrev served : Pool ℕ
served = add_task (run_worker (run_worker after_add 0) 0) 8 1

served-Reach : Reach (new 2 1) served
unfolding new add_task run_worker push ready pop
served-Reach =
    next (next (next (next here (add 7 0 (nobody (λ h. h, (λ h. h, tt))))) (turn 0)) (turn 0))
      (add 8 1 (nobody (λ h. h, (λ h. h, tt))))

served_state :
    (served.started ≡ 7 ∷ []) × (served.queue.items ≡ 8 ∷ []) × (served.accepted ≡ 7 ∷ 8 ∷ [])
unfolding new add_task run_worker push ready pop
served_state = (refl, refl, refl)

-- The queue is full for a third task.
served_full : (add_task served 9 1).accepted ≡ 7 ∷ 8 ∷ []
unfolding new add_task run_worker push ready pop
served_full = refl

Reach-new-InOrder_example : InOrder served
Reach-new-InOrder_example = Reach-new-InOrder 2 1 served served-Reach

Reach-new-NoLostWakeup_example :
    (served.queue.exited ≡ false → served.queue.items ≢ [] → ¬ AllAsleep served.workers)
    × (served.notified ≡ true → (served.queue.exited ≡ true) × AllAwake served.workers)
Reach-new-NoLostWakeup_example = Reach-new-NoLostWakeup 2 1 served (omega arith) served-Reach
