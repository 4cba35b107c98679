-- ===== src/Scheduling/Tests.antt =====
-- A scheduler with two tasks, and a pool with one thread.
use handy_copy.Scheduling.{
  get_fun, Scheduler, add_task, exec_nearest_and_update, new, task_at, task_every,
}
use handy_copy.Scheduling.Due.{Round, exec_nearest_and_update-Round}
use handy_copy.Scheduling.Awake.{
  Reach, Running, can_wake, reach_wakes, started, at_loop, step, here, sleeps, added,
}
use handy_copy.Scheduling.Pool.{
  InTurn, PoolReach, ThreadPool, add_to_pool, new_pool, reach-InTurn, turn, turns, waiting, adds,
  testing, fresh,
}
use handy_copy.Base.{[], arith, false, refl, true, ℕ, ◌+◌, ◌∷◌, ◌≡◌}

-- Task 7 at 5, and task 8 every 10 from 3 on.
abbrev two_tasks : Scheduler ℕ
two_tasks = record {
  tasks = (3, task_every 10 8) ∷ (5, task_at 7) ∷ [];
  interrupted = true;
  exited = false;
  given = [];
}

both_run : (exec_nearest_and_update (λ n. 6 + n) two_tasks).given ≡ 8 ∷ 7 ∷ []
unfolding exec_nearest_and_update get_fun
both_run = refl

one_stays : (exec_nearest_and_update (λ n. 6 + n) two_tasks).tasks ≡ (17, task_every 10 8) ∷ []
unfolding exec_nearest_and_update
one_stays = refl

exec_nearest_and_update-Round_example :
    Round (λ n. 6 + n) two_tasks (exec_nearest_and_update (λ n. 6 + n) two_tasks)
exec_nearest_and_update-Round_example =
    exec_nearest_and_update-Round (λ n. 6 + n) two_tasks ((omega arith, tt), (tt, tt))
      (omega arith, tt) (λ i. omega arith)

-- The loop sleeps, and then a task is added.
abbrev sleeping : Running ℕ
sleeping = record started { position = at_loop {T = ℕ} new }

abbrev with_task : Running ℕ
with_task = record sleeping { scheduler = add_task 5 (task_at 7) new }

with_task-Reach : Reach started with_task
unfolding started
with_task-Reach = step (step here (sleeps refl)) (added 5 (task_at 7))

reach_wakes_example : can_wake 6 with_task ≡ true
unfolding add_task new
reach_wakes_example = reach_wakes with_task 6 with_task-Reach refl

abbrev one_began : ThreadPool ℕ
one_began = turn 0 waiting (turn 0 testing (add_to_pool 7 (new_pool 1)))

one_began-PoolReach : PoolReach 1 one_began
unfolding new_pool add_to_pool turn
one_began-PoolReach = turns (turns (adds fresh 7) 0 testing refl) 0 waiting refl

reach-InTurn_example : InTurn one_began
reach-InTurn_example = reach-InTurn 1 one_began one_began-PoolReach
