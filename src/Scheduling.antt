-- ===== src/Scheduling.antt =====
-- scheduler/my_scheduler.h, my_threadpool.h and my_interruptSleep.h: the scheduler `xy::Scheduler`, its
-- pool of threads and the sleep that an added task interrupts. A time point is a number, and `clock n`
-- is what the n-th call of `Clock::now()` gives. A multimap is a list in the order of its keys, and of
-- one key in the order of the insertions. `T` is the type of the functions.
pub mod Order
pub mod Due
pub mod Awake
pub mod Pool
mod Tests
use handy_copy.Base.{
  Bool, List, [], false, if◌then◌else◌, leb, ltb, suc, true, ℕ, ◌++◌, ◌+◌, ◌||◌, ◌∷◌,
}

-- `TaskAt`, and `TaskEvery` with its `dura_`.
pub data Task (T : Type 0) : Type 0 where
  task_at : T → Task T
  task_every : ℕ → T → Task T

module _ {T : Type 0} where
  -- `getFun`, `bInterval`, and `getNextTime` at a time.
  unfoldable pub get_fun : Task T → T
  get_fun (task_at f) = f
  get_fun (task_every d f) = f

  unfoldable pub is_interval : Task T → Bool
  is_interval (task_at f) = false
  is_interval (task_every d f) = true

  unfoldable pub get_next_time : ℕ → Task T → ℕ
  get_next_time now (task_at f) = 0
  get_next_time now (task_every d f) = now + d

-- `InterruptSleep` is its flag: whether a sleep is over at a time, and what the sleep leaves.
unfoldable pub interrupt : Bool → Bool
interrupt flag = true

-- `sleep` waits for the flag, `sleep_until` and `sleep_for` for a time also.
unfoldable pub sleep_over : Bool → Bool
sleep_over flag = flag

unfoldable pub sleep_until_over : ℕ → ℕ → Bool → Bool
sleep_until_over time_point now flag = flag || leb time_point now

unfoldable pub sleep_for_over : ℕ → ℕ → ℕ → Bool → Bool
unfolding sleep_until_over
sleep_for_over start dura now flag = sleep_until_over (start + dura) now flag

-- `given` is the record of what `threadPool_.addTask` got.
pub record Scheduler (T : Type 0) : Type 0 where
  pub tasks : List (ℕ × Task T)
  pub interrupted : Bool
  pub exited : Bool
  pub given : List T

module _ {T : Type 0} where
  unfoldable pub new : Scheduler T
  new = record { tasks = []; interrupted = false; exited = false; given = [] }

  -- `multimap::emplace`
  unfoldable pub emplace : ℕ → Task T → List (ℕ × Task T) → List (ℕ × Task T)
  emplace t v [] = (t, v) ∷ []
  emplace t v ((s, w) ∷ l) =
      let later = emplace t v l in if ltb t s then (t, v) ∷ (s, w) ∷ l else (s, w) ∷ later

  -- `addTask`
  unfoldable pub add_task : ℕ → Task T → Scheduler T → Scheduler T
  unfolding emplace interrupt
  add_task t v s = record s { tasks = emplace t v s.tasks; interrupted = interrupt s.interrupted }

  -- `runAt`, `runAfter` and `runEvery`, at a time.
  unfoldable pub run_at : ℕ → T → Scheduler T → Scheduler T
  unfolding add_task
  run_at t f s = add_task t (task_at f) s

  unfoldable pub run_after : ℕ → ℕ → T → Scheduler T → Scheduler T
  unfolding run_at
  run_after now dura f s = run_at (now + dura) f s

  unfoldable pub run_every : ℕ → ℕ → T → Scheduler T → Scheduler T
  unfolding add_task get_next_time
  run_every now dura f s = add_task (get_next_time now (task_every dura f)) (task_every dura f) s

  -- The entries up to `upper_bound(now)`, and the others.
  unfoldable pub due : ℕ → List (ℕ × Task T) → List (ℕ × Task T)
  due now [] = []
  due now ((s, w) ∷ l) = let more = due now l in if leb s now then (s, w) ∷ more else []

  unfoldable pub rest : ℕ → List (ℕ × Task T) → List (ℕ × Task T)
  rest now [] = []
  rest now ((s, w) ∷ l) = let more = rest now l in if leb s now then more else (s, w) ∷ l

  -- `everyTask`, of which `n` calls of the clock were made before.
  unfoldable pub every_task :
      (ℕ → ℕ) → ℕ → List (ℕ × Task T) → List (ℕ × Task T) → List (ℕ × Task T)
  unfolding emplace get_next_time
  every_task clock n acc [] = acc
  every_task clock n acc ((s, task_at f) ∷ l) = every_task clock n acc l
  every_task clock n acc ((s, task_every d f) ∷ l) =
      every_task clock (suc n)
        (emplace (get_next_time (clock n) (task_every d f)) (task_every d f) acc) l

  -- The last loop: `everyTask` goes into `mapTasks_`.
  unfoldable pub emplace_all : List (ℕ × Task T) → List (ℕ × Task T) → List (ℕ × Task T)
  unfolding emplace
  emplace_all [] tasks = tasks
  emplace_all ((t, v) ∷ l) tasks = emplace_all l (emplace t v tasks)

  abbrev pub funs : List (ℕ × Task T) → List T
  funs [] = []
  funs ((s, w) ∷ l) = get_fun w ∷ funs l

  -- The body of `if (endOfTaskToRun != mapTasks_.begin())`, where `now` is the first entries' bound.
  unfoldable pub exec_due : (ℕ → ℕ) → ℕ → List (ℕ × Task T) → Scheduler T → Scheduler T
  unfolding every_task emplace_all rest
  exec_due clock now [] s = s
  exec_due clock now (e ∷ l) s = record s {
    tasks = emplace_all (every_task clock 1 [] (e ∷ l)) (rest now s.tasks);
    given = s.given ++ funs (e ∷ l);
  }

  -- `execNearestAndUpdate`
  unfoldable pub exec_nearest_and_update : (ℕ → ℕ) → Scheduler T → Scheduler T
  unfolding exec_due due
  exec_nearest_and_update clock s = exec_due clock (clock 0) (due (clock 0) s.tasks) s
