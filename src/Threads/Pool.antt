-- ===== src/Threads/Pool.antt =====
-- `ThreadPool`: the queue, and a state for each thread. `accepted` and `started` are a record of
-- what happened: the tasks that `addTask` took, and those that a thread began, in order.
use handy_copy.Threads.Queue.{Queue, push, ready, pop, exit}
use handy_copy.Base.{
  All, Bool, List, [], false, get_elem?, if◌then◌else◌, map, none, not, replicate, set, some, suc,
  true, zero, ℕ, ◌++◌, ◌∷◌, ◌≡◌,
}

-- Where a thread stands: before `tasks_.exited()`; in `pop_wait` with the mutex; asleep in
-- `ready_.wait`; woken from there; running its task; or behind its loop.
pub data Worker {ℓ} (A : Type ℓ) : Type ℓ where
  idle entering asleep woken finished : Worker A
  running : A → Worker A

pub record Pool {ℓ} (A : Type ℓ) : Type ℓ where
  pub queue : Queue A
  pub workers : List (Worker A)
  pub notified : Bool
  pub accepted : List A
  pub started : List A

module _ {ℓ} {A : Type ℓ} where
  -- The constructor with `start`: `threads` threads, none of which has run.
  unfoldable pub new : ℕ → ℕ → Pool A
  new threads capacity = record {
    queue = record { items = []; capacity = capacity; exited = false };
    workers = replicate threads idle;
    notified = false;
    accepted = [];
    started = [];
  }

  -- A sleeper is woken; the others go on as they are.
  unfoldable pub wake : Worker A → Worker A
  wake asleep = woken
  wake w = w

  unfoldable pub wake_at : ℕ → List (Worker A) → List (Worker A)
  wake_at i [] = []
  wake_at zero (w ∷ ws) = wake w ∷ ws
  wake_at (suc i) (w ∷ ws) = w ∷ wake_at i ws

  -- `addTask`, of which `notify_one` wakes thread `i`.
  unfoldable pub add_task : Pool A → A → ℕ → Pool A
  unfolding wake_at wake
  add_task p v i =
      let (taken, q) = push p.queue v in
      if taken
      then record p { queue = q; workers = wake_at i p.workers; accepted = p.accepted ++ v ∷ [] }
      else p

  -- `exit` sets the flag, and wakes all sleepers later.
  unfoldable pub exit_flag : Pool A → Pool A
  exit_flag p = record p { queue = exit p.queue }

  unfoldable pub exit_notify : Pool A → Pool A
  unfolding wake
  exit_notify p = record p { workers = map wake p.workers; notified = true }

  -- `pop_wait` with the mutex: it sleeps, or fails, or takes a task.
  unfoldable pub pop_wait : Pool A → Pool A × Worker A
  pop_wait p =
      if not (ready p.queue)
      then (p, asleep)
      else let (got, q) = pop p.queue in
        elim got [
          | none ↦ (record p { queue = q }, idle)
          | some v ↦ (record p { queue = q; started = p.started ++ v ∷ [] }, running v)
        ]

  -- The next step of a thread: the loop of `start`.
  unfoldable pub advance : Pool A → Worker A → Pool A × Worker A
  unfolding pop_wait
  advance p idle = if p.queue.exited then (p, finished) else (p, entering)
  advance p entering = pop_wait p
  advance p woken = pop_wait p
  advance p (running v) = (p, idle)
  advance p asleep = (p, asleep)
  advance p finished = (p, finished)

  -- Thread `i` takes its next step.
  unfoldable pub run_worker : Pool A → ℕ → Pool A
  unfolding advance
  run_worker p i = elim (get_elem? p.workers i) [
    | none ↦ p
    | some w ↦ let (p', w') = advance p w in record p' { workers = set p.workers i w' }
  ]

  abbrev pub IsAsleep : Worker A → Type 0
  IsAsleep asleep = Unit
  IsAsleep _ = ⊥

  abbrev pub AllAwake : List (Worker A) → Type 0
  AllAwake = All (λ w. ¬ IsAsleep w)

  -- `notify_one` wakes a sleeper if there is one.
  pub data Chosen (ws : List (Worker A)) (i : ℕ) : Type ℓ where
    sleeper : get_elem? ws i ≡ some asleep → Chosen ws i
    nobody : AllAwake ws → Chosen ws i

  -- What may happen next. `spurious` is a wake-up without a notification.
  pub data Step (p : Pool A) : Pool A → Type ℓ where
    add : (v : A) (i : ℕ) → Chosen p.workers i → Step p (add_task p v i)
    leave : Step p (exit_flag p)
    notify : p.queue.exited ≡ true → Step p (exit_notify p)
    turn : (i : ℕ) → Step p (run_worker p i)
    spurious : (i : ℕ) → Step p (record p { workers = wake_at i p.workers })

  pub data Reach (s : Pool A) : Pool A → Type ℓ where
    here : Reach s s
    next : {t u : Pool A} → Reach s t → Step t u → Reach s u
