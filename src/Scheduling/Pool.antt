-- ===== src/Scheduling/Pool.antt =====
-- `SafeQueue` and `ThreadPool` of scheduler/my_threadpool.h. What a method does with the mutex is one
-- step. `accepted` and `started` are a record of the tasks that were added and begun.
-- `T` is the type of the tasks; a NULL task is `none`.
use handy_copy.Base.{
  Bool, List, Option, [], ap, append_assoc, false, get_elem?, if_both, if◌then◌else◌, none, refl,
  replicate, set, some, sym, true, ℕ, ◌++◌, ◌∙◌, ◌∷◌, ◌≡◌,
}

pub record SafeQueue (T : Type 0) : Type 0 where
  pub items : List T
  pub stopped : Bool

module _ {T : Type 0} where
  -- `pop`: what it returns, what `value` is set to, and the queue.
  unfoldable pub pop : SafeQueue T → Option T × SafeQueue T
  pop q = elim q.items [ [] ↦ (none, q) | v ∷ l ↦ (some v, record q { items = l }) ]

  -- `lb_cond` of `wait_ready`.
  unfoldable pub ready : SafeQueue T → Bool
  ready q = elim q.items [ [] ↦ q.stopped | v ∷ l ↦ true ]

  -- Both `push`.
  unfoldable pub push : T → SafeQueue T → SafeQueue T
  push v q = record q { items = q.items ++ v ∷ [] }

  unfoldable pub is_empty : SafeQueue T → Bool
  is_empty q = elim q.items [ [] ↦ true | v ∷ l ↦ false ]

  unfoldable pub stop_queue : SafeQueue T → SafeQueue T
  stop_queue q = record q { stopped = true }

-- A thread of `start`: before the test of `stop_`, in `pop_wait`, with its task, or behind the loop.
pub data Worker (T : Type 0) : Type 0 where
  testing waiting finished : Worker T
  running : T → Worker T

pub record ThreadPool (T : Type 0) : Type 0 where
  pub tasks : SafeQueue T
  pub workers : List (Worker T)
  pub stopped : Bool
  pub accepted : List T
  pub started : List T

module _ {T : Type 0} where
  -- A pool whose threads run.
  unfoldable pub new_pool : ℕ → ThreadPool T
  new_pool nums = record {
    tasks = record { items = []; stopped = false };
    workers = replicate nums testing;
    stopped = false;
    accepted = [];
    started = [];
  }

  -- Both `addTask`.
  unfoldable pub add_to_pool : T → ThreadPool T → ThreadPool T
  unfolding push
  add_to_pool v p = record p { tasks = push v p.tasks; accepted = p.accepted ++ v ∷ [] }

  -- `stop`
  unfoldable pub stop_pool : ThreadPool T → ThreadPool T
  unfolding stop_queue
  stop_pool p = record p { stopped = true; tasks = stop_queue p.tasks }

  -- What thread `i` is behind `pop_wait`, which gave a task or NULL.
  unfoldable pub popped : ℕ → Option T × SafeQueue T → ThreadPool T → ThreadPool T
  popped i (none, q) p = record p { tasks = q; workers = set p.workers i testing }
  popped i (some v, q) p = record p {
    tasks = q;
    workers = set p.workers i (running v);
    started = p.started ++ v ∷ [];
  }

  -- A step of thread `i`, which stands as said; `pop_wait` goes on when it is ready.
  unfoldable pub turn : ℕ → Worker T → ThreadPool T → ThreadPool T
  unfolding popped pop ready
  turn i testing p = record p {
    workers = set p.workers i (if p.stopped then finished else waiting);
  }
  turn i waiting p = if ready p.tasks then popped i (pop p.tasks) p else p
  turn i (running v) p = record p { workers = set p.workers i testing }
  turn i finished p = p

  -- Tasks are added, the pool is stopped and the threads go on, in any order.
  pub data PoolReach (nums : ℕ) : ThreadPool T → Type 0 where
    fresh : PoolReach nums (new_pool nums)
    adds : {p : ThreadPool T} → PoolReach nums p → (v : T) → PoolReach nums (add_to_pool v p)
    stops : {p : ThreadPool T} → PoolReach nums p → PoolReach nums (stop_pool p)
    turns :
        {p : ThreadPool T}
        → PoolReach nums p
        → (i : ℕ) (w : Worker T) → get_elem? p.workers i ≡ some w
        → PoolReach nums (turn i w p)

  abbrev pub InTurn : ThreadPool T → Type 0
  InTurn p = p.accepted ≡ p.started ++ p.tasks.items

  pop-items :
      (q : SafeQueue T) (l : List T)
      → q.items ≡ l
      → (i : ℕ) (p : ThreadPool T) → p.accepted ≡ p.started ++ l
      → InTurn (popped i (elim l [ [] ↦ (none, q) | v ∷ k ↦ (some v, record q { items = k }) ]) p)
  unfolding popped
  pop-items q [] e i p h = h ∙ ap (λ t. p.started ++ t) (sym e)
  pop-items q (v ∷ k) e i p h = h ∙ sym (append_assoc p.started (v ∷ []) k)

  turn-InTurn : (i : ℕ) (w : Worker T) (p : ThreadPool T) → InTurn p → InTurn (turn i w p)
  unfolding turn
  turn-InTurn i testing p h = h
  turn-InTurn i waiting p h =
      if_both InTurn (ready p.tasks) (pop-items p.tasks p.tasks.items refl i p h) h
  turn-InTurn i (running v) p h = h
  turn-InTurn i finished p h = h

  add-InTurn : (v : T) (p : ThreadPool T) → InTurn p → InTurn (add_to_pool v p)
  unfolding add_to_pool
  add-InTurn v p h = ap (λ t. t ++ v ∷ []) h ∙ append_assoc p.started p.tasks.items (v ∷ [])

  -- However the threads take turns, the tasks that they began are those that were added first, in
  -- the order of the calls of `addTask`, each once; the others wait in the queue in that order.
  pub reach-InTurn : (nums : ℕ) (p : ThreadPool T) → PoolReach nums p → InTurn p
  unfolding new_pool stop_pool
  reach-InTurn nums _ fresh = refl
  reach-InTurn nums _ (adds {p} r v) = add-InTurn v p (reach-InTurn nums p r)
  reach-InTurn nums _ (stops {p} r) = reach-InTurn nums p r
  reach-InTurn nums _ (turns {p} r i w e) = turn-InTurn i w p (reach-InTurn nums p r)
