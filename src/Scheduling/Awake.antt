-- ===== src/Scheduling/Awake.antt =====
-- The loop of the constructor, in turns with the threads that add tasks and that end the scheduler.
-- The loop reads `mapTasks_` without the mutex, in a step of its own.
use handy_copy.Scheduling.{
  Scheduler, Task, add_task, exec_nearest_and_update, interrupt, new, sleep_over, sleep_until_over,
}
use handy_copy.Scheduling.Order.{From, Sorted, emplace-Sorted}
use handy_copy.Scheduling.Due.{exec_nearest_and_update-Sorted}
use handy_copy.Base.{
  Bool, List, [], false, if◌then◌else◌, leb, true, ℕ, ◌||◌, ◌∷◌, ◌≡◌, ◌⊎◌, Bool-cases, ap, arith,
  inl, inr, leb→le, refl, subst, sym, ◌∙◌, ◌≤◌,
}

-- Where the loop stands: before the test of `bExit_`, in `sleep`, in `sleep_until`, before
-- `execNearestAndUpdate`, or behind the loop.
pub data Position : Type 0 where
  at_top asleep executing ended : Position
  asleep_until : ℕ → Position

pub record Running (T : Type 0) : Type 0 where
  pub scheduler : Scheduler T
  pub position : Position

until_true : (b : Bool) (t now : ℕ) → t ≤ now → (b || leb t now) ≡ true
until_true b t now h = ground arith

module _ {T : Type 0} where
  unfoldable pub started : Running T
  unfolding new
  started = record { scheduler = new; position = at_top }

  -- The choice of the sleep.
  unfoldable pub next_sleep : List (ℕ × Task T) → Position
  next_sleep [] = asleep
  next_sleep ((t, v) ∷ l) = asleep_until t

  unfoldable pub at_loop : Scheduler T → Position
  unfolding next_sleep
  at_loop s = if s.exited then ended else next_sleep s.tasks

  -- Whether the loop can go on at a time.
  unfoldable pub can_wake : ℕ → Running T → Bool
  unfolding sleep_over sleep_until_over
  can_wake now r = elim r.position [
    | asleep ↦ sleep_over r.scheduler.interrupted
    | asleep_until t ↦ sleep_until_over t now r.scheduler.interrupted
    | _ ↦ true
  ]

  -- The steps: a thread adds a task, the scheduler is told to end, `interrupt` is called, the loop
  -- goes to sleep or ends, the sleep is over at a time, and the loop runs what is due.
  pub data Step (r : Running T) : Running T → Type 0 where
    added : (t : ℕ) (v : Task T) → Step r (record r { scheduler = add_task t v r.scheduler })
    told_to_end : Step r (record r { scheduler = record r.scheduler { exited = true } })
    interrupts : Step r (record r {
      scheduler = record r.scheduler { interrupted = interrupt r.scheduler.interrupted };
    })
    sleeps : r.position ≡ at_top → Step r (record r { position = at_loop r.scheduler })
    wakes :
        (now : ℕ)
        → can_wake now r ≡ true
        → (r.position ≡ asleep) ⊎ ((t : ℕ) × (r.position ≡ asleep_until t))
        → Step r (record {
          scheduler = record r.scheduler { interrupted = false };
          position = executing;
        })
    executes :
        (clock : ℕ → ℕ)
        → r.position ≡ executing
        → Step r
            (record { scheduler = exec_nearest_and_update clock r.scheduler; position = at_top })

  pub data Reach (r : Running T) : Running T → Type 0 where
    here : Reach r r
    step : {q p : Running T} → Reach r q → Step q p → Reach r p

  -- Some task is up to a time.
  abbrev pub any_due : ℕ → List (ℕ × Task T) → Bool
  any_due now [] = false
  any_due now ((t, v) ∷ l) = leb t now || any_due now l

  -- A loop that sleeps has nothing to do before it wakes, or the flag is set.
  abbrev pub Awake : Position → Scheduler T → Type 0
  Awake asleep s = (s.tasks ≡ []) ⊎ (s.interrupted ≡ true)
  Awake (asleep_until t) s = From t s.tasks ⊎ (s.interrupted ≡ true)
  Awake at_top s = Unit
  Awake executing s = Unit
  Awake ended s = Unit

  -- A sleep until the first task.
  next_sleep-Awake :
      (s : Scheduler T) (l : List (ℕ × Task T)) → s.tasks ≡ l → Sorted l → Awake (next_sleep l) s
  unfolding next_sleep
  next_sleep-Awake s [] e h = inl e
  next_sleep-Awake s ((t, v) ∷ l) e h = inl (subst (From t) (sym e) (omega arith, h.0))

  at_loop-Awake :
      (s : Scheduler T) (b : Bool)
      → Sorted s.tasks
      → Awake (if b then ended else next_sleep s.tasks) s
  at_loop-Awake s true h = tt
  at_loop-Awake s false h = next_sleep-Awake s s.tasks refl h

  flag-Awake : (p : Position) (s : Scheduler T) → s.interrupted ≡ true → Awake p s
  flag-Awake asleep s e = inr e
  flag-Awake (asleep_until t) s e = inr e
  flag-Awake at_top s e = tt
  flag-Awake executing s e = tt
  flag-Awake ended s e = tt

  exited-Awake : (p : Position) (s : Scheduler T) → Awake p s → Awake p (record s { exited = true })
  exited-Awake asleep s e = e
  exited-Awake (asleep_until t) s e = e
  exited-Awake at_top s e = tt
  exited-Awake executing s e = tt
  exited-Awake ended s e = tt

  add_task-Awake : (p : Position) (t : ℕ) (v : Task T) (s : Scheduler T) → Awake p (add_task t v s)
  unfolding add_task interrupt
  add_task-Awake p t v s = flag-Awake p (add_task t v s) refl

  add_task-Sorted :
      (t : ℕ) (v : Task T) (s : Scheduler T) → Sorted s.tasks → Sorted (add_task t v s).tasks
  unfolding add_task
  add_task-Sorted t v s h = emplace-Sorted t v s.tasks h

  step-Awake :
      {q p : Running T}
      → Step q p
      → Awake q.position q.scheduler × Sorted q.scheduler.tasks
      → Awake p.position p.scheduler × Sorted p.scheduler.tasks
  unfolding at_loop interrupt
  step-Awake {q} (added t v) (a, h) =
      (add_task-Awake q.position t v q.scheduler, add_task-Sorted t v q.scheduler h)
  step-Awake {q} told_to_end (a, h) = (exited-Awake q.position q.scheduler a, h)
  step-Awake {q} interrupts (a, h) =
      (flag-Awake q.position (record q.scheduler { interrupted = true }) refl, h)
  step-Awake {q} (sleeps e) (a, h) = (at_loop-Awake q.scheduler q.scheduler.exited h, h)
  step-Awake {q} (wakes now e s) (a, h) = (tt, h)
  step-Awake {q} (executes clock e) (a, h) =
      (tt, exec_nearest_and_update-Sorted clock q.scheduler h)

  reach-Awake :
      {q p : Running T}
      → Reach q p
      → Awake q.position q.scheduler × Sorted q.scheduler.tasks
      → Awake p.position p.scheduler × Sorted p.scheduler.tasks
  reach-Awake here a = a
  reach-Awake (step r s) a = step-Awake s (reach-Awake r a)

  no_due : (now t : ℕ) (l : List (ℕ × Task T)) → From t l → any_due now l ≡ true → t ≤ now
  no_due now t [] f h = absurd (cc h)
  no_due now t ((s, w) ∷ l) f h = elim (Bool-cases (leb s now)) [
    | inl e ↦ let up_to = leb→le s now e in omega (arith, f.0)
    | inr e ↦ no_due now t l f.1 (ap (λ b. b || any_due now l) (sym e) ∙ h)
  ]

  due_wakes :
      (now : ℕ) (p : Position) (s : Scheduler T)
      → Awake p s
      → any_due now s.tasks ≡ true
      → can_wake now (record { scheduler = s; position = p }) ≡ true
  unfolding can_wake
  due_wakes now asleep s (inl e) h = absurd (cc (ap (any_due now) (sym e) ∙ h))
  due_wakes now asleep s (inr e) h = e
  due_wakes now (asleep_until t) s (inl f) h =
      until_true s.interrupted t now (no_due now t s.tasks f h)
  due_wakes now (asleep_until t) s (inr e) h = ap (λ b. b || leb t now) e
  due_wakes now at_top s a h = refl
  due_wakes now executing s a h = refl
  due_wakes now ended s a h = refl

  -- In every state that is reached from the start, by tasks that are added, interrupts and an end
  -- at any moment, if the time of a task has come then the loop does not go on sleeping.
  pub reach_wakes :
      (r : Running T) (now : ℕ)
      → Reach started r
      → any_due now r.scheduler.tasks ≡ true
      → can_wake now r ≡ true
  unfolding started
  reach_wakes r now reach h = due_wakes now r.position r.scheduler (reach-Awake reach (tt, tt)).0 h
