-- ===== src/Timers.antt =====
-- handy/event_base.cc: the timers of `EventsImp`. Times are milliseconds from 0 on that do not
-- overflow an `int64_t`, and `now` is what `util::timeMilli()` gives to the call. `timers_` is a list
-- in the order of its keys, `timerReps_` a function; a pointer to an entry of `timerReps_` is the key
-- of that entry. `Option` is for what is undefined in C++: `none` is a use of a missing entry.
pub mod Map
pub mod Inv
pub mod Cancel
pub mod Due
pub mod Expiry
pub mod Nearest
pub mod Undo
mod Tests
use handy_copy.Base.Int.{ℤ, pos, negsuc, pos_part, neg_part, sub_ℕ}
use Map.{Key, find, assign, insert, erase, key_ltb}
use handy_copy.Base.{
  Bool, List, Option, [], false, if◌then◌else◌, ltb, none, not, some, true, ℕ, ◌%◌, ◌&&◌, ◌++◌, ◌+◌,
  ◌-◌, ◌==◌, ◌^◌, ◌∷◌, min, suc, zero,
}

-- What `runAt` returns and `cancel` takes.
pub record TimerId : Type 0 where
  pub at : ℤ
  pub seq : ℕ

abbrev pub id_eq : TimerId → TimerId → Bool
id_eq a b = pos_part a.at + neg_part b.at == pos_part b.at + neg_part a.at && a.seq == b.seq

-- `TimerRepeatable`
pub record Rep (T : Type 0) : Type 0 where
  pub at : ℕ
  pub interval : ℕ
  pub key : Key
  pub cb : T

-- A function in `timers_`: a task, or the call of `repeatableTimeout` on an entry.
pub data Job (T : Type 0) : Type 0 where
  once : T → Job T
  again : TimerId → Job T

pub record Events (T : Type 0) : Type 0 where
  pub timers : List (Key × Job T)
  pub reps : TimerId → Option (Rep T)
  pub seq : ℕ
  pub next_timeout : ℕ
  pub exited : Bool
  pub ran : List T

-- `fault` is a use of a missing entry.
pub data Outcome (T : Type 0) : Type 0 where
  done : Events T → Outcome T
  fault out_of_fuel : Outcome T

abbrev pub no_timeout : ℕ
no_timeout = 2 ^ 30

-- The `int` that holds `t.first - util::timeMilli()`, 0 if that is negative.
unfoldable pub clip : ℕ → ℕ → ℕ
clip at now = let w = (at + (2 ^ 32 - now % 2 ^ 32)) % 2 ^ 32 in if ltb w (2 ^ 31) then w else 0

-- `-milli`
abbrev pub negated : ℕ → ℤ
negated milli = sub_ℕ 0 milli

-- The test of the loop of `handleTimeouts`, on the first key: `first < {now, 1L << 62}`.
abbrev pub is_due : ℕ → Key → Bool
is_due now k = key_ltb k (record { at = now; seq = 2 ^ 62 })

module _ {T : Type 0} where
  -- The constructor.
  abbrev pub new : Events T
  new = record {
    timers = [];
    reps = λ _. none;
    seq = 0;
    next_timeout = no_timeout;
    exited = false;
    ran = [];
  }

  abbrev pub nearest : ℕ → List (Key × Job T) → ℕ
  nearest now [] = no_timeout
  nearest now ((k, _) ∷ _) = clip k.at now

  unfoldable pub refresh_nearest : ℕ → Events T → Events T
  refresh_nearest now e = record e { next_timeout = nearest now e.timers }

  abbrev pub set_rep : TimerId → Option (Rep T) → Events T → TimerId → Option (Rep T)
  set_rep id r e id' = if id_eq id id' then r else e.reps id'

  -- `runAt` with an interval.
  unfoldable pub run_every : ℕ → ℕ → T → ℕ → Events T → TimerId × Events T
  unfolding refresh_nearest
  run_every now milli task interval e =
      let id : TimerId = record { at = negated milli; seq = e.seq + 1 } in
      let key : Key = record { at = milli; seq = e.seq + 2 } in
      let r : Rep T = record { at = milli; interval = interval; key = key; cb = task } in
      (
        id,
        refresh_nearest now (record e {
          seq = e.seq + 2;
          reps = set_rep id (some r) e;
          timers = assign key (again id) e.timers;
        }),
      )

  -- `runAt` without one.
  unfoldable pub run_once : ℕ → ℕ → T → Events T → TimerId × Events T
  unfolding refresh_nearest
  run_once now milli task e =
      let key : Key = record { at = milli; seq = e.seq + 1 } in
      (
        record { at = pos milli; seq = e.seq + 1 },
        refresh_nearest now
            (record e { seq = e.seq + 1; timers = insert key (once task) e.timers }),
      )

  unfoldable pub run_at : ℕ → ℕ → T → ℕ → Events T → TimerId × Events T
  run_at now milli task interval e =
      if e.exited
      then (record { at = pos 0; seq = 0 }, e)
      else if not (interval == 0)
      then run_every now milli task interval e
      else run_once now milli task e

  -- `cancel` of an id of `timerReps_`, with what is found there.
  pub cancel_rep : TimerId → Option (Rep T) → Events T → Option (Bool × Events T)
  cancel_rep id none e = none
  cancel_rep id (some r) e =
      some (true, record e { timers = erase r.key e.timers; reps = set_rep id none e })

  -- `cancel` of a key of `timers_`, with what is found there.
  pub cancel_once : Key → Option (Job T) → Events T → Bool × Events T
  cancel_once k none e = (false, e)
  cancel_once k (some _) e = (true, record e { timers = erase k e.timers })

  -- `cancel`, by the sign of the id's time
  unfoldable pub cancel_at : ℤ → TimerId → Events T → Option (Bool × Events T)
  unfolding cancel_rep cancel_once
  cancel_at (negsuc _) id e = cancel_rep id (e.reps id) e
  cancel_at (pos n) id e =
      let k : Key = record { at = n; seq = id.seq } in some (cancel_once k (find k e.timers) e)

  unfoldable pub cancel : TimerId → Events T → Option (Bool × Events T)
  unfolding cancel_at
  cancel id e = cancel_at id.at id e

  -- `exit()`, without the byte that it writes to the wake-up pipe
  unfoldable pub exit : Events T → Events T
  exit e = record e { exited = true }

  -- `repeatableTimeout` up to the call of the task: the timer is put in again for its next time.
  unfoldable pub requeued : ℕ → TimerId → Rep T → Events T → Events T
  unfolding refresh_nearest
  requeued now id r e =
      let key : Key = record { at = r.at + r.interval; seq = e.seq + 1 } in
      let r' = record r { at = r.at + r.interval; key = key } in
      refresh_nearest now (record e {
        seq = e.seq + 1;
        reps = set_rep id (some r') e;
        timers = assign key (again id) e.timers;
      })

  -- The test of the loop and the `move` and `erase` of the first job.
  unfoldable pub pop_due : ℕ → List (Key × Job T) → Events T → Option (Job T × Events T)
  pop_due now [] e = none
  pop_due now ((k, job) ∷ rest) e =
      if is_due now k then some (job, record e { timers = rest }) else none

  -- A callback may do anything to the event base; `ran` records that it was called.
  module _ (call : T → Events T → Option (Events T)) where
    unfoldable pub run_task : T → Events T → Option (Events T)
    run_task t e = call t (record e { ran = e.ran ++ t ∷ [] })

    -- `repeatableTimeout(tr)`, with the entry that `tr` points to.
    unfoldable pub repeatable_timeout : ℕ → TimerId → Option (Rep T) → Events T → Option (Events T)
    unfolding run_task
    repeatable_timeout now id none e = none
    repeatable_timeout now id (some r) e = run_task r.cb (requeued now id r e)

    unfoldable pub run_job : ℕ → Job T → Events T → Option (Events T)
    unfolding run_task repeatable_timeout
    run_job now (once t) e = run_task t e
    run_job now (again id) e = repeatable_timeout now id (e.reps id) e

    -- The loop of `handleTimeouts`.
    unfoldable pub due_loop : ℕ → ℕ → Events T → Outcome T
    due_loop zero now e = out_of_fuel
    due_loop (suc fuel) now e = elim (pop_due now e.timers e) [
      | none ↦ done e
      | some (job, rest) ↦ elim (run_job now job rest) [
        | none ↦ fault
        | some e' ↦ due_loop fuel now e'
      ]
    ]

    -- `handleTimeouts()`, which starts at `now` and ends at `later`.
    unfoldable pub handle_timeouts : ℕ → ℕ → ℕ → Events T → Outcome T
    handle_timeouts fuel now later e = elim (due_loop fuel now e) [
      | done e' ↦ done (refresh_nearest later e')
      | fault ↦ fault
      | out_of_fuel ↦ out_of_fuel
    ]

  -- What `loop_once(waitMs)` lets the poller wait.
  unfoldable pub poll_wait : ℕ → Events T → ℕ
  poll_wait wait e = min wait e.next_timeout
