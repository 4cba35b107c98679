-- ===== src/Timers/Tests.antt =====
-- Runs of the timers, and the theorems on them.
-- Tasks are numbers that do nothing.
use handy_copy.Timers.{fault, out_of_fuel, again}
use handy_copy.Timers.Map.{insert, assign}
use handy_copy.Base.{
  All, List, Option, [], arith, false, inr, max, none, refl, some, true, ℕ, ◌+◌, ◌<◌, ◌^◌, ◌∷◌, ◌≡◌,
  ◌≢◌, ◌≤◌,
}
use handy_copy.Timers.{
  Events, Outcome, Rep, TimerId, cancel, due_loop, poll_wait, run_at, Job, cancel_at, done, erase,
  negsuc, new, once, pop_due, pos, refresh_nearest, run_every, cancel_rep, run_job, run_once,
  set_rep, insert, repeatable_timeout, assign, requeued, run_task,
}
use handy_copy.Timers.Inv.{IsValid, run_at-IsValid, new-IsValid}
use handy_copy.Timers.Map.{Key, find}
use handy_copy.Timers.Due.{CallbackOk, work}
use handy_copy.Timers.Expiry.{Finished, due_loop_ends}
use handy_copy.Timers.Cancel.{CancelledRep, cancel_twice, cancel_repeating}
use handy_copy.Timers.Nearest.{far_timer_polls, poll_in_time}
use handy_copy.Timers.Undo.{Cancels, cancel-run_at}

abbrev quiet : ℕ → Events ℕ → Option (Events ℕ)
quiet t e = some e

-- One task at 100, and one every 50 from 120 on.
abbrev armed_once : Events ℕ
armed_once = (run_at 90 100 7 0 new).1

abbrev armed_twice : Events ℕ
armed_twice = (run_at 95 120 8 50 armed_once).1

abbrev repeat_id : TimerId
repeat_id = record { at = negsuc 119; seq = 2 }

abbrev once_id : TimerId
once_id = record { at = pos 100; seq = 1 }

abbrev repeat_entry : Rep ℕ
repeat_entry = record { at = 120; interval = 50; key = record { at = 120; seq = 3 }; cb = 8 }

armed_once-IsValid : IsValid armed_once
armed_once-IsValid = run_at-IsValid 90 100 7 0 new new-IsValid

armed_twice-IsValid : IsValid armed_twice
armed_twice-IsValid = run_at-IsValid 95 120 8 50 armed_once armed_once-IsValid

has_entry : armed_twice.reps repeat_id ≡ some repeat_entry
unfolding run_at run_every run_once refresh_nearest
has_entry = refl

abbrev ran_of : Outcome ℕ → List ℕ
ran_of (done e) = e.ran
ran_of fault = []
ran_of out_of_fuel = []

-- At 230 the first task has run once and the other for 120, 170 and 220.
run_three : ran_of (due_loop quiet 10 230 armed_twice) ≡ 7 ∷ 8 ∷ 8 ∷ 8 ∷ []
unfolding due_loop pop_due run_job repeatable_timeout requeued run_task run_at run_every run_once
    refresh_nearest insert assign
run_three = refl

run_at-IsValid_example : IsValid (run_at 95 120 8 50 armed_once).1
run_at-IsValid_example = run_at-IsValid 95 120 8 50 armed_once armed_once-IsValid

cancel_repeating_example :
    (e' : Events ℕ) × (cancel repeat_id armed_twice ≡ some (true, e'))
    × CancelledRep repeat_id repeat_entry armed_twice e'
cancel_repeating_example =
    cancel_repeating repeat_id 119 repeat_entry armed_twice armed_twice-IsValid refl has_entry

abbrev without_repeat : Events ℕ
without_repeat = record armed_twice {
  timers = erase repeat_entry.key armed_twice.timers;
  reps = set_rep repeat_id none armed_twice;
}

cancel_first : cancel repeat_id armed_twice ≡ some (true, without_repeat)
unfolding cancel cancel_at cancel_rep run_at run_every run_once refresh_nearest
cancel_first = refl

cancel_twice_example : cancel repeat_id without_repeat ≡ none
cancel_twice_example =
    cancel_twice repeat_id 119 repeat_entry armed_twice without_repeat armed_twice-IsValid refl
      has_entry cancel_first

found_once :
    (id' : TimerId) → find (record { at = 100; seq = 1 }) armed_twice.timers ≢ some (again id')
unfolding find run_at run_every run_once refresh_nearest insert assign
found_once id' h = cc h

quiet_ok : CallbackOk 230 quiet
quiet_ok = record {
  result = λ t e. e;
  returns = λ t e. refl;
  valid = λ t e v. v;
  no_more = λ t e. omega arith;
}

enough : work 230 armed_twice.timers < 300
unfolding work run_at run_every run_once refresh_nearest insert assign
enough = omega arith

due_loop_ends_example : Finished 230 quiet quiet_ok (due_loop quiet 300 230 armed_twice)
due_loop_ends_example = due_loop_ends 230 quiet quiet_ok 300 armed_twice armed_twice-IsValid enough

near : All (λ (p : Key × Job ℕ). (p.0.at < 95 + 2 ^ 31) × (95 ≤ p.0.at + 2 ^ 31)) armed_twice.timers
unfolding run_at run_every run_once refresh_nearest insert assign
near = ((omega arith, omega arith), ((omega arith, omega arith), tt))

poll_in_time_example :
    All
      (λ (p : Key × Job ℕ). 95 + poll_wait 10000 (refresh_nearest 95 armed_twice) ≤ max 95 p.0.at)
      armed_twice.timers
poll_in_time_example = poll_in_time 95 10000 armed_twice armed_twice-IsValid.sorted near

abbrev month : Key
month = record { at = 2 ^ 31 + 5; seq = 1 }

abbrev far_away : Events ℕ
far_away = record {
  timers = (month, once 3) ∷ [];
  reps = λ id. none;
  seq = 1;
  next_timeout = 0;
  exited = false;
  ran = [];
}

far_timer_polls_example : poll_wait 10000 (refresh_nearest 5 far_away) ≡ 0
far_timer_polls_example =
    far_timer_polls 5 (2 ^ 31) 10000 month (once 3) [] far_away refl refl (omega arith)
      (omega arith)

cancel-run_at_example : Cancels armed_once (run_at 95 120 8 50 armed_once)
unfolding run_at run_every run_once refresh_nearest
cancel-run_at_example =
    cancel-run_at 95 120 8 50 armed_once armed_once-IsValid refl (inr (λ h. cc h))
