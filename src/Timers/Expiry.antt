-- ===== src/Timers/Expiry.antt =====
-- `handleTimeouts` with callbacks that behave: it ends, and runs everything that is due.
use handy_copy.Timers.Inv.{IsValid}
use handy_copy.Base.{
  List, Option, [], ap, arith, some, true, ℕ, ◌++◌, ◌+◌, ◌<◌, ◌∙◌, ◌∷◌, ◌≡◌, ◌≤◌, refl, suc, zero,
  ◌-◌, ◌≢◌, Bool-cases, inl, inr, none, ◌⊎◌,
}
use handy_copy.Timers.{
  Events, Key, run_job, run_task, Job, is_due, repeatable_timeout, TimerId, again, requeued,
  Outcome, Rep, due_loop, once, refresh_nearest, done, pop_due,
}
use handy_copy.Timers.Due.{
  CallbackOk, work, late, record-IsValid, popped, split-Front, repeated-IsValid, popped-IsValid,
  work-assign, NoneDue, later-NoneDue,
}
use handy_copy.Timers.Map.{IsSorted}

module _ {T : Type 0} (now : ℕ) (call : T → Events T → Option (Events T))
    (ok : CallbackOk now call) where
  -- One job of the loop: it returns, and less is left to do.
  abbrev Progress : List (Key × Job T) → Key → Option (Events T) → Type 0
  Progress rest k o =
      (e' : Events T) × (o ≡ some e')
      × IsValid e'
      × (work now e'.timers < late now k + work now rest)

  task_runs :
      (t : T) (e : Events T) (bound : ℕ)
      → IsValid e
      → work now e.timers ≤ bound
      → (e' : Events T) × (run_task call t e ≡ some e') × IsValid e' × (work now e'.timers ≤ bound)
  unfolding run_task
  task_runs t e bound v h =
      let e1 : Events T = record e { ran = e.ran ++ t ∷ [] } in
      let fewer : work now (ok.result t e1).timers ≤ work now e.timers = ok.no_more t e1 in
      (ok.result t e1, ok.returns t e1, ok.valid t e1 (record-IsValid t e v), omega (arith, fewer))

  due_late : (k : Key) → is_due now k ≡ true → k.at ≤ now
  due_late k d = ground arith

  work-requeued :
      (id : TimerId) (r : Rep T) (e : Events T)
      → work now (requeued now id r e).timers ≤ now + 1 - (r.at + r.interval) + work now e.timers
  unfolding requeued refresh_nearest
  work-requeued id r e =
      work-assign now (record { at = r.at + r.interval; seq = e.seq + 1 }) (again id) e.timers

  -- An interval later, there is less that is late.
  sooner :
      (r : Rep T) (k : Key) (rest : List (Key × Job T)) (e' : Events T)
      → r.key ≡ k
      → r.at ≡ r.key.at
      → r.interval ≢ 0
      → k.at ≤ now
      → work now e'.timers ≤ now + 1 - (r.at + r.interval) + work now rest
      → work now e'.timers < late now k + work now rest
  sooner r k rest e' is_key timed repeats due less =
      let same : r.at ≡ k.at = timed ∙ ap (λ (i : Key). i.at) is_key in omega arith

  again_runs :
      (k : Key) (id : TimerId) (rest : List (Key × Job T)) (e : Events T)
      → e.timers ≡ (k, again id) ∷ rest
      → IsValid e
      → is_due now k ≡ true
      → Progress rest k (run_job call now (again id) (popped rest e))
  unfolding run_job repeatable_timeout
  again_runs k id rest e at v d =
      let whole = split-Front k (again id) rest e at v in
      let (r, h, is_key) = whole.linked.0 in
      let mine = v.armed id r h in
      let (e', same, v', less) =
        task_runs r.cb (requeued now id r (popped rest e))
          (now + 1 - (r.at + r.interval) + work now rest)
          (repeated-IsValid now id r k rest e at h is_key v) (work-requeued id r (popped rest e)) in
      (
        e',
        ap (λ x. repeatable_timeout call now id x (popped rest e)) h ∙ same,
        v',
        sooner r k rest e' is_key mine.timed mine.repeats (due_late k d) less,
      )

  once_runs :
      (k : Key) (t : T) (rest : List (Key × Job T)) (e : Events T)
      → e.timers ≡ (k, once t) ∷ rest
      → IsValid e
      → is_due now k ≡ true
      → Progress rest k (run_job call now (once t) (popped rest e))
  unfolding run_job
  once_runs k t rest e at v d =
      let (e', same, v', less) =
        task_runs t (popped rest e) (work now rest) (popped-IsValid k t rest e at v)
          (omega arith) in
      (e', same, v', omega (arith, less, due_late k d))

  job_runs :
      (k : Key) (job : Job T) (rest : List (Key × Job T)) (e : Events T)
      → e.timers ≡ (k, job) ∷ rest
      → IsValid e
      → is_due now k ≡ true
      → Progress rest k (run_job call now job (popped rest e))
  job_runs k (once t) rest e at v d = once_runs k t rest e at v d
  job_runs k (again id) rest e at v d = again_runs k id rest e at v d

  -- What the loop ends with: the maps in order and nothing that is due.
  pub Finished : Outcome T → Type 0
  Finished o = (e' : Events T) × (o ≡ done e') × IsValid e' × NoneDue now e'.timers

  -- Either nothing is due, or the first job is taken.
  Next : List (Key × Job T) → Events T → Type 0
  Next m e =
      ((pop_due now m e ≡ none) × NoneDue now m)
      ⊎ ((k : Key) × (job : Job T) × (rest : List (Key × Job T)) × (m ≡ (k, job) ∷ rest)
          × (is_due now k ≡ true)
          × (pop_due now m e ≡ some (job, popped rest e)))

  pop-Next : (m : List (Key × Job T)) (e : Events T) → IsSorted m → Next m e
  unfolding Next pop_due
  pop-Next [] e s = inl (refl, tt)
  pop-Next ((k, job) ∷ rest) e s = elim (Bool-cases (is_due now k)) [
    | inl d ↦ inr (k, job, rest, refl, d, rw d refl)
    | inr d ↦ inl (rw d refl, (d, later-NoneDue now k rest d s.0))
  ]

  fewer_left :
      (k : Key) (job : Job T) (rest : List (Key × Job T)) (e e' : Events T) (fuel : ℕ)
      → e.timers ≡ (k, job) ∷ rest
      → work now e'.timers < late now k + work now rest
      → work now e.timers < suc fuel
      → work now e'.timers < fuel
  unfolding work
  fewer_left k job rest e e' fuel at less h =
      let same : work now e.timers ≡ late now k + work now rest = ap (work now) at in
      omega (arith, less, h)

  -- The loop of `handleTimeouts`, on a state in order and with callbacks that return, keep the maps in
  -- order and put in no work that is already late, ends, never uses an entry that is gone, keeps
  -- the maps in order and leaves no timer that was due at its start, in as many rounds as `work`
  -- says at most.
  pub due_loop_ends :
      (fuel : ℕ) (e : Events T)
      → IsValid e
      → work now e.timers < fuel
      → Finished (due_loop call fuel now e)
  unfolding Finished Next due_loop
  due_loop_ends zero e v h = absurd (omega (arith, h))
  due_loop_ends (suc fuel) e v h = elim (pop-Next e.timers e v.sorted) [
    | inl (stop, none_due) ↦ (e, rw (stop, due_loop) refl, v, none_due)
    | inr (k, job, rest, at, d, go) ↦
        let (e', ran, v', less) = job_runs k job rest e at v d in
        let (e'', same, v'', none_due) =
          due_loop_ends fuel e' v' (fewer_left k job rest e e' fuel at less h) in
        (e'', rw (go, ran, due_loop) same, v'', none_due)
  ]
