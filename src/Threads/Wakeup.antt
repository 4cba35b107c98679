-- ===== src/Threads/Wakeup.antt =====
-- No wake-up is lost: no task waits while all threads sleep, and `exit` leaves no sleeper.
use handy_copy.Threads.Queue.{push, ready, pop, exit}
use handy_copy.Threads.Pool.{
  Pool, Worker, new, wake, wake_at, add_task, exit_flag, exit_notify, pop_wait, advance, run_worker,
  IsAsleep, AllAwake, Chosen, sleeper, nobody, Step, Reach, idle, entering, asleep, woken, finished,
  running, add, leave, notify, turn, spurious, here, next,
}
use handy_copy.Base.{
  All, Bool-cases, List, [], ap, arith, false, get_elem?, if_both, inl, inr, length, map,
  nil_of_length, refl, set, some, suc, true, zero, ℕ, ◌<◌, ◌∷◌, ◌≡◌, ◌≢◌, Option-cases,
  length-replicate, length-set, sym, ◌∙◌,
}

module _ {ℓ} {A : Type ℓ} where
  abbrev pub AllAsleep : List (Worker A) → Type 0
  AllAsleep = All IsAsleep

  wake-awake : (w : Worker A) → ¬ IsAsleep (wake w)
  unfolding wake
  wake-awake asleep h = h
  wake-awake idle h = h
  wake-awake entering h = h
  wake-awake woken h = h
  wake-awake finished h = h
  wake-awake (running v) h = h

  map-wake-AllAwake : (ws : List (Worker A)) → AllAwake (map wake ws)
  map-wake-AllAwake [] = tt
  map-wake-AllAwake (w ∷ ws) = (wake-awake w, map-wake-AllAwake ws)

  length-map-wake : (ws : List (Worker A)) → length (map wake ws) ≡ length ws
  length-map-wake [] = refl
  length-map-wake (w ∷ ws) = ap suc (length-map-wake ws)

  wake_at-AllAwake : (i : ℕ) (ws : List (Worker A)) → AllAwake ws → AllAwake (wake_at i ws)
  unfolding wake_at
  wake_at-AllAwake i [] h = tt
  wake_at-AllAwake zero (w ∷ ws) h = (wake-awake w, h.1)
  wake_at-AllAwake (suc i) (w ∷ ws) h = (h.0, wake_at-AllAwake i ws h.1)

  -- Waking a thread wakes none to sleep.
  wake_at-AllAsleep : (i : ℕ) (ws : List (Worker A)) → AllAsleep (wake_at i ws) → AllAsleep ws
  unfolding wake_at
  wake_at-AllAsleep i [] h = tt
  wake_at-AllAsleep zero (w ∷ ws) h = absurd (wake-awake w h.0)
  wake_at-AllAsleep (suc i) (w ∷ ws) h = (h.0, wake_at-AllAsleep i ws h.1)

  length-wake_at : (i : ℕ) (ws : List (Worker A)) → length (wake_at i ws) ≡ length ws
  unfolding wake_at
  length-wake_at i [] = refl
  length-wake_at zero (w ∷ ws) = refl
  length-wake_at (suc i) (w ∷ ws) = ap suc (length-wake_at i ws)

  wake_at_sleeper :
      (i : ℕ) (ws : List (Worker A)) → get_elem? ws i ≡ some asleep → ¬ AllAsleep (wake_at i ws)
  unfolding wake_at
  wake_at_sleeper i [] e h = cc
  wake_at_sleeper zero (w ∷ ws) e h = wake-awake w h.0
  wake_at_sleeper (suc i) (w ∷ ws) e h = wake_at_sleeper i ws e h.1

  -- A task that was taken has someone to run it.
  Chosen-awake :
      (i : ℕ) (ws : List (Worker A)) → 0 < length ws → Chosen ws i → ¬ AllAsleep (wake_at i ws)
  Chosen-awake i ws pos (sleeper e) h = wake_at_sleeper i ws e h
  Chosen-awake i [] pos (nobody aw) h = absurd (omega arith)
  Chosen-awake i (w ∷ ws) pos (nobody aw) h = aw.0 (wake_at-AllAsleep i (w ∷ ws) h).0

  set-AllAsleep :
      (ws : List (Worker A)) (i : ℕ) (w' : Worker A) {w : Worker A}
      → get_elem? ws i ≡ some w
      → AllAsleep (set ws i w')
      → IsAsleep w'
  set-AllAsleep [] i w' e h = cc
  set-AllAsleep (x ∷ ws) zero w' e h = h.0
  set-AllAsleep (x ∷ ws) (suc i) w' e h = set-AllAsleep ws i w' e h.1

  set-AllAwake :
      (ws : List (Worker A)) (i : ℕ) (w' : Worker A)
      → AllAwake ws
      → ¬ IsAsleep w'
      → AllAwake (set ws i w')
  set-AllAwake [] i w' h aw = tt
  set-AllAwake (x ∷ ws) zero w' h aw = (aw, h.1)
  set-AllAwake (x ∷ ws) (suc i) w' h aw = (h.0, set-AllAwake ws i w' h.1 aw)

  set_same :
      (ws : List (Worker A)) (i : ℕ) {w : Worker A} → get_elem? ws i ≡ some w → set ws i w ≡ ws
  set_same [] i e = refl
  set_same (x ∷ ws) zero e = ap (λ t. t ∷ ws) (cc e)
  set_same (x ∷ ws) (suc i) e = ap (◌∷◌ x) (set_same ws i e)

  -- The queue may not hold a task while all sleep, and after `exit` nobody sleeps.
  pub record NoLostWakeup (p : Pool A) : Type ℓ where
    pub threads : 0 < length p.workers
    pub served : p.queue.exited ≡ false → p.queue.items ≢ [] → ¬ AllAsleep p.workers
    pub exits : p.notified ≡ true → (p.queue.exited ≡ true) × AllAwake p.workers

  add_task-NoLostWakeup :
      (p : Pool A) (v : A) (i : ℕ)
      → Chosen p.workers i
      → NoLostWakeup p
      → NoLostWakeup (add_task p v i)
  unfolding add_task push
  add_task-NoLostWakeup p v i c n =
      if_both NoLostWakeup (push p.queue v).0
        (record {
          threads = omega (arith, n.threads, length-wake_at i p.workers);
          served = λ _ _ all. Chosen-awake i p.workers n.threads c all;
          exits = λ e. (ground (arith, n.exits e), wake_at-AllAwake i p.workers (n.exits e).1);
        })
        n

  -- What a turn of a thread comes to: it is awake; or it fell asleep on an empty queue that has not
  -- been closed; or it sleeps on.
  data Turned (p : Pool A) (w : Worker A) (r : Pool A × Worker A) : Type ℓ where
    awake :
        ¬ IsAsleep r.1
        → r.0.queue.exited ≡ p.queue.exited
        → r.0.notified ≡ p.notified
        → Turned p w r
    slept : p.queue.exited ≡ false → p.queue.items ≡ [] → r ≡ (p, asleep) → Turned p w r
    slept_on : w ≡ asleep → r ≡ (p, asleep) → Turned p w r

  IsAsleep-eq : (w : Worker A) → IsAsleep w → w ≡ asleep
  IsAsleep-eq asleep h = refl
  IsAsleep-eq idle h = absurd h
  IsAsleep-eq entering h = absurd h
  IsAsleep-eq woken h = absurd h
  IsAsleep-eq finished h = absurd h
  IsAsleep-eq (running v) h = absurd h

  pop_wait-ready :
      (p : Pool A)
      → ready p.queue ≡ true
      → ((pop_wait p).1 ≢ asleep)
        × ((pop_wait p).0.queue.exited ≡ p.queue.exited)
        × ((pop_wait p).0.notified ≡ p.notified)
  unfolding pop_wait pop
  pop_wait-ready p e = ground arith

  pop_wait-Turned : (p : Pool A) (w : Worker A) → Turned p w (pop_wait p)
  unfolding pop_wait ready
  pop_wait-Turned p w = elim (Bool-cases (ready p.queue)) [
    | inl e ↦
        let (moved, flag, told) = pop_wait-ready p e in
        awake (λ h. moved (IsAsleep-eq _ h)) flag told
    | inr e ↦ slept (ground arith) (nil_of_length p.queue.items (ground arith)) (ground arith)
  ]

  advance-Turned : (p : Pool A) (w : Worker A) → Turned p w (advance p w)
  unfolding advance
  advance-Turned p idle =
      if_both (Turned p idle) p.queue.exited (awake (λ h. h) refl refl) (awake (λ h. h) refl refl)
  advance-Turned p entering = pop_wait-Turned p entering
  advance-Turned p woken = pop_wait-Turned p woken
  advance-Turned p asleep = slept_on refl refl
  advance-Turned p finished = awake (λ h. h) refl refl
  advance-Turned p (running v) = awake (λ h. h) refl refl

  module _ (p : Pool A) (i : ℕ) (n : NoLostWakeup p) where
    Turned-NoLostWakeup :
        (w : Worker A) (r : Pool A × Worker A)
        → get_elem? p.workers i ≡ some w
        → Turned p w r
        → NoLostWakeup (record r.0 { workers = set p.workers i r.1 })
    Turned-NoLostWakeup w r e (awake aw flag told) = record {
      threads = omega (arith, n.threads, length-set p.workers i r.1);
      served = λ _ _ all. aw (set-AllAsleep p.workers i r.1 e all);
      exits =
          λ t. let x = n.exits (sym told ∙ t) in (flag ∙ x.0, set-AllAwake p.workers i r.1 x.1 aw);
    }
    Turned-NoLostWakeup w r e (slept flag no_items same) = rw same (record {
      threads = omega (arith, n.threads, length-set p.workers i asleep);
      served = λ _ some_items. absurd (some_items no_items);
      exits = λ t. absurd (ground (arith, n.exits t));
    })
    Turned-NoLostWakeup w r e (slept_on was same) = rw same (
        rw (set_same p.workers i (e ∙ ap some was))
          (record { threads = n.threads; served = n.served; exits = n.exits }))

    run_worker-NoLostWakeup : NoLostWakeup (run_worker p i)
    unfolding run_worker
    run_worker-NoLostWakeup = elim (Option-cases (get_elem? p.workers i)) [
      | inl e ↦ rw (e, run_worker) n
      | inr (w, e) ↦ rw (e, run_worker) (Turned-NoLostWakeup w (advance p w) e (advance-Turned p w))
    ]

  Step-NoLostWakeup : {p q : Pool A} → Step p q → NoLostWakeup p → NoLostWakeup q
  unfolding exit_flag exit_notify exit
  Step-NoLostWakeup {p} (add v i c) n = add_task-NoLostWakeup p v i c n
  Step-NoLostWakeup leave n = record {
    threads = n.threads;
    served = λ e. cc e;
    exits = λ t. (refl, (n.exits t).1);
  }
  Step-NoLostWakeup {p} (notify e) n = record {
    threads = omega (arith, n.threads, length-map-wake p.workers);
    served = λ e'. absurd (ground arith);
    exits = λ _. (e, map-wake-AllAwake p.workers);
  }
  Step-NoLostWakeup {p} (turn i) n = run_worker-NoLostWakeup p i n
  Step-NoLostWakeup {p} (spurious i) n = record {
    threads = omega (arith, n.threads, length-wake_at i p.workers);
    served = λ e some_items all. n.served e some_items (wake_at-AllAsleep i p.workers all);
    exits = λ t. ((n.exits t).0, wake_at-AllAwake i p.workers (n.exits t).1);
  }

  Reach-NoLostWakeup : {p q : Pool A} → NoLostWakeup p → Reach p q → NoLostWakeup q
  Reach-NoLostWakeup n here = n
  Reach-NoLostWakeup n (next r s) = Step-NoLostWakeup s (Reach-NoLostWakeup n r)

  -- In every state that a pool of at least one thread can reach: if a task waits and the pool has not
  -- been closed, not all threads sleep; and once `exit` has run, no thread sleeps, so that `join` has
  -- no sleeper to wait for.
  pub Reach-new-NoLostWakeup :
      (threads capacity : ℕ) (p : Pool A)
      → 0 < threads
      → Reach (new threads capacity) p
      → (p.queue.exited ≡ false → p.queue.items ≢ [] → ¬ AllAsleep p.workers)
        × (p.notified ≡ true → (p.queue.exited ≡ true) × AllAwake p.workers)
  unfolding new
  Reach-new-NoLostWakeup threads capacity p pos r =
      let start : NoLostWakeup (new threads capacity) = record {
        threads = omega (arith, pos, length-replicate {A = Worker A} threads idle);
        served = λ _ some_items. absurd (some_items refl);
        exits = λ t. cc t;
      } in
      let n = Reach-NoLostWakeup start r in (n.served, n.exits)
