-- ===== src/Threads/Order.antt =====
-- Tasks begin in the order in which they were accepted: none is lost, made up or begun twice.
use handy_copy.Threads.Queue.{push, pop, exit, Bounded, push-Bounded}
use handy_copy.Threads.Pool.{
  Pool, Worker, new, add_task, exit_flag, exit_notify, pop_wait, advance, run_worker, Step, Reach,
  idle, entering, asleep, woken, finished, running, add, leave, notify, turn, spurious, here, next,
}
use handy_copy.Base.{
  ℕ, ◌++◌, ◌≡◌, [], append_assoc, arith, length-append, ◌∷◌, List-cases, Option-cases, get_elem?,
  inl, inr, refl, if_both,
}

module _ {ℓ} {A : Type ℓ} where
  -- The tasks that wait are those that were accepted and have not begun, in order.
  pub record InOrder (p : Pool A) : Type ℓ where
    pub ordered : p.started ++ p.queue.items ≡ p.accepted
    pub bounded : Bounded p.queue

  add_task-InOrder : (p : Pool A) (v : A) (i : ℕ) → InOrder p → InOrder (add_task p v i)
  unfolding add_task push
  add_task-InOrder p v i o = record {
    ordered = ground (arith, append_assoc p.started p.queue.items (v ∷ []), o.ordered);
    bounded = λ c.
        ground (
          arith,
          push-Bounded p.queue v o.bounded,
          o.bounded,
          length-append p.queue.items (v ∷ []),
        );
  }

  pop_wait_ordered :
      (p : Pool A)
      → InOrder p
      → (pop_wait p).0.started ++ (pop_wait p).0.queue.items ≡ (pop_wait p).0.accepted
  unfolding pop_wait pop
  pop_wait_ordered p o = elim (List-cases p.queue.items) [
    | inl e ↦ ground (arith, o.ordered)
    | inr (v, rest, e) ↦ ground (arith, o.ordered, append_assoc p.started (v ∷ []) rest)
  ]

  pop_wait-Bounded : (p : Pool A) → Bounded p.queue → Bounded (pop_wait p).0.queue
  unfolding pop_wait pop
  pop_wait-Bounded p b c = ground (arith, b)

  pop_wait-InOrder : (p : Pool A) → InOrder p → InOrder (pop_wait p).0
  pop_wait-InOrder p o = record {
    ordered = pop_wait_ordered p o;
    bounded = pop_wait-Bounded p o.bounded;
  }

  advance-InOrder : (p : Pool A) (w : Worker A) → InOrder p → InOrder (advance p w).0
  unfolding advance
  advance-InOrder p idle o = if_both (λ (r : Pool A × Worker A). InOrder r.0) p.queue.exited o o
  advance-InOrder p entering o = pop_wait-InOrder p o
  advance-InOrder p woken o = pop_wait-InOrder p o
  advance-InOrder p asleep o = o
  advance-InOrder p finished o = o
  advance-InOrder p (running v) o = o

  run_worker-InOrder : (p : Pool A) (i : ℕ) → InOrder p → InOrder (run_worker p i)
  unfolding run_worker
  run_worker-InOrder p i o = elim (Option-cases (get_elem? p.workers i)) [
    | inl e ↦ rw (e, run_worker) o
    | inr (w, e) ↦
        let o' = advance-InOrder p w o in
        rw (e, run_worker) (record { ordered = o'.ordered; bounded = o'.bounded })
  ]

  Step-InOrder : {p q : Pool A} → Step p q → InOrder p → InOrder q
  unfolding exit_flag exit_notify exit
  Step-InOrder {p} (add v i c) o = add_task-InOrder p v i o
  Step-InOrder leave o = record { ordered = o.ordered; bounded = o.bounded }
  Step-InOrder (notify e) o = record { ordered = o.ordered; bounded = o.bounded }
  Step-InOrder {p} (turn i) o = run_worker-InOrder p i o
  Step-InOrder (spurious i) o = record { ordered = o.ordered; bounded = o.bounded }

  Reach-InOrder : {p q : Pool A} → InOrder p → Reach p q → InOrder q
  Reach-InOrder o here = o
  Reach-InOrder o (next r s) = Step-InOrder s (Reach-InOrder o r)

  -- In every state that a pool of any number of threads can reach, the tasks begun so far and those
  -- that wait are, in this order, the tasks that `addTask` accepted; and no more wait than the
  -- capacity allows.
  pub Reach-new-InOrder :
      (threads capacity : ℕ) (p : Pool A) → Reach (new threads capacity) p → InOrder p
  unfolding new
  Reach-new-InOrder threads capacity p r =
      Reach-InOrder (record { ordered = refl; bounded = λ c. omega arith }) r
