-- ===== src/Scheduling/Due.antt =====
-- `execNearestAndUpdate` runs the tasks that are due and keeps the others.
use mathlib.Core.List.{Perm, perm_middle}
use mathlib.Core.List.Perm
use handy_copy.Scheduling.{
  Scheduler, Task, due, emplace, every_task, exec_due, exec_nearest_and_update, funs, rest, task_at,
  task_every,
}
use handy_copy.Scheduling.Order.{
  After, Sorted, UpTo, emplace-All, emplace_all-All, emplace_all-Sorted, From-After, emplace-Perm,
  emplace_all-Perm,
}
use handy_copy.Base.{
  List, [], arith, refl, suc, ℕ, ◌++◌, ◌+◌, ◌<◌, ◌∷◌, ◌≡◌, ◌≤◌, Bool, Bool-cases, ap, false,
  if◌then◌else◌, inl, inr, leb, leb→le, subst, sym, ◌∙◌, append-nil,
}

later_of : (s now : ℕ) → leb s now ≡ false → now < s
later_of s now e = ground arith

module _ {T : Type 0} where
  -- No task comes again after no time.
  abbrev pub Lasting : List (ℕ × Task T) → Type 0
  Lasting [] = Unit
  Lasting ((s, task_at f) ∷ l) = Lasting l
  Lasting ((s, task_every d f) ∷ l) = (0 < d) × Lasting l

  -- The tasks that come again, each as it was, at the times that the clock and its interval give.
  abbrev pub again_at : (ℕ → ℕ) → ℕ → List (ℕ × Task T) → List (ℕ × Task T)
  again_at clock n [] = []
  again_at clock n ((s, task_at f) ∷ l) = again_at clock n l
  again_at clock n ((s, task_every d f) ∷ l) =
      (clock n + d, task_every d f) ∷ again_at clock (suc n) l

  -- A sorted map is the entries that are due and the others.
  due_rest :
      (now : ℕ) (l : List (ℕ × Task T))
      → Sorted l
      → (l ≡ due now l ++ rest now l)
        × UpTo now (due now l)
        × After now (rest now l)
        × Sorted (rest now l)
  unfolding due rest
  due_rest now [] h = (refl, tt, tt, tt)
  due_rest now ((s, w) ∷ l) h =
      let D = λ (b : Bool). if b then (s, w) ∷ due now l else [] in
      let R = λ (b : Bool). if b then rest now l else (s, w) ∷ l in
      let P =
        λ (b : Bool). ((s, w) ∷ l ≡ D b ++ R b) × UpTo now (D b) × After now (R b) × Sorted (R b) in
      elim (Bool-cases (leb s now)) [
        | inl e ↦
            let (whole, before, after, sorted) = due_rest now l h.1 in
            subst P (sym e) (ap (◌∷◌ (s, w)) whole, (leb→le s now e, before), after, sorted)
        | inr e ↦
            let later = later_of s now e in
            subst P (sym e) (refl, tt, (later, From-After now s l later h.0), h)
      ]

  every_task-After :
      (clock : ℕ → ℕ) (now n : ℕ) (acc l : List (ℕ × Task T))
      → ((i : ℕ) → now ≤ clock i)
      → Lasting l
      → After now acc
      → After now (every_task clock n acc l)
  unfolding every_task
  every_task-After clock now n acc [] mono h a = a
  every_task-After clock now n acc ((s, task_at f) ∷ l) mono h a =
      every_task-After clock now n acc l mono h a
  every_task-After clock now n acc ((s, task_every d f) ∷ l) mono h a =
      every_task-After clock now (suc n) (emplace (clock n + d) (task_every d f) acc) l mono h.1 (
        emplace-All (λ (p : ℕ × Task T). now < p.0) (clock n + d) (task_every d f) acc
          (omega (arith, mono n, h.0)) a)

  every_task-Perm :
      (clock : ℕ → ℕ) (n : ℕ) (acc l : List (ℕ × Task T))
      → Perm (every_task clock n acc l) (acc ++ again_at clock n l)
  unfolding every_task
  every_task-Perm clock n acc [] = subst (λ z. Perm acc z) (sym (append-nil acc)) (Perm.refl acc)
  every_task-Perm clock n acc ((s, task_at f) ∷ l) = every_task-Perm clock n acc l
  every_task-Perm clock n acc ((s, task_every d f) ∷ l) =
      let later = again_at clock (suc n) l in
      let t = clock n + d in
      Perm.trans (every_task-Perm clock (suc n) (emplace t (task_every d f) acc) l) (
        Perm.trans (Perm.append_right later (emplace-Perm t (task_every d f) acc))
          (Perm.symm (perm_middle acc later)))

  exec_due-Sorted :
      (clock : ℕ → ℕ) (now : ℕ) (front : List (ℕ × Task T)) (s : Scheduler T)
      → Sorted s.tasks
      → Sorted (exec_due clock now front s).tasks
  unfolding exec_due
  exec_due-Sorted clock now [] s h = h
  exec_due-Sorted clock now (e ∷ l) s h =
      emplace_all-Sorted (every_task clock 1 [] (e ∷ l)) (rest now s.tasks)
        (due_rest now s.tasks h).3

  -- A round keeps the map in order, whatever the clock says.
  pub exec_nearest_and_update-Sorted :
      (clock : ℕ → ℕ) (s : Scheduler T)
      → Sorted s.tasks
      → Sorted (exec_nearest_and_update clock s).tasks
  unfolding exec_nearest_and_update
  exec_nearest_and_update-Sorted clock s h =
      exec_due-Sorted clock (clock 0) (due (clock 0) s.tasks) s h

  Lasting-append : (a b : List (ℕ × Task T)) → Lasting (a ++ b) → Lasting a
  Lasting-append [] b h = tt
  Lasting-append ((s, task_at f) ∷ a) b h = Lasting-append a b h
  Lasting-append ((s, task_every d f) ∷ a) b h = (h.0, Lasting-append a b h.1)

  -- What a round leaves, where `front` is what was due and `back` the others.
  pub record Round (clock : ℕ → ℕ) (s s' : Scheduler T) : Type 0 where
    pub front : List (ℕ × Task T)
    pub back : List (ℕ × Task T)
    pub whole : s.tasks ≡ front ++ back
    pub was_due : UpTo (clock 0) front
    pub not_due : After (clock 0) back
    pub ran : s'.given ≡ s.given ++ funs front
    pub kept : Perm s'.tasks (back ++ again_at clock 1 front)
    pub later : After (clock 0) s'.tasks
    pub sorted : Sorted s'.tasks

  round :
      (clock : ℕ → ℕ) (s : Scheduler T) (front : List (ℕ × Task T))
      → front ≡ due (clock 0) s.tasks
      → Sorted s.tasks
      → Lasting s.tasks
      → ((i : ℕ) → clock 0 ≤ clock i)
      → Round clock s (exec_due clock (clock 0) front s)
  unfolding exec_due
  round clock s [] q h p mono =
      let (whole, before, after, sorted) = due_rest (clock 0) s.tasks h in
      let all = whole ∙ ap (λ t. t ++ rest (clock 0) s.tasks) (sym q) in
      let back = rest (clock 0) s.tasks in
      record {
        front = [];
        back = back;
        whole = all;
        was_due = tt;
        not_due = after;
        ran = sym (append-nil s.given);
        kept =
            subst (λ z. Perm z (back ++ [])) (sym all)
              (subst (λ z. Perm back z) (sym (append-nil back)) (Perm.refl back));
        later = subst (After (clock 0)) (sym all) after;
        sorted = h;
      }
  round clock s (e ∷ l) q h p mono =
      let (whole, before, after, sorted) = due_rest (clock 0) s.tasks h in
      let all = whole ∙ ap (λ t. t ++ rest (clock 0) s.tasks) (sym q) in
      let back = rest (clock 0) s.tasks in
      let again = every_task clock 1 [] (e ∷ l) in
      let lasting = Lasting-append (e ∷ l) back (subst Lasting all p) in
      record {
        front = e ∷ l;
        back = back;
        whole = all;
        was_due = subst (UpTo (clock 0)) (sym q) before;
        not_due = after;
        ran = refl;
        kept =
            Perm.trans (emplace_all-Perm again back)
              (Perm.append_left back (every_task-Perm clock 1 [] (e ∷ l)));
        later =
            emplace_all-All (λ (z : ℕ × Task T). clock 0 < z.0) again back
              (every_task-After clock (clock 0) 1 [] (e ∷ l) mono lasting tt) after;
        sorted = emplace_all-Sorted again back sorted;
      }

  -- If the map is in order, if no task comes again after no time, and if the clock does not go
  -- back, then a round hands to the pool, in their order, just the tasks up to the time of the
  -- round; what is in the map then is, but for the order of what has one key, the tasks that were
  -- not due and the repeating ones that were, each of these as it was and once, at the time of the
  -- clock and its interval; the map is in order, and all that is in it is later than that time.
  pub exec_nearest_and_update-Round :
      (clock : ℕ → ℕ) (s : Scheduler T)
      → Sorted s.tasks
      → Lasting s.tasks
      → ((i : ℕ) → clock 0 ≤ clock i)
      → Round clock s (exec_nearest_and_update clock s)
  unfolding exec_nearest_and_update
  exec_nearest_and_update-Round clock s h p mono =
      round clock s (due (clock 0) s.tasks) refl h p mono
