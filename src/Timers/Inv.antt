-- ===== src/Timers/Inv.antt =====
-- The invariant of the two timer maps, and that `runAt` and `repeatableTimeout` keep it.
use mathlib.Core.Path.{subst₂}
use handy_copy.Timers.Map.{
  Key, find, assign, insert, IsSorted, assign-IsSorted, find-assign, insert_new, All-assign,
  All-find,
}
use handy_copy.Timers.{
  TimerId, id_eq, Rep, Job, once, again, Events, refresh_nearest, set_rep, run_every, run_once,
  run_at, negated, new,
}
use handy_copy.Base.{
  All, All-map, List, Option, [], arith, none, refl, some, true, ℕ, ◌+◌, ◌<◌, ◌↔◌, ◌∙◌, ◌∷◌, ◌≡◌,
  ◌≢◌, ◌≤◌, false, inl, inr, ◌⊎◌, Bool-cases, if_both, ◌==◌,
}

pub id_eq_iff : (a b : TimerId) → (id_eq a b ≡ true) ↔ (a ≡ b)
id_eq_iff a b = ground arith

module _ {T : Type 0} where
  -- A job that repeats has its entry, which names the job's key.
  abbrev pub Linked : (TimerId → Option (Rep T)) → Key × Job T → Type 0
  Linked reps (k, once t) = Unit
  Linked reps (k, again id) = (r : Rep T) × (reps id ≡ some r) × (r.key ≡ k)

  -- An entry of `timerReps_` has its job in `timers_`, at the time of the entry.
  pub record Armed (e : Events T) (id : TimerId) (r : Rep T) : Type 0 where
    pub job : find r.key e.timers ≡ some (again id)
    pub numbered : id.seq ≤ e.seq
    pub repeats : r.interval ≢ 0
    pub timed : r.at ≡ r.key.at

  pub record IsValid (e : Events T) : Type 0 where
    pub sorted : IsSorted e.timers
    pub fresh : All (λ (p : Key × Job T). p.0.seq ≤ e.seq) e.timers
    pub linked : All (Linked e.reps) e.timers
    pub armed : (id : TimerId) (r : Rep T) → e.reps id ≡ some r → Armed e id r

  pub new-IsValid : IsValid (new {T = T})
  new-IsValid = record { sorted = tt; fresh = tt; linked = tt; armed = λ id r h. cc h }

  pub refresh-IsValid : (now : ℕ) (e : Events T) → IsValid e → IsValid (refresh_nearest now e)
  unfolding refresh_nearest
  refresh-IsValid now e v = record {
    sorted = v.sorted;
    fresh = v.fresh;
    linked = v.linked;
    armed = λ id r h.
        let a = v.armed id r h in
        record { job = a.job; numbered = a.numbered; repeats = a.repeats; timed = a.timed };
  }

  -- A key with a number that has not been given out is not in the map.
  pub find_fresh :
      (k : Key) (n : ℕ) (m : List (Key × Job T))
      → All (λ (p : Key × Job T). p.0.seq ≤ n) m
      → n < k.seq
      → find k m ≡ none
  unfolding find
  find_fresh k n [] t h = refl
  find_fresh k n ((j, w) ∷ m) t h = ground (arith, find_fresh k n m t.1)

  raise :
      (n n' : ℕ) (m : List (Key × Job T))
      → n ≤ n'
      → All (λ (p : Key × Job T). p.0.seq ≤ n) m
      → All (λ (p : Key × Job T). p.0.seq ≤ n') m
  raise n n' m h = All-map _ _ (λ p q. omega arith) m

  pub Armed-seq :
      (e : Events T) (id : TimerId) (r : Rep T) → IsValid e → Armed e id r → r.key.seq ≤ e.seq
  Armed-seq e id r v a =
      All-find (λ (p : Key × Job T). p.0.seq ≤ e.seq) r.key (again id) e.timers v.fresh a.job

  -- An entry whose job is in `m`, or is the one that is put in at `k`.
  abbrev pub Held : Key → Job T → List (Key × Job T) → TimerId → Rep T → Type 0
  Held k job m id r =
      ((find r.key m ≡ some (again id)) × (r.key.seq < k.seq)) ⊎ ((r.key ≡ k) × (job ≡ again id))

  pub record Fields (e : Events T) (id : TimerId) (r : Rep T) : Type 0 where
    pub numbered : id.seq ≤ e.seq
    pub repeats : r.interval ≢ 0
    pub timed : r.at ≡ r.key.at

  find-Held :
      (k : Key) (job : Job T) (m : List (Key × Job T)) (id : TimerId) (r : Rep T)
      → IsSorted m
      → Held k job m id r
      → find r.key (assign k job m) ≡ some (again id)
  find-Held k job m id r s (inl h) = find-assign k r.key job m s ∙ ground arith
  find-Held k job m id r s (inr h) = find-assign k r.key job m s ∙ ground arith

  -- A job put in under a new number keeps the invariant.
  pub place-IsValid :
      (e : Events T) (k : Key) (job : Job T) (m : List (Key × Job T)) (n : ℕ)
      → e.timers ≡ assign k job m
      → IsSorted m
      → All (λ (p : Key × Job T). p.0.seq ≤ n) m
      → n < k.seq
      → k.seq ≤ e.seq
      → Linked e.reps (k, job)
      → All (Linked e.reps) m
      → ((id : TimerId) (r : Rep T) → e.reps id ≡ some r → Held k job m id r × Fields e id r)
      → IsValid e
  place-IsValid e k job m n timers s fresh new_seq top link links held = record {
    sorted = rw timers (assign-IsSorted k job m s);
    fresh = rw timers (
        All-assign (λ (p : Key × Job T). p.0.seq ≤ e.seq) k job m top
          (raise n e.seq m (omega arith) fresh));
    linked = rw timers (All-assign (Linked e.reps) k job m link links);
    armed = λ id r h.
        let (old_or_new, f) = held id r h in
        record {
          job = rw timers (find-Held k job m id r s old_or_new);
          numbered = f.numbered;
          repeats = f.repeats;
          timed = f.timed;
        };
  }

  pub run_once-IsValid :
      (now milli : ℕ) (task : T) (e : Events T) → IsValid e → IsValid (run_once now milli task e).1
  unfolding run_once
  run_once-IsValid now milli task e v =
      let k : Key = record { at = milli; seq = e.seq + 1 } in
      let e' : Events T = record e { seq = e.seq + 1; timers = insert k (once task) e.timers } in
      refresh-IsValid now e' (
        place-IsValid e' k (once task) e.timers e.seq
          (insert_new k (once task) e.timers v.sorted
            (find_fresh k e.seq e.timers v.fresh (omega arith)))
          v.sorted v.fresh (omega arith) (omega arith) tt v.linked
          (λ id r h.
            let a = v.armed id r h in
            (
              inl (a.job, omega (arith, Armed-seq e id r v a)),
              record { numbered = omega (arith, a.numbered); repeats = a.repeats; timed = a.timed },
            )))

  -- The job is not that of the entry `id`.
  abbrev pub Other : TimerId → Key × Job T → Type 0
  Other id (k, once t) = Unit
  Other id (k, again id') = id_eq id id' ≡ false

  -- A link to an entry other than the one that changes stays.
  pub Linked-set :
      (id : TimerId) (r : Option (Rep T)) (e : Events T) (p : Key × Job T)
      → Linked e.reps p
      → Other id p
      → Linked (set_rep id r e) p
  Linked-set id r e (k, once t) l h = tt
  Linked-set id r e (k, again id') l h = (l.0, rw h l.1, l.2)

  -- A new number belongs to no entry.
  new-Other :
      (id : TimerId) (e : Events T)
      → IsValid e
      → e.seq < id.seq
      → (p : Key × Job T) → Linked e.reps p
      → Other id p
  new-Other id e v h (k, once t) l = tt
  new-Other id e v h (k, again id') l =
      let a = v.armed id' l.0 l.1 in let old = a.numbered in ground arith

  -- The entry that was just written, found again.
  pub entry-Held :
      (e : Events T) (id id' : TimerId) (r r' : Rep T) (m : List (Key × Job T))
      → some r ≡ some r'
      → id ≡ id'
      → Fields e id r
      → Held r.key (again id) m id' r' × Fields e id' r'
  entry-Held e id id' r r' m got same f =
      let is_r : r ≡ r' = cc got in
      subst₂ (λ (i : TimerId) (x : Rep T). Held r.key (again id) m i x × Fields e i x) same is_r
        (inr (refl, refl), f)

  pub run_every-IsValid :
      (now milli : ℕ) (task : T) (interval : ℕ) (e : Events T)
      → interval ≢ 0
      → IsValid e
      → IsValid (run_every now milli task interval e).1
  unfolding run_every
  run_every-IsValid now milli task interval e nz v =
      let id : TimerId = record { at = negated milli; seq = e.seq + 1 } in
      let k : Key = record { at = milli; seq = e.seq + 2 } in
      let r : Rep T = record { at = milli; interval = interval; key = k; cb = task } in
      let e' : Events T = record e {
        seq = e.seq + 2;
        reps = set_rep id (some r) e;
        timers = assign k (again id) e.timers;
      } in
      refresh-IsValid now e' (
        place-IsValid e' k (again id) e.timers e.seq refl v.sorted v.fresh (omega arith)
          (omega arith) (r, rw ((id_eq_iff id id).1 refl) refl, refl)
          (All-map (Linked e.reps) (Linked e'.reps)
            (λ p l. Linked-set id (some r) e p l (new-Other id e v (omega arith) p l)) e.timers
            v.linked)
          (λ id' r' h. elim (Bool-cases (id_eq id id')) [
            | inl same ↦
                entry-Held e' id id' r r' e.timers (rw same at h) ((id_eq_iff id id').0 same)
                  (record { numbered = omega arith; repeats = nz; timed = refl })
            | inr other ↦
                let a = v.armed id' r' (rw other at h) in
                (
                  inl (a.job, omega (arith, Armed-seq e id' r' v a)),
                  record {
                    numbered = omega (arith, a.numbered);
                    repeats = a.repeats;
                    timed = a.timed;
                  },
                )
          ]))

  -- `runAt` keeps the timer maps in order, if they were: sorted, with numbers that were given out,
  -- and with every repeating job and its entry pointing at each other.
  pub run_at-IsValid :
      (now milli : ℕ) (task : T) (interval : ℕ) (e : Events T)
      → IsValid e
      → IsValid (run_at now milli task interval e).1
  unfolding run_at
  run_at-IsValid now milli task interval e v =
      if_both (λ (r : TimerId × Events T). IsValid r.1) e.exited v
        (elim (Bool-cases (interval == 0)) [
          | inl z ↦ rw z (run_once-IsValid now milli task e v)
          | inr nz ↦ rw nz (run_every-IsValid now milli task interval e (ground arith) v)
        ])
