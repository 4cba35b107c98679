-- ===== src/Timers/Due.antt =====
-- The loop of `handleTimeouts`: it ends, uses no missing entry, and leaves no timer that is due.
-- How much there is to run: each job counts the milliseconds by which it is late, plus one.
use handy_copy.Timers.Inv.{
  IsValid, Other, refresh-IsValid, place-IsValid, id_eq_iff, Linked-set, entry-Held, Armed-seq,
}
use handy_copy.Base.{
  All, All-map, List, Option, [], arith, false, some, ℕ, ◌++◌, ◌+◌, ◌-◌, ◌∷◌, ◌≡◌, ◌≤◌, All-zip,
  Bool-cases, inl, inr, refl, subst,
}
use handy_copy.Timers.Map.{Key, assign, find, key_eq, Above, IsSorted, key_eq_iff, Before}
use handy_copy.Timers.{Events, Job, is_due, once, again, TimerId, requeued, Rep, set_rep, id_eq}
use handy_copy.Timers.Inv.{Linked}
use handy_copy.Timers.Cancel.{not_key, gone-Other, apart}

abbrev pub late : ℕ → Key → ℕ
late now k = now + 1 - k.at

module _ {T : Type 0} where
  unfoldable pub work : ℕ → List (Key × Job T) → ℕ
  work now [] = 0
  work now ((k, job) ∷ m) = late now k + work now m

  pub work-assign :
      (now : ℕ) (k : Key) (job : Job T) (m : List (Key × Job T))
      → work now (assign k job m) ≤ late now k + work now m
  unfolding work assign
  work-assign now k job [] = omega arith
  work-assign now k job ((j, w) ∷ m) = ground (arith, work-assign now k job m)

  -- No job is due.
  abbrev pub NoneDue : ℕ → List (Key × Job T) → Type 0
  NoneDue now = All (λ (p : Key × Job T). is_due now p.0 ≡ false)

  pub later-NoneDue :
      (now : ℕ) (k : Key) (m : List (Key × Job T))
      → is_due now k ≡ false
      → Above k m
      → NoneDue now m
  later-NoneDue now k m h t = All-map _ _ (λ p b. ground arith) m t

  pub record-IsValid :
      (t : T) (e : Events T) → IsValid e → IsValid (record e { ran = e.ran ++ t ∷ [] })
  record-IsValid t e v = record {
    sorted = v.sorted;
    fresh = v.fresh;
    linked = v.linked;
    armed = λ id r h.
        let a = v.armed id r h in
        record { job = a.job; numbered = a.numbered; repeats = a.repeats; timed = a.timed };
  }

  -- What the callbacks must do for the loop to end: return, keep the maps in order, and not put in
  -- more work that is due at the time `now` at which the loop started.
  pub record CallbackOk (now : ℕ) (call : T → Events T → Option (Events T)) : Type 0 where
    pub result : T → Events T → Events T
    pub returns : (t : T) (e : Events T) → call t e ≡ some (result t e)
    pub valid : (t : T) (e : Events T) → IsValid e → IsValid (result t e)
    pub no_more : (t : T) (e : Events T) → work now (result t e).timers ≤ work now e.timers

  -- The state in which the first job is run: without that job.
  abbrev pub popped : List (Key × Job T) → Events T → Events T
  popped rest e = record e { timers = rest }

  find_behind :
      (j k : Key) (job : Job T) (rest : List (Key × Job T)) (res : Option (Job T))
      → find j ((k, job) ∷ rest) ≡ res
      → key_eq j k ≡ false
      → find j rest ≡ res
  unfolding find
  find_behind j k job rest res h g = rw g at h

  head_found :
      (k : Key) (job : Job T) (rest : List (Key × Job T)) → find k ((k, job) ∷ rest) ≡ some job
  unfolding find
  head_found k job rest = rw ((key_eq_iff k k).1 refl) refl

  -- The invariant of a map with a first job.
  pub record Front (k : Key) (job : Job T) (rest : List (Key × Job T)) (e : Events T) : Type 0 where
    pub sorted : IsSorted ((k, job) ∷ rest)
    pub fresh : All (λ (p : Key × Job T). p.0.seq ≤ e.seq) ((k, job) ∷ rest)
    pub linked : All (Linked e.reps) ((k, job) ∷ rest)
    jobs :
        (id : TimerId) (r : Rep T)
        → e.reps id ≡ some r
        → find r.key ((k, job) ∷ rest) ≡ some (again id)

  pub split-Front :
      (k : Key) (job : Job T) (rest : List (Key × Job T)) (e : Events T)
      → e.timers ≡ (k, job) ∷ rest
      → IsValid e
      → Front k job rest e
  split-Front k job rest e at v = record {
    sorted = subst IsSorted at v.sorted;
    fresh = subst (All (λ (p : Key × Job T). p.0.seq ≤ e.seq)) at v.fresh;
    linked = subst (All (Linked e.reps)) at v.linked;
    jobs = λ id r h. let a = v.armed id r h in subst (λ m. find r.key m ≡ some (again id)) at a.job;
  }

  pub popped-IsValid :
      (k : Key) (t : T) (rest : List (Key × Job T)) (e : Events T)
      → e.timers ≡ (k, once t) ∷ rest
      → IsValid e
      → IsValid (popped rest e)
  popped-IsValid k t rest e at v =
      let whole = split-Front k (once t) rest e at v in
      record {
        sorted = whole.sorted.1;
        fresh = whole.fresh.1;
        linked = whole.linked.1;
        armed = λ id r i.
            let a = v.armed id r i in
            let old = whole.jobs id r i in
            record {
              job = find_behind r.key k (once t) rest (some (again id)) old (
                  not_key k r.key (once t) id ((k, once t) ∷ rest) (head_found k (once t) rest) old
                    (λ c. cc c));
              numbered = a.numbered;
              repeats = a.repeats;
              timed = a.timed;
            };
      }

  -- Behind the first key there is no job of the entry of the first job.
  behind-Other :
      (id : TimerId) (r : Rep T) (k : Key) (rest : List (Key × Job T)) (e : Events T)
      → e.reps id ≡ some r
      → r.key ≡ k
      → Above k rest
      → All (Linked e.reps) rest
      → All (Other id) rest
  behind-Other id r k rest e h is_key above links =
      All-zip (Linked e.reps) (λ (p : Key × Job T). Before k p.0) (Other id)
        (λ p l b. gone-Other id r e p h l (ground (arith, is_key))) rest links above

  pub repeated-IsValid :
      (now : ℕ) (id : TimerId) (r : Rep T) (k : Key) (rest : List (Key × Job T)) (e : Events T)
      → e.timers ≡ (k, again id) ∷ rest
      → e.reps id ≡ some r
      → r.key ≡ k
      → IsValid e
      → IsValid (requeued now id r (popped rest e))
  unfolding requeued
  repeated-IsValid now id r k rest e at h is_key v =
      let whole = split-Front k (again id) rest e at v in
      let key : Key = record { at = r.at + r.interval; seq = e.seq + 1 } in
      let r' : Rep T = record {
        at = r.at + r.interval;
        interval = r.interval;
        key = key;
        cb = r.cb;
      } in
      let e' : Events T = record e {
        seq = e.seq + 1;
        reps = set_rep id (some r') e;
        timers = assign key (again id) rest;
      } in
      let mine = v.armed id r h in
      refresh-IsValid now e' (
        place-IsValid e' key (again id) rest e.seq refl whole.sorted.1 whole.fresh.1 (omega arith)
          (omega arith) (r', rw ((id_eq_iff id id).1 refl) refl, refl)
          (All-zip (Linked e.reps) (Other id) (Linked e'.reps)
            (λ p l o. Linked-set id (some r') e p l o) rest whole.linked.1
            (behind-Other id r k rest e h is_key whole.sorted.0 whole.linked.1))
          (λ id' r'' h'. elim (Bool-cases (id_eq id id')) [
            | inl same ↦
                entry-Held e' id id' r' r'' rest (rw same at h') ((id_eq_iff id id').0 same)
                  (record {
                    numbered = omega (arith, mine.numbered);
                    repeats = mine.repeats;
                    timed = refl;
                  })
            | inr other ↦
                let a = v.armed id' r'' (rw other at h') in
                let old = whole.jobs id' r'' (rw other at h') in
                let apart_k =
                  apart id id' ((k, again id) ∷ rest) r''.key k old (head_found k (again id) rest)
                    other in
                (
                  inl (
                    find_behind r''.key k (again id) rest (some (again id')) old apart_k,
                    omega (arith, Armed-seq e id' r'' v a),
                  ),
                  record {
                    numbered = omega (arith, a.numbered);
                    repeats = a.repeats;
                    timed = a.timed;
                  },
                )
          ]))
