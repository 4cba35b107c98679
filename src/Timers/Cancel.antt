-- ===== src/Timers/Cancel.antt =====
-- `cancel`: what is gone afterwards, and what stays.
use handy_copy.Base.Int.{pos, negsuc}
use handy_copy.Timers.Map.{
  Key, key_eq, key_eq_iff, find, erase, erase-IsSorted, find-erase, All-erase, erase_gone,
}
use handy_copy.Timers.{
  TimerId, id_eq, Rep, Job, once, again, Events, set_rep, cancel, cancel_once, cancel_rep,
  cancel_at,
}
use handy_copy.Timers.Inv.{Linked, Armed, IsValid, Other, Linked-set, id_eq_iff}
use handy_copy.Base.{
  All, All-zip, Bool-cases, ap, false, inl, inr, none, some, some_eq, sym, ◌∙◌, ◌≡◌, List, refl,
  subst, true, ℕ, Option, ◌≢◌, is_some,
}

module _ {T : Type 0} where
  -- Behind `erase` of an entry's key no job of that entry is left.
  pub gone-Other :
      (id : TimerId) (r : Rep T) (e : Events T) (p : Key × Job T)
      → e.reps id ≡ some r
      → Linked e.reps p
      → key_eq r.key p.0 ≡ false
      → Other id p
  gone-Other id r e (k, once t) h l g = tt
  gone-Other id r e (k, again id') h l g = elim (Bool-cases (id_eq id id')) [
    | inl same ↦
        let is_id : id ≡ id' = (id_eq_iff id id').0 same in
        let is_r : some r ≡ some l.0 = sym h ∙ ap e.reps is_id ∙ l.1 in
        let is_key : r.key ≡ k = ap (λ (x : Rep T). x.key) (some_eq r l.0 is_r) ∙ l.2 in
        cc (sym g, (key_eq_iff r.key k).1 is_key)
    | inr other ↦ other
  ]

  -- What `cancel` of a repeating timer that exists leaves behind.
  pub record CancelledRep (id : TimerId) (r : Rep T) (e e' : Events T) : Type 0 where
    pub valid : IsValid e'
    pub no_job : All (Other id) e'.timers
    pub no_entry : e'.reps id ≡ none
    pub others : (j : Key) → key_eq j r.key ≡ false → find j e'.timers ≡ find j e.timers

  -- Two keys that hold the jobs of two entries differ.
  pub apart :
      (id id' : TimerId) (m : List (Key × Job T)) (j k : Key)
      → find j m ≡ some (again id')
      → find k m ≡ some (again id)
      → id_eq id id' ≡ false
      → key_eq j k ≡ false
  apart id id' m j k a b other = elim (Bool-cases (key_eq j k)) [
    | inr differ ↦ differ
    | inl same ↦
        let is_key : j ≡ k = (key_eq_iff j k).0 same in
        let jobs : ◌≡◌ {A = Option (Job T)} (some (again id')) (some (again id)) =
          sym a ∙ ap (λ i. find i m) is_key ∙ b in
        let ids : id' ≡ id = cc jobs in cc (other, (id_eq_iff id id').1 (sym ids))
  ]

  pub not_key :
      (k j : Key) (job : Job T) (id : TimerId) (m : List (Key × Job T))
      → find k m ≡ some job
      → find j m ≡ some (again id)
      → some job ≢ some (again id)
      → key_eq j k ≡ false
  not_key k j job id m a b plain = elim (Bool-cases (key_eq j k)) [
    | inr differ ↦ differ
    | inl same ↦ absurd (plain (sym a ∙ ap (λ i. find i m) (sym ((key_eq_iff j k).0 same)) ∙ b))
  ]

  module _ (id : TimerId) (r : Rep T) (e : Events T) (v : IsValid e) (h : e.reps id ≡ some r) where
    after_rep : Events T
    after_rep = record e { timers = erase r.key e.timers; reps = set_rep id none e }

    no_jobs : All (Other id) (erase r.key e.timers)
    no_jobs =
        All-zip (Linked e.reps) (λ (p : Key × Job T). key_eq r.key p.0 ≡ false) (Other id)
          (λ p l g. gone-Other id r e p h l g) (erase r.key e.timers)
          (All-erase (Linked e.reps) r.key e.timers v.linked) (erase_gone r.key e.timers v.sorted)

    other-Armed :
        (id' : TimerId) (r' : Rep T) → set_rep id none e id' ≡ some r' → Armed after_rep id' r'
    unfolding after_rep
    other-Armed id' r' h' = elim (Bool-cases (id_eq id id')) [
      | inl same ↦ absurd (cc (rw same at h'))
      | inr other ↦
          let a = v.armed id' r' (rw other at h') in
          let b = v.armed id r h in
          let a_job : find r'.key e.timers ≡ some (again id') = a.job in
          let b_job : find r.key e.timers ≡ some (again id) = b.job in
          let differ : key_eq r'.key r.key ≡ false =
            apart id id' e.timers r'.key r.key a_job b_job other in
          record {
            job = find-erase r.key r'.key e.timers v.sorted ∙ rw differ a_job;
            numbered = a.numbered;
            repeats = a.repeats;
            timed = a.timed;
          }
    ]

  pub live_cancel :
      (id : TimerId) (n : ℕ) (e : Events T)
      → id.at ≡ negsuc n
      → cancel id e ≡ cancel_rep id (e.reps id) e
  unfolding cancel cancel_at
  live_cancel id n e neg = ap (λ z. cancel_at z id e) neg

  -- `cancel` of the id of a live repeating timer, one with a time below 0, in maps that are in
  -- order, returns true and removes the timer and its job and nothing else: no job of the id is
  -- left, `timerReps_` has no entry of it, every other key holds what it held, and the two maps
  -- stay in order.
  pub cancel_repeating :
      (id : TimerId) (n : ℕ) (r : Rep T) (e : Events T)
      → IsValid e
      → id.at ≡ negsuc n
      → e.reps id ≡ some r
      → (e' : Events T) × (cancel id e ≡ some (true, e')) × CancelledRep id r e e'
  unfolding cancel_rep after_rep
  cancel_repeating id n r e v neg h = (
    after_rep id r e v h,
    live_cancel id n e neg ∙ ap (λ x. cancel_rep id x e) h,
    record {
      valid = record {
        sorted = erase-IsSorted r.key e.timers v.sorted;
        fresh = All-erase _ r.key e.timers v.fresh;
        linked =
            All-zip (Linked e.reps) (Other id) (Linked (set_rep id none e))
              (λ p l o. Linked-set id none e p l o) (erase r.key e.timers)
              (All-erase (Linked e.reps) r.key e.timers v.linked) (no_jobs id r e v h);
        armed = other-Armed id r e v h;
      };
      no_job = no_jobs id r e v h;
      no_entry = rw ((id_eq_iff id id).1 refl) refl;
      others = λ j g. find-erase r.key j e.timers v.sorted ∙ rw g refl;
    },
  )

  -- In maps that are in order, a second `cancel` of the id of a repeating timer, one with a time
  -- below 0, uses an entry that is gone.
  pub cancel_twice :
      (id : TimerId) (n : ℕ) (r : Rep T) (e e' : Events T)
      → IsValid e
      → id.at ≡ negsuc n
      → e.reps id ≡ some r
      → cancel id e ≡ some (true, e')
      → cancel id e' ≡ none
  unfolding cancel_rep
  cancel_twice id n r e e' v neg h c =
      let (e'', c', gone) = cancel_repeating id n r e v neg h in
      let same : e'' ≡ e' = cc (c, c') in
      let empty : e'.reps id ≡ none =
        subst (λ (x : Events T). x.reps id ≡ none) same gone.no_entry in
      live_cancel id n e' neg ∙ ap (λ x. cancel_rep id x e') empty

  -- What `cancel` of a timer that does not repeat leaves behind.
  pub record CancelledOnce (k : Key) (e e' : Events T) : Type 0 where
    pub valid : IsValid e'
    pub no_job : find k e'.timers ≡ none
    pub entries : e'.reps ≡ e.reps
    pub others : (j : Key) → key_eq j k ≡ false → find j e'.timers ≡ find j e.timers

  once_removed :
      (k : Key) (job : Option (Job T)) (e : Events T)
      → IsValid e
      → find k e.timers ≡ job
      → ((id : TimerId) → job ≢ some (again id))
      → (e' : Events T) × (cancel_once k job e ≡ (is_some job, e')) × CancelledOnce k e e'
  unfolding cancel_once
  once_removed k none e v h plain =
      (e, refl, record { valid = v; no_job = h; entries = refl; others = λ j g. refl })
  once_removed k (some job) e v h plain = (
    record e { timers = erase k e.timers },
    refl,
    record {
      valid = record {
        sorted = erase-IsSorted k e.timers v.sorted;
        fresh = All-erase _ k e.timers v.fresh;
        linked = All-erase (Linked e.reps) k e.timers v.linked;
        armed = λ id r i.
            let a = v.armed id r i in
            let armed_job : find r.key e.timers ≡ some (again id) = a.job in
            record {
              job =
                  find-erase k r.key e.timers v.sorted
                  ∙ rw (not_key k r.key job id e.timers h armed_job (plain id)) armed_job;
              numbered = a.numbered;
              repeats = a.repeats;
              timed = a.timed;
            };
      };
      no_job = find-erase k k e.timers v.sorted ∙ rw ((key_eq_iff k k).1 refl) refl;
      entries = refl;
      others = λ j g. find-erase k j e.timers v.sorted ∙ rw g refl;
    },
  )

  -- `cancel` of an id with a time of 0 or more, whose key holds no job of a repeating timer, in
  -- maps that are in order, returns whether the timer is there, and afterwards it is not: all
  -- other keys hold what they held and the two maps stay in order. An id that has run or was
  -- cancelled before is ignored.
  pub cancel_single :
      (id : TimerId) (n : ℕ) (e : Events T)
      → IsValid e
      → id.at ≡ pos n
      → ((id' : TimerId) → find (record { at = n; seq = id.seq }) e.timers ≢ some (again id'))
      → (e' : Events T) × (cancel id e
          ≡ some (is_some (find (record { at = n; seq = id.seq }) e.timers), e'))
        × CancelledOnce (record { at = n; seq = id.seq }) e e'
  unfolding cancel cancel_at
  cancel_single id n e v h plain =
      let k : Key = record { at = n; seq = id.seq } in
      let (e', same, gone) = once_removed k (find k e.timers) e v refl plain in
      (e', ap (λ z. cancel_at z id e) h ∙ ap some same, gone)
