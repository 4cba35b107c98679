-- ===== src/Timers/Undo.antt =====
-- `cancel` with the id that `runAt` returned.
use handy_copy.Base.{
  arith, refl, some, true, ℕ, ◌+◌, ◌∙◌, ◌≡◌, ◌≢◌, Bool-cases, Option-cases, ap, false, inl, inr,
  none, sym, ◌-◌, ◌<◌, ◌==◌, ◌⊎◌, if◌then◌else◌, not, subst,
}
use handy_copy.Timers.{
  Events, run_every, run_once, TimerId, cancel, cancel_at, refresh_nearest, cancel_rep, Key, once,
  find, assign, cancel_once, negated, run_at, Rep, insert, negsuc, erase, set_rep, pos, again,
  id_eq,
}
use handy_copy.Timers.Inv.{find_fresh, IsValid, id_eq_iff}
use handy_copy.Timers.Map.{insert_new, find-assign, key_eq_iff, erase-assign}
use handy_copy.Timers.Cancel.{live_cancel}

negated_neg : (milli : ℕ) → milli ≢ 0 → negated milli ≡ negsuc (milli - 1)
negated_neg milli h = ground arith

module _ {T : Type 0} where
  -- The maps are as they were.
  pub record Undone (e e' : Events T) : Type 0 where
    pub timers : e'.timers ≡ e.timers
    pub entries : (id : TimerId) → e'.reps id ≡ e.reps id

  -- `cancel` with what `runAt` returned, `p.0` the id and `p.1` the base.
  abbrev pub Cancels : Events T → TimerId × Events T → Type 0
  Cancels e p = (e' : Events T) × (cancel p.0 p.1 ≡ some (true, e')) × Undone e e'

  undo_once :
      (now milli : ℕ) (task : T) (e : Events T)
      → IsValid e
      → (e' : Events T) × (cancel (run_once now milli task e).0 (run_once now milli task e).1
          ≡ some (true, e'))
        × Undone e e'
  unfolding run_once cancel cancel_at cancel_once refresh_nearest
  undo_once now milli task e v =
      let k : Key = record { at = milli; seq = e.seq + 1 } in
      let new_key = find_fresh k e.seq e.timers v.fresh (omega arith) in
      let placed = insert_new k (once task) e.timers v.sorted new_key in
      let there : find k (assign k (once task) e.timers) ≡ some (once task) =
        find-assign k k (once task) e.timers v.sorted ∙ rw ((key_eq_iff k k).1 refl) refl in
      let after : Events T =
        refresh_nearest now
          (record e { seq = e.seq + 1; timers = insert k (once task) e.timers }) in
      (
        record after { timers = erase k after.timers },
        ap (λ x. some (cancel_once k x after)) (ap (find k) placed ∙ there),
        record {
          timers = ap (erase k) placed ∙ erase-assign k (once task) e.timers new_key;
          entries = λ id. refl;
        },
      )

  -- An id with a new number has no entry.
  no_entry_yet : (id : TimerId) (e : Events T) → IsValid e → e.seq < id.seq → e.reps id ≡ none
  no_entry_yet id e v h = elim (Option-cases (e.reps id)) [
    | inl n ↦ n
    | inr (r, s) ↦ let a = v.armed id r s in absurd (omega (arith, a.numbered, h))
  ]

  undo_every :
      (now milli : ℕ) (task : T) (interval : ℕ) (e : Events T)
      → milli ≢ 0
      → IsValid e
      → (e' : Events T) × (cancel
            (run_every now milli task interval e).0
            (run_every now milli task interval e).1
          ≡ some (true, e'))
        × Undone e e'
  unfolding run_every refresh_nearest cancel_rep
  undo_every now milli task interval e nz v =
      let id : TimerId = record { at = negated milli; seq = e.seq + 1 } in
      let k : Key = record { at = milli; seq = e.seq + 2 } in
      let r : Rep T = record { at = milli; interval = interval; key = k; cb = task } in
      let after : Events T = (run_every now milli task interval e).1 in
      let entry : set_rep id (some r) e id ≡ some r = rw ((id_eq_iff id id).1 refl) refl in
      (
        record after { timers = erase k after.timers; reps = set_rep id none after },
        live_cancel id (milli - 1) after (negated_neg milli nz)
            ∙ ap (λ x. cancel_rep id x after) entry,
        record {
          timers =
              erase-assign k (again id) e.timers
                (find_fresh k e.seq e.timers v.fresh (omega arith));
          entries = λ id'. elim (Bool-cases (id_eq id id')) [
            | inl same ↦ rw same (
                sym (
                  no_entry_yet id' e v (
                    subst (λ (i : TimerId). e.seq < i.seq) ((id_eq_iff id id').0 same)
                      (omega arith))))
            | inr other ↦ rw other refl
          ];
        },
      )

  -- `cancel` of the id that `runAt` returned, for one run or, at a time other than 0, for repeated
  -- ones, in a base that has not exited and whose maps are in order, returns true and puts both
  -- timer maps back to what they were before `runAt`.
  pub cancel-run_at :
      (now milli : ℕ) (task : T) (interval : ℕ) (e : Events T)
      → IsValid e
      → e.exited ≡ false
      → (interval ≡ 0) ⊎ (milli ≢ 0)
      → (e' : Events T) × (cancel
            (run_at now milli task interval e).0
            (run_at now milli task interval e).1
          ≡ some (true, e'))
        × Undone e e'
  unfolding run_at
  cancel-run_at now milli task interval e v open_base ok =
      let every = run_every now milli task interval e in
      let single = run_once now milli task e in
      let opened : run_at now milli task interval e
          ≡ (if not (interval == 0) then every else single) =
        ap
          (λ b.
            if b
            then (record { at = pos 0; seq = 0 }, e)
            else if not (interval == 0)
            then every
            else single)
          open_base in
      subst (Cancels e) (sym opened) (elim (Bool-cases (interval == 0)) [
        | inl z ↦ rw z (undo_once now milli task e v)
        | inr nz ↦ rw nz (undo_every now milli task interval e (ground arith) v)
      ])
