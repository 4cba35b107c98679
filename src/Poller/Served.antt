-- ===== src/Poller/Served.antt =====
-- A round of `loop_once` serves the channels that the wait gave, and no channel that is gone.
use handy_copy.Poller.{
  is_ptr, Event, Kind, Ops, Poller, Step, System, World, called, points_to, filled,
}
use handy_copy.Poller.Active.{at, Once, Absent, same_pointer}
use handy_copy.Poller.Rounds.{
  with_events, call, serve, dispatch, after_wait, loop_once, entry, at_index, filled_in,
  polled_world,
}
use handy_copy.Poller.Kept.{
  Kept, FreshCalls, touched, cannot_be, or_right, or_true_left, or_true_right, run_ops-Kept,
}
use mathlib.Core.Option.{bind-eq-some_iff}
use handy_copy.Base.Int.{pos, ℤ}
use handy_copy.Base.{
  List, [], false, suc, true, ℕ, ◌<◌, ◌==◌, ◌∷◌, ◌≡◌, ◌⊎◌, ==_iff, Bool-cases, arith, false_of, inl,
  inr, subst, sym, some, some_eq, Option, none, ap, get_elem?, refl, ◌∙◌, zero, length, ◌++◌,
}

ptr_points :
    (o : Option ℕ) (ev c events : ℕ) → with_events ev o ≡ some (c, events) → is_ptr c o ≡ true
ptr_points none ev c events e = absurd (cc e)
ptr_points (some d) ev c events e = (==_iff c d).1 (sym (ap (λ p. p.0) (some_eq _ _ e)))

entry_points : (o : Option Event) (c events : ℕ) → entry o ≡ some (c, events) → points_to c o ≡ true
entry_points none c events e = absurd (cc e)
entry_points (some v) c events e = ptr_points v.ptr v.events c events e

no_ptr : (o : Option ℕ) (ev d : ℕ) → with_events ev o ≡ none → is_ptr d o ≡ false
no_ptr none ev d e = refl
no_ptr (some c) ev d e = absurd (cc e)

no_entry : (o : Option Event) (d : ℕ) → entry o ≡ none → points_to d o ≡ false
no_entry none d e = refl
no_entry (some v) d e = no_ptr v.ptr v.events d e

below : {i j : ℕ} → j < suc i → (j ≡ i → ⊥) → j < i
below {i} {j} l n = elim (Bool-cases (j == i)) [
  | inl e ↦ absurd (n ((==_iff j i).0 e))
  | inr f ↦ ground arith
]

-- What holds before the entry below `n` is looked at.
record Ready (given : List Event) (n : ℕ) (p : Poller) (l : List Step) : Type 0 where
  once : Once n p.active_evs
  cleared : (c : ℕ) → touched c l ≡ true → Absent c n p.active_evs
  waiting :
      (c j : ℕ)
      → at c given j ≡ true
      → (touched c l ≡ true) ⊎ (j < n × (at c p.active_evs j ≡ true))
  fresh : FreshCalls l

module _ {given : List Event} (i : ℕ) where
  Kept-Ready : {p : Poller} {l : List Step} → Kept given i p l → Ready given i p l
  Kept-Ready k = record {
    once = λ c x y lx ly. k.once c x y (omega arith) (omega arith);
    cleared = k.cleared;
    waiting = k.waiting;
    fresh = k.fresh;
  }

  -- An entry whose pointer is NULL.
  null-Ready :
      (p : Poller) (l : List Step) (n : ℤ)
      → Ready given (suc i) p l
      → entry (get_elem? p.active_evs i) ≡ none
      → Ready given i (record p { last_active = n }) l
  null-Ready p l n k e = record {
    once = λ c x y lx ly. k.once c x y (omega arith) (omega arith);
    cleared = λ c t j lt. k.cleared c t j (omega arith);
    waiting = λ c j h. elim (k.waiting c j h) [
      | inl t ↦ inl t
      | inr w ↦
          inr (
            below w.0 (λ q. cannot_be (ap (at c p.active_evs) (sym q) ∙ w.1) (no_entry _ c e)),
            w.1,
          )
    ];
    fresh = k.fresh;
  }

  -- The call of an entry's channel.
  called-Ready :
      (p : Poller) (l : List Step) (kind : Kind) (c events : ℕ)
      → Ready given (suc i) p l
      → entry (get_elem? p.active_evs i) ≡ some (c, events)
      → Kept given i (record p { last_active = pos i }) (called kind c ∷ l)
  called-Ready p l kind c events k e =
      let here = entry_points (get_elem? p.active_evs i) c events e in
      record {
        index = refl;
        once = k.once;
        cleared = λ d t j lt. elim (Bool-cases (d == c)) [
          | inl q ↦ false_of _ (λ a.
              let same =
                k.once d j i (omega arith) (omega arith) a
                  (ap (λ z. at z p.active_evs i) ((==_iff d c).0 q) ∙ here) in
              omega arith)
          | inr n ↦ k.cleared d (or_right n t) j (omega arith)
        ];
        waiting = λ d j h. elim (k.waiting d j h) [
          | inl t ↦ inl (or_true_right _ t)
          | inr w ↦ elim (Bool-cases (j == i)) [
            | inl q ↦ inl (
                or_true_left _ (
                  (==_iff d c).1 (
                    same_pointer d c (get_elem? p.active_evs i)
                      (ap (at d p.active_evs) (sym ((==_iff j i).0 q)) ∙ w.1) here)))
            | inr n ↦ inr (below w.0 (λ q. cannot_be ((==_iff j i).1 q) n), w.1)
          ]
        ];
        fresh = (false_of _ (λ t. cannot_be here (k.cleared c t i (omega arith))), k.fresh);
      }

module _ {K : Type 0} (s : System K) (choose : World K → ℕ → ℕ → Option Kind)
    (handle : Kind → ℕ → World K → Ops) (given : List Event) where
  call-Ready :
      (i : ℕ) (p : ℕ × ℕ) (w w' : World K)
      → entry (get_elem? w.poller.active_evs i) ≡ some p
      → Ready given (suc i) w.poller w.log
      → (o : Option Kind) → call s choose handle o p.0 (at_index (pos i) w) ≡ some w'
      → Ready given i w'.poller w'.log
  unfolding call
  call-Ready i p w w' q k none e = absurd (cc e)
  call-Ready i p w w' q k (some kind) e = Kept-Ready i (
      run_ops-Kept s given i (handle kind p.0 (at_index (pos i) w)) _ w'
        (called-Ready i w.poller w.log kind p.0 p.1 k q) e)

  serve-Ready :
      (i : ℕ) (o : Option (ℕ × ℕ)) (w w' : World K)
      → entry (get_elem? w.poller.active_evs i) ≡ o
      → Ready given (suc i) w.poller w.log
      → serve s choose handle o (at_index (pos i) w) ≡ some w'
      → Ready given i w'.poller w'.log
  unfolding serve
  serve-Ready i none w w' q k e =
      subst (λ z. Ready given i z.poller z.log) (some_eq _ _ e)
        (null-Ready i w.poller w.log (pos i) k q)
  serve-Ready i (some p) w w' q k e =
      call-Ready i p w w' q k (choose (at_index (pos i) w) p.0 p.1) e

  dispatch-Ready :
      (n : ℕ) (w w' : World K)
      → Ready given n w.poller w.log
      → dispatch s choose handle n w ≡ some w'
      → Ready given 0 w'.poller w'.log
  unfolding dispatch
  dispatch-Ready zero w w' k e =
      subst (λ z. Ready given 0 z.poller z.log) (some_eq _ _ e)
        (record { once = k.once; cleared = k.cleared; waiting = k.waiting; fresh = k.fresh })
  dispatch-Ready (suc i) w w' k e =
      let (w1, first, rest) =
        (bind-eq-some_iff
            (serve s choose handle (entry (get_elem? w.poller.active_evs i)) (at_index (pos i) w))
            (dispatch s choose handle i)).0
          e in
      dispatch-Ready i w1 w' (serve-Ready i _ w w1 refl k first) rest

at-append : (c i : ℕ) (evs rest : List Event) → i < length evs → at c (evs ++ rest) i ≡ at c evs i
at-append c i [] rest l = absurd (omega arith)
at-append c zero (e ∷ evs) rest l = refl
at-append c (suc i) (e ∷ evs) rest l = at-append c i evs rest (omega arith)

at_within : (c i : ℕ) (evs : List Event) → at c evs i ≡ true → i < length evs
at_within c i [] h = absurd (cc h)
at_within c zero (e ∷ evs) h = omega arith
at_within c (suc i) (e ∷ evs) h = omega (arith, at_within c i evs h)

module _ {K : Type 0} (s : System K) (choose : World K → ℕ → ℕ → Option Kind)
    (handle : Kind → ℕ → World K → Ops) where
  filled_in-Ready :
      (w : World K) (evs : List Event)
      → Once (length evs) evs
      → FreshCalls w.log
      → Ready evs (length evs) (filled_in evs w).poller (filled_in evs w).log
  filled_in-Ready w evs o f = record {
    once = λ c i j li lj hi hj.
        o c i j li lj (sym (at-append c i evs _ li) ∙ hi) (sym (at-append c j evs _ lj) ∙ hj);
    cleared = λ c t. absurd (cc t);
    waiting = λ c j h. inr (at_within c j evs h, at-append c j evs _ (at_within c j evs h) ∙ h);
    fresh = f;
  }

  -- If the entries that a wait gave have different pointers, if every call before was of a
  -- channel not called and not removed before in its round, and if the round does not end the
  -- process, then that holds of the calls of this round too, whatever channels the callbacks
  -- open, close and change; and each channel that the wait gave was called or removed in it.
  pub loop_once_serves :
      (w w' : World K) (milli : ℕ) (evs : List Event)
      → (s.wait w.kernel milli).0 ≡ filled evs
      → Once (length evs) evs
      → FreshCalls w.log
      → loop_once s choose handle w milli ≡ some w'
      → FreshCalls w'.log × ((c j : ℕ) → at c evs j ≡ true → touched c w'.log ≡ true)
  unfolding loop_once after_wait
  loop_once_serves w w' milli evs g o f e =
      let w1 = polled_world s choose handle w milli in
      let r =
        dispatch-Ready s choose handle evs (length evs) (filled_in evs w1) w'
          (filled_in-Ready w1 evs o f) (ap (λ z. after_wait s choose handle z w1) (sym g) ∙ e) in
      (r.fresh, λ c j h. elim (r.waiting c j h) [ inl t ↦ t | inr z ↦ absurd (omega (arith, z.0)) ])
