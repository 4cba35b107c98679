-- ===== src/Poller/Kept.antt =====
-- What a callback of a round keeps, whatever channels it opens, closes and changes.
use handy_copy.Poller.{
  constructed, Event, Op, Ops, Poller, Step, System, World, add_channel, enable, new_channel,
  remove_channel, run_op, run_ops, shut, update_channel, is_open, called, opened, shutting, removed,
  clear_below, window, Channel, opening, put, enable_read, enable_write, enable_read_write, closing,
  next, set_read, set_write, set_read_write,
}
use handy_copy.Poller.Active.{
  at, Once, Absent, at-clear_below, clear_below-Absent, clear_below-keeps,
}
use mathlib.Core.Option.{bind-eq-some_iff}
use handy_copy.Base.Int.{pos, ℤ}
use handy_copy.Base.{
  Bool, List, [], false, suc, true, ℕ, ◌<◌, ◌==◌, ◌||◌, ◌∷◌, ◌≡◌, ◌⊎◌, ==_iff, Bool-cases, arith,
  false_of, inl, inr, subst, sym, if_none, some, some_eq, if_some_holds,
}

-- Since the last wait the channel was called, or was taken out.
abbrev pub touched : ℕ → List Step → Bool
touched c [] = false
touched c (Step.polled ∷ l) = false
touched c (opened d ∷ l) = touched c l
touched c (shutting d ∷ l) = touched c l
touched c (removed d ∷ l) = c == d || touched c l
touched c (called k d ∷ l) = c == d || touched c l

-- No loop has called a channel that it had called before in the round, or that was removed in it.
abbrev pub FreshCalls : List Step → Type 0
FreshCalls [] = Unit
FreshCalls (called k c ∷ l) = (touched c l ≡ false) × FreshCalls l
FreshCalls (Step.polled ∷ l) = FreshCalls l
FreshCalls (opened d ∷ l) = FreshCalls l
FreshCalls (shutting d ∷ l) = FreshCalls l
FreshCalls (removed d ∷ l) = FreshCalls l

pub cannot_be : {b : Bool} → b ≡ true → b ≡ false → ⊥
cannot_be h k = cc (h, k)

pub or_right : {a b : Bool} → a ≡ false → (a || b) ≡ true → b ≡ true
or_right {a} {b} h k = ground arith

pub or_true_left : {a : Bool} (b : Bool) → a ≡ true → (a || b) ≡ true
or_true_left {a} b h = ground arith

pub or_true_right : (a : Bool) {b : Bool} → b ≡ true → (a || b) ≡ true
or_true_right a {b} h = ground arith

-- What holds while the callback of the entry `i` runs: `given` are the entries that the wait gave.
pub record Kept (given : List Event) (i : ℕ) (p : Poller) (l : List Step) : Type 0 where
  pub index : p.last_active ≡ pos i
  pub once : Once (suc i) p.active_evs
  pub cleared : (c : ℕ) → touched c l ≡ true → Absent c i p.active_evs
  pub waiting :
      (c j : ℕ)
      → at c given j ≡ true
      → (touched c l ≡ true) ⊎ (j < i × (at c p.active_evs j ≡ true))
  pub fresh : FreshCalls l

at-remove_channel :
    (c d j : ℕ) (p : Poller)
    → at c (remove_channel d p).active_evs j ≡ true
    → at c p.active_evs j ≡ true
unfolding remove_channel
at-remove_channel c d j p h = at-clear_below c d (window p.last_active) j p.active_evs h

remove_channel-Absent :
    (c i : ℕ) (p : Poller)
    → p.last_active ≡ pos i
    → Once (suc i) p.active_evs
    → Absent c (suc i) (remove_channel c p).active_evs
unfolding remove_channel
remove_channel-Absent c i p e o =
    subst (λ z. Absent c (suc i) (clear_below c (window z) p.active_evs)) (sym e)
      (clear_below-Absent c (suc i) p.active_evs o)

remove_channel-keeps :
    (c d j : ℕ) (p : Poller)
    → (c == d) ≡ false
    → at c p.active_evs j ≡ true
    → at c (remove_channel d p).active_evs j ≡ true
unfolding remove_channel
remove_channel-keeps c d j p n h =
    clear_below-keeps c d (window p.last_active) j p.active_evs (λ e. ground arith) h

module _ {given : List Event} {i : ℕ} where
  opened-Kept :
      (p : Poller) (live : List ℕ) (l : List Step) (c : ℕ)
      → Kept given i p l
      → Kept given i (record p { live_channels = live }) (opened c ∷ l)
  opened-Kept p live l c k = record {
    index = k.index;
    once = k.once;
    cleared = k.cleared;
    waiting = k.waiting;
    fresh = k.fresh;
  }

  removed-Kept :
      (p : Poller) (l : List Step) (c : ℕ)
      → Kept given i p l
      → Kept given i (remove_channel c p) (shutting c ∷ removed c ∷ l)
  unfolding remove_channel
  removed-Kept p l c k = record {
    index = k.index;
    once = λ d x y lx ly hx hy.
        k.once d x y lx ly (at-remove_channel d c x p hx) (at-remove_channel d c y p hy);
    cleared = λ d t j lt. elim (Bool-cases (d == c)) [
      | inl e ↦
          subst (λ z. at z (remove_channel c p).active_evs j ≡ false) (sym ((==_iff d c).0 e))
            (remove_channel-Absent c i p k.index k.once j (omega arith))
      | inr n ↦
          false_of _
            (λ a. cannot_be (at-remove_channel d c j p a) (k.cleared d (or_right n t) j lt))
    ];
    waiting = λ d j h. elim (Bool-cases (d == c)) [
      | inl e ↦ inl (or_true_left _ e)
      | inr n ↦ elim (k.waiting d j h) [
        | inl t ↦ inl (or_true_right _ t)
        | inr w ↦ inr (w.0, remove_channel-keeps d c j p n w.1)
      ]
    ];
    fresh = k.fresh;
  }

module _ {K : Type 0} (s : System K) (given : List Event) (i : ℕ) where
  abbrev KeptIn : World K → Type 0
  KeptIn w = Kept given i w.poller w.log

  add_channel-Kept : (w w' : World K) (c : ℕ) → add_channel s w c ≡ some w' → KeptIn w → KeptIn w'
  unfolding add_channel
  add_channel-Kept w w' c e k = if_some_holds KeptIn _ e (opened-Kept _ _ _ c k)

  update_channel-Kept :
      (w w' : World K) (c : ℕ) → update_channel s w c ≡ some w' → KeptIn w → KeptIn w'
  unfolding update_channel
  update_channel-Kept w w' c e k = if_some_holds KeptIn _ e k

  new_channel-Kept :
      (w w' : World K) (c : ℕ) (fd : ℤ) (events : ℕ)
      → new_channel s w c fd events ≡ some w'
      → KeptIn w
      → KeptIn w'
  unfolding new_channel
  new_channel-Kept w w' c fd events e k =
      add_channel-Kept (constructed s w c fd events) w' c (if_none _ e) k

  enable-Kept :
      (f : Channel → Channel) (w w' : World K) (c : ℕ)
      → enable s f w c ≡ some w'
      → KeptIn w
      → KeptIn w'
  unfolding enable
  enable-Kept f w w' c e k =
      update_channel-Kept (record w { channels = put c (f (w.channels c)) w.channels }) w' c e k

  closed-Kept :
      (b : Bool) (c : ℕ) (ops : Ops) (w w' : World K)
      → KeptIn w
      → (run_ops s ops (shut s w c) ≡ some w' → KeptIn w')
      → elim b [ true ↦ run_ops s ops (shut s w c) | false ↦ some w ] ≡ some w'
      → KeptIn w'
  closed-Kept true c ops w w' k f e = f e
  closed-Kept false c ops w w' k f e = subst KeptIn (some_eq _ _ e) k

  mutual
    unfolding run_op shut

    run_op-Kept : (o : Op) (w w' : World K) → KeptIn w → run_op s o w ≡ some w' → KeptIn w'
    run_op-Kept (opening c fd events) w w' k e = new_channel-Kept w w' c fd events e k
    run_op-Kept (enable_read c b) w w' k e = enable-Kept (set_read b) w w' c e k
    run_op-Kept (enable_write c b) w w' k e = enable-Kept (set_write b) w w' c e k
    run_op-Kept (enable_read_write c a b) w w' k e = enable-Kept (set_read_write a b) w w' c e k
    run_op-Kept (closing c ops) w w' k e =
        closed-Kept (is_open (w.channels c)) c ops w w' k
          (run_ops-Kept ops (shut s w c) w' (removed-Kept w.poller w.log c k)) e

    pub run_ops-Kept :
        (ops : Ops) (w w' : World K) → KeptIn w → run_ops s ops w ≡ some w' → KeptIn w'
    run_ops-Kept Ops.stop w w' k e = subst KeptIn (some_eq _ _ e) k
    run_ops-Kept (next o ops) w w' k e =
        let (w1, first, rest) = (bind-eq-some_iff (run_op s o w) (run_ops s ops)).0 e in
        run_ops-Kept ops w1 w' (run_op-Kept o w w1 k first) rest
