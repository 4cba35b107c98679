-- ===== src/Scheduling/Order.antt =====
-- The multimap of the scheduler in the order of its keys.
use mathlib.Core.List.{Perm, perm_middle}
use mathlib.Core.List.Perm
use handy_copy.Scheduling.{Task, emplace, emplace_all}
use handy_copy.Base.{
  All, List, [], ap, arith, if_both, if_cases, length, ltb, ltb→lt, refl, suc, ℕ, ◌+◌, ◌<◌, ◌∙◌,
  ◌∷◌, ◌≡◌, ◌≤◌, append-nil, subst, sym, ◌++◌,
}

module _ {T : Type 0} where
  -- No key is before (is up to) a time.
  abbrev pub From : ℕ → List (ℕ × Task T) → Type 0
  From k = All (λ (p : ℕ × Task T). k ≤ p.0)

  abbrev pub After : ℕ → List (ℕ × Task T) → Type 0
  After k = All (λ (p : ℕ × Task T). k < p.0)

  abbrev pub UpTo : ℕ → List (ℕ × Task T) → Type 0
  UpTo k = All (λ (p : ℕ × Task T). p.0 ≤ k)

  abbrev pub Sorted : List (ℕ × Task T) → Type 0
  Sorted [] = Unit
  Sorted ((s, w) ∷ l) = From s l × Sorted l

  pub emplace-All {κ} :
      (P : ℕ × Task T → Type κ) (t : ℕ) (v : Task T) (l : List (ℕ × Task T))
      → P (t, v)
      → All P l
      → All P (emplace t v l)
  unfolding emplace
  emplace-All P t v [] p h = (p, tt)
  emplace-All P t v ((s, w) ∷ l) p h =
      if_both (All P) (ltb t s) (p, h) (h.0, emplace-All P t v l p h.1)

  From-less : (j k : ℕ) (l : List (ℕ × Task T)) → j ≤ k → From k l → From j l
  From-less j k [] h f = tt
  From-less j k ((s, w) ∷ l) h f = (omega (arith, h, f.0), From-less j k l h f.1)

  pub From-After : (j k : ℕ) (l : List (ℕ × Task T)) → j < k → From k l → After j l
  From-After j k [] h f = tt
  From-After j k ((s, w) ∷ l) h f = (omega (arith, h, f.0), From-After j k l h f.1)

  pub emplace-Sorted :
      (t : ℕ) (v : Task T) (l : List (ℕ × Task T)) → Sorted l → Sorted (emplace t v l)
  unfolding emplace
  emplace-Sorted t v [] h = (tt, tt)
  emplace-Sorted t v ((s, w) ∷ l) h =
      if_cases Sorted (ltb t s)
        (λ e. let before = ltb→lt t s e in ((omega arith, From-less t s l (omega arith) h.0), h))
        (λ e. (
          emplace-All (λ (p : ℕ × Task T). s ≤ p.0) t v l (ground arith) h.0,
          emplace-Sorted t v l h.1,
        ))

  pub length-emplace :
      (t : ℕ) (v : Task T) (l : List (ℕ × Task T)) → length (emplace t v l) ≡ suc (length l)
  unfolding emplace
  length-emplace t v [] = refl
  length-emplace t v ((s, w) ∷ l) =
      if_both (λ (z : List (ℕ × Task T)). length z ≡ suc (suc (length l))) (ltb t s) refl
        (ap suc (length-emplace t v l))

  pub emplace_all-All {κ} :
      (P : ℕ × Task T → Type κ) (l tasks : List (ℕ × Task T))
      → All P l
      → All P tasks
      → All P (emplace_all l tasks)
  unfolding emplace_all
  emplace_all-All P [] tasks hl ht = ht
  emplace_all-All P ((t, v) ∷ l) tasks hl ht =
      emplace_all-All P l (emplace t v tasks) hl.1 (emplace-All P t v tasks hl.0 ht)

  pub emplace_all-Sorted :
      (l tasks : List (ℕ × Task T)) → Sorted tasks → Sorted (emplace_all l tasks)
  unfolding emplace_all
  emplace_all-Sorted [] tasks h = h
  emplace_all-Sorted ((t, v) ∷ l) tasks h =
      emplace_all-Sorted l (emplace t v tasks) (emplace-Sorted t v tasks h)

  pub length-emplace_all :
      (l tasks : List (ℕ × Task T)) → length (emplace_all l tasks) ≡ length l + length tasks
  unfolding emplace_all
  length-emplace_all [] tasks = omega arith
  length-emplace_all ((t, v) ∷ l) tasks =
      length-emplace_all l (emplace t v tasks) ∙ omega (arith, length-emplace t v tasks)

  -- The entries of a map, without regard to their order.
  pub emplace-Perm :
      (t : ℕ) (v : Task T) (l : List (ℕ × Task T)) → Perm (emplace t v l) ((t, v) ∷ l)
  unfolding emplace
  emplace-Perm t v [] = Perm.refl ((t, v) ∷ [])
  emplace-Perm t v ((s, w) ∷ l) =
      if_both (λ (z : List (ℕ × Task T)). Perm z ((t, v) ∷ (s, w) ∷ l)) (ltb t s)
        (Perm.refl ((t, v) ∷ (s, w) ∷ l))
        (Perm.trans (Perm.cons (s, w) (emplace-Perm t v l)) (Perm.swap (t, v) (s, w) l))

  pub emplace_all-Perm : (a l : List (ℕ × Task T)) → Perm (emplace_all a l) (l ++ a)
  unfolding emplace_all
  emplace_all-Perm [] l = subst (λ z. Perm l z) (sym (append-nil l)) (Perm.refl l)
  emplace_all-Perm ((t, v) ∷ a) l =
      Perm.trans (emplace_all-Perm a (emplace t v l))
        (Perm.trans (Perm.append_right a (emplace-Perm t v l)) (Perm.symm (perm_middle l a)))
