-- ===== src/Idle/Calls.antt =====
-- The callbacks that `callIdles` calls.
use mathlib.Core.Option
use handy_copy.Idle.Aged.{Aged, AgedList, AgedAt, From}
use handy_copy.Idle.{Idles, IdleNode, call_idles, expire, expire_all, call_of, then_calls}
use handy_copy.Base.{
  All, List, [], ap, append-nil, append_assoc, arith, if_cases, if_is_false, if_is_true,
  if◌then◌else◌, leb, length, ltb, ltb→lt, none, refl, some, suc, sym, zero, ℕ, ◌++◌, ◌+◌, ◌/◌, ◌<◌,
  ◌∙◌, ◌∷◌, ◌≡◌, ◌≤◌,
}

-- The calls for the nodes that have been idle for so long, wherever they stand in the list.
abbrev pub due_of : ℕ → ℕ → List IdleNode → List (ℕ × ℕ)
due_of now idle [] = []
due_of now idle (n ∷ l) =
    if leb (n.updated + idle) now then call_of n ∷ due_of now idle l else due_of now idle l

abbrev pub all_due : ℕ → List (ℕ × List IdleNode) → List (ℕ × ℕ)
all_due now [] = []
all_due now ((k, l) ∷ m) = due_of now k l ++ all_due now m

none_due : (now idle u : ℕ) (l : List IdleNode) → now < u + idle → From u l → due_of now idle l ≡ []
none_due now idle u [] h f = refl
none_due now idle u (n ∷ l) h f =
    if_is_false (leb (n.updated + idle) now) (call_of n ∷ due_of now idle l) (due_of now idle l)
      (ground arith)
    ∙ none_due now idle u l h f.1

abbrev Fresh : ℕ → List IdleNode → Type 0
Fresh now = All (λ (n : IdleNode). n.updated ≡ now)

Fresh-last :
    (now : ℕ) (n : IdleNode) (l : List IdleNode)
    → n.updated ≡ now
    → Fresh now l
    → Fresh now (l ++ n ∷ [])
Fresh-last now n [] e f = (e, tt)
Fresh-last now n (m ∷ l) e f = (f.0, Fresh-last now n l e f.1)

-- A list, behind which stand the nodes that were called.
expire-due_of :
    (now idle t fuel : ℕ) (l fresh : List IdleNode)
    → 1 ≤ idle
    → suc (length l) ≤ fuel
    → AgedList t l
    → Fresh now fresh
    → expire fuel now idle (l ++ fresh) ≡ some (due_of now idle l)
unfolding expire
expire-due_of now idle t zero l fresh p h a f = absurd (omega (arith, h))
expire-due_of now idle t (suc fuel) [] [] p h a f = refl
expire-due_of now idle t (suc fuel) [] (n ∷ fresh) p h a f =
    if_is_true (ltb now (n.updated + idle)) (some [])
      (Option.map (λ z. call_of n ∷ z)
        (expire fuel now idle (fresh ++ record n { updated = now } ∷ [])))
      (ground arith)
expire-due_of now idle t (suc fuel) (n ∷ l) fresh p h a f =
    let again = record n { updated = now } in
    if_cases (λ z. z ≡ some (due_of now idle (n ∷ l))) (ltb now (n.updated + idle))
      (λ e. ap some (
        sym (
          none_due now idle n.updated (n ∷ l) (ltb→lt now (n.updated + idle) e)
            (omega arith, a.1))))
      (λ e.
        ap (λ z. Option.map (λ cs. call_of n ∷ cs) (expire fuel now idle z))
          (append_assoc l fresh (again ∷ []))
        ∙ ap (Option.map (λ cs. call_of n ∷ cs)) (
            expire-due_of now idle t fuel l (fresh ++ again ∷ []) p (omega (arith, h)) a.2
              (Fresh-last now again fresh refl f))
        ∙ ap some (
            sym (
              if_is_true (leb (n.updated + idle) now) (call_of n ∷ due_of now idle l)
                (due_of now idle l) (ground arith))))

expire_all-all_due :
    (now t : ℕ) (m : List (ℕ × List IdleNode))
    → All (AgedAt t) m
    → expire_all now m ≡ some (all_due now m)
unfolding expire_all Option.bind
expire_all-all_due now t [] a = refl
expire_all-all_due now t ((k, l) ∷ m) a =
    ap (λ z. Option.bind z (λ cs. then_calls cs (expire_all now m)))
      (ap (expire (suc (length l)) now k) (sym (append-nil l))
        ∙ expire-due_of now k t (suc (length l)) l [] a.0.0 (omega arith) a.0.1 tt)
    ∙ ap (then_calls (due_of now k l)) (expire_all-all_due now t m a.1)

-- With lists that are in the order of the times, each for a second or more, `callIdles` ends: it
-- calls once, list by list and in the order of a list, the callback of every node that has been
-- idle for the seconds of its list, and no other. The nodes keep their times and places, since the
-- loop is on a copy.
pub call_idles-all_due :
    (now t : ℕ) (i : Idles)
    → Aged t i
    → call_idles now i ≡ some (record i { calls = i.calls ++ all_due (now / 1000) i.lists })
unfolding call_idles
call_idles-all_due now t i a =
    ap (Option.map (λ cs. record i { calls = i.calls ++ cs }))
      (expire_all-all_due (now / 1000) t i.lists a)

abbrev pub UpTo : ℕ → List IdleNode → Type 0
UpTo now = All (λ (n : IdleNode). n.updated ≤ now)

UpTo-last :
    (now : ℕ) (n : IdleNode) (l : List IdleNode)
    → n.updated ≤ now
    → UpTo now l
    → UpTo now (l ++ n ∷ [])
UpTo-last now n [] e f = (e, tt)
UpTo-last now n (m ∷ l) e f = (f.0, UpTo-last now n l e f.1)

-- With an `idle` of 0 seconds the loop of `callIdles` does not end, whatever the fuel, when a
-- connection is in the list and no time in it is still to come.
pub expire-zero :
    (fuel now : ℕ) (n : IdleNode) (l : List IdleNode)
    → UpTo now (n ∷ l)
    → expire fuel now 0 (n ∷ l) ≡ none
unfolding expire
expire-zero zero now n l h = refl
expire-zero (suc fuel) now n [] h =
    if_is_false (ltb now (n.updated + 0)) (some [])
      (Option.map (λ cs. call_of n ∷ cs) (expire fuel now 0 (record n { updated = now } ∷ [])))
      (ground arith)
    ∙ ap (Option.map (λ cs. call_of n ∷ cs))
        (expire-zero fuel now (record n { updated = now }) [] (omega arith, tt))
expire-zero (suc fuel) now n (m ∷ l) h =
    let again = record n { updated = now } in
    if_is_false (ltb now (n.updated + 0)) (some [])
      (Option.map (λ cs. call_of n ∷ cs) (expire fuel now 0 (m ∷ l ++ again ∷ []))) (ground arith)
    ∙ ap (Option.map (λ cs. call_of n ∷ cs)) (
        expire-zero fuel now m (l ++ again ∷ []) (h.1.0, UpTo-last now again l (omega arith) h.1.1))
