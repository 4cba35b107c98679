-- ===== src/Idle/Aged.antt =====
-- The order of the nodes of a list of `idleConns_`: by their times.
use mathlib.Core.Option
use handy_copy.Idle.{
  Idles, IdleNode, Op, push_at, unlink, register, change_at, run_op, touch, register_idle,
  unregister_idle, update_idle, call_idles, unregister, with_lists, update, expire_all, run_ops,
}
use handy_copy.Base.{
  All, List, Option, [], arith, if_both, none, some, ℕ, ◌++◌, ◌/◌, ◌==◌, ◌∷◌, ◌≤◌, ltb,
}

-- The times of the nodes go up, and are up to a time.
abbrev pub From : ℕ → List IdleNode → Type 0
From t = All (λ (n : IdleNode). t ≤ n.updated)

abbrev pub AgedList : ℕ → List IdleNode → Type 0
AgedList t [] = Unit
AgedList t (n ∷ l) = (n.updated ≤ t) × From n.updated l × AgedList t l

abbrev pub AgedAt : ℕ → ℕ × List IdleNode → Type 0
AgedAt t p = (1 ≤ p.0) × AgedList t p.1

-- So it is in every list, and every list is for at least a second.
abbrev pub Aged : ℕ → Idles → Type 0
Aged t i = All (AgedAt t) i.lists

-- A predicate on what is there.
abbrev pub InOption {ℓ κ} : {A : Type ℓ} → (A → Type κ) → Option A → Type κ
InOption P none = Unit
InOption P (some a) = P a

-- Times that go on from a time, in seconds, at which connections are registered for a second or more.
abbrev pub Allowed : Op → Type 0
Allowed (register idle con cb) = 1 ≤ idle
Allowed o = Unit

abbrev pub InTime : ℕ → List (ℕ × Op) → Type 0
InTime t [] = Unit
InTime t ((now, o) ∷ os) = (t ≤ now / 1000) × Allowed o × InTime (now / 1000) os

abbrev pub last_time : ℕ → List (ℕ × Op) → ℕ
last_time t [] = t
last_time t ((now, o) ∷ os) = last_time (now / 1000) os

InOption-map :
    {A B : Type 0} (P : A → Type 0) (Q : B → Type 0) (f : A → B) (o : Option A)
    → ((a : A) → P a → Q (f a))
    → InOption P o
    → InOption Q (Option.map f o)
InOption-map P Q f none h p = tt
InOption-map P Q f (some a) h p = h a p

InOption-bind :
    {A B : Type 0} (P : A → Type 0) (Q : B → Type 0) (o : Option A) (f : A → Option B)
    → ((a : A) → P a → InOption Q (f a))
    → InOption P o
    → InOption Q (Option.bind o f)
unfolding Option.bind
InOption-bind P Q none f h p = tt
InOption-bind P Q (some a) f h p = h a p

AgedList-later : (s t : ℕ) (l : List IdleNode) → s ≤ t → AgedList s l → AgedList t l
AgedList-later s t [] h a = tt
AgedList-later s t (n ∷ l) h a = (omega (arith, h, a.0), a.1, AgedList-later s t l h a.2)

From-last :
    (s : ℕ) (n : IdleNode) (l : List IdleNode) → s ≤ n.updated → From s l → From s (l ++ n ∷ [])
From-last s n [] h f = (h, tt)
From-last s n (m ∷ l) h f = (f.0, From-last s n l h f.1)

-- A node with a later time stands at the end.
AgedList-last :
    (t : ℕ) (n : IdleNode) (l : List IdleNode)
    → t ≤ n.updated
    → AgedList t l
    → AgedList n.updated (l ++ n ∷ [])
AgedList-last t n [] h a = (omega arith, tt, tt)
AgedList-last t n (m ∷ l) h a = (
  omega (arith, h, a.0),
  From-last m.updated n l (omega (arith, h, a.0)) a.1,
  AgedList-last t n l h a.2,
)

lists-later : (s t : ℕ) (m : List (ℕ × List IdleNode)) → s ≤ t → All (AgedAt s) m → All (AgedAt t) m
lists-later s t [] h a = tt
lists-later s t (p ∷ m) h a = ((a.0.0, AgedList-later s t p.1 h a.0.1), lists-later s t m h a.1)

push_at-Aged :
    (t k : ℕ) (n : IdleNode) (m : List (ℕ × List IdleNode))
    → 1 ≤ k
    → t ≤ n.updated
    → All (AgedAt t) m
    → All (AgedAt n.updated) (push_at k n m)
unfolding push_at
push_at-Aged t k n [] p h a = ((p, (omega arith, tt, tt)), tt)
push_at-Aged t k n ((j, l) ∷ m) p h a =
    let others = lists-later t n.updated m h a.1 in
    if_both (All (AgedAt n.updated)) (ltb k j)
      ((p, (omega arith, tt, tt)), ((a.0.0, AgedList-later t n.updated l h a.0.1), others))
      (if_both (All (AgedAt n.updated)) (k == j) ((a.0.0, AgedList-last t n l h a.0.1), others)
        ((a.0.0, AgedList-later t n.updated l h a.0.1), push_at-Aged t k n m p h a.1))

unlink-From : (s i : ℕ) (l : List IdleNode) → From s l → InOption (From s) (unlink i l)
unfolding unlink
unlink-From s i [] f = tt
unlink-From s i (n ∷ l) f = if_both (InOption (From s)) (n.iter == i) f.1 (
    InOption-map (From s) (From s) (λ z. n ∷ z) (unlink i l) (λ z g. (f.0, g))
      (unlink-From s i l f.1))

-- A node before a list that may be there.
join :
    (t : ℕ) (n : IdleNode) (o : Option (List IdleNode))
    → n.updated ≤ t
    → InOption (From n.updated) o
    → InOption (AgedList t) o
    → InOption (AgedList t) (Option.map (λ z. n ∷ z) o)
join t n none h f a = tt
join t n (some l) h f a = (h, f, a)

abbrev Any : List (ℕ × ℕ) → Type 0
Any cs = Unit

anything : (o : Option (List (ℕ × ℕ))) → InOption Any o
anything none = tt
anything (some cs) = tt

unlink-Aged : (t i : ℕ) (l : List IdleNode) → AgedList t l → InOption (AgedList t) (unlink i l)
unfolding unlink
unlink-Aged t i [] a = tt
unlink-Aged t i (n ∷ l) a =
    if_both (InOption (AgedList t)) (n.iter == i) a.2
      (join t n (unlink i l) a.0 (unlink-From n.updated i l a.1) (unlink-Aged t i l a.2))

touch-From :
    (s i now : ℕ) (l : List IdleNode) → s ≤ now → From s l → InOption (From s) (touch i now l)
unfolding touch
touch-From s i now [] h f = tt
touch-From s i now (n ∷ l) h f =
    if_both (InOption (From s)) (n.iter == i) (From-last s (record n { updated = now }) l h f.1) (
      InOption-map (From s) (From s) (λ z. n ∷ z) (touch i now l) (λ z g. (f.0, g))
        (touch-From s i now l h f.1))

touch-Aged :
    (t i now : ℕ) (l : List IdleNode)
    → t ≤ now
    → AgedList t l
    → InOption (AgedList now) (touch i now l)
unfolding touch
touch-Aged t i now [] h a = tt
touch-Aged t i now (n ∷ l) h a =
    if_both (InOption (AgedList now)) (n.iter == i)
      (AgedList-last t (record n { updated = now }) l h a.2)
      (join now n (touch i now l) (omega (arith, h, a.0))
        (touch-From n.updated i now l (omega (arith, h, a.0)) a.1) (touch-Aged t i now l h a.2))

change_at-Aged :
    (s t k : ℕ) (f : List IdleNode → Option (List IdleNode)) (m : List (ℕ × List IdleNode))
    → s ≤ t
    → ((l : List IdleNode) → AgedList s l → InOption (AgedList t) (f l))
    → All (AgedAt s) m
    → InOption (All (AgedAt t)) (change_at k f m)
unfolding change_at
change_at-Aged s t k f [] h g a = tt
change_at-Aged s t k f ((j, l) ∷ m) h g a =
    if_both (InOption (All (AgedAt t))) (k == j)
      (InOption-map (AgedList t) (All (AgedAt t)) (λ z. (j, z) ∷ m) (f l)
        (λ z b. ((a.0.0, b), lists-later s t m h a.1)) (g l a.0.1))
      (InOption-map (All (AgedAt t)) (All (AgedAt t)) (λ z. (j, l) ∷ z) (change_at k f m)
        (λ z b. ((a.0.0, AgedList-later s t l h a.0.1), b)) (change_at-Aged s t k f m h g a.1))

run_op-Aged :
    (t now : ℕ) (o : Op) (i : Idles)
    → t ≤ now / 1000
    → Allowed o
    → Aged t i
    → InOption (Aged (now / 1000)) (run_op now o i)
unfolding run_op register_idle unregister_idle update_idle call_idles
run_op-Aged t now (register idle con cb) i h p a =
    push_at-Aged t idle (record { iter = i.next_iter; con = con; updated = now / 1000; cb = cb })
      i.lists p h a
run_op-Aged t now (unregister (k, it)) i h p a =
    InOption-map (All (AgedAt (now / 1000))) (Aged (now / 1000)) (with_lists i)
      (change_at k (unlink it) i.lists) (λ m b. b)
      (change_at-Aged (now / 1000) (now / 1000) k (unlink it) i.lists (omega arith)
        (unlink-Aged (now / 1000) it) (lists-later t (now / 1000) i.lists h a))
run_op-Aged t now (update (k, it)) i h p a =
    InOption-map (All (AgedAt (now / 1000))) (Aged (now / 1000)) (with_lists i)
      (change_at k (touch it (now / 1000)) i.lists) (λ m b. b)
      (change_at-Aged t (now / 1000) k (touch it (now / 1000)) i.lists h
        (λ l. touch-Aged t it (now / 1000) l h) a)
run_op-Aged t now Op.tick i h p a =
    InOption-map Any (Aged (now / 1000)) (λ cs. record i { calls = i.calls ++ cs })
      (expire_all (now / 1000) i.lists) (λ cs b. lists-later t (now / 1000) i.lists h a)
      (anything (expire_all (now / 1000) i.lists))

-- Operations at times that go up, with connections that are registered for a second or more, if all
-- of them run, keep each list in the order of the times at which its connections were last active,
-- none of which is later than the last operation; `callIdles` relies on it when it stops at the
-- first node that is not due.
pub run_ops-Aged :
    (t : ℕ) (os : List (ℕ × Op)) (i : Idles)
    → InTime t os
    → Aged t i
    → InOption (Aged (last_time t os)) (run_ops os i)
unfolding run_ops
run_ops-Aged t [] i h a = a
run_ops-Aged t ((now, o) ∷ os) i (h, p, hs) a =
    InOption-bind (Aged (now / 1000)) (Aged (last_time (now / 1000) os)) (run_op now o i)
      (run_ops os) (λ j b. run_ops-Aged (now / 1000) os j hs b) (run_op-Aged t now o i h p a)
