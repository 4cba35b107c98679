-- ===== src/Poller/Active.antt =====
-- The entries of `activeEvs_`, and what `removeChannel` does to them.
use handy_copy.Poller.{Event, points_to, null_at, clear_below, is_ptr}
use handy_copy.Base.{
  Bool, List, false, get_elem?, true, ℕ, ◌<◌, ◌≡◌, ◌≢◌, [], ap, arith, refl, suc, zero, ◌∷◌, ==_iff,
  Bool-cases, Option, false_of, if_both, if_cases, inl, inr, none, some, sym, ◌==◌, ◌∙◌,
}

-- The entry at `i` holds the pointer `c`.
abbrev pub at : ℕ → List Event → ℕ → Bool
at c evs i = points_to c (get_elem? evs i)

-- No pointer stands twice below `n`.
abbrev pub Once : ℕ → List Event → Type 0
Once n evs = (c i j : ℕ) → i < n → j < n → at c evs i ≡ true → at c evs j ≡ true → i ≡ j

abbrev pub Absent : ℕ → ℕ → List Event → Type 0
Absent c n evs = (i : ℕ) → i < n → at c evs i ≡ false

bools_differ : false ≡ true → ⊥
bools_differ e = cc e

-- A pointer that is there after an entry became null was there, in another entry.
at-null_at :
    (c i j : ℕ) (evs : List Event) → at c (null_at evs i) j ≡ true → (at c evs j ≡ true) × (j ≢ i)
at-null_at c i j [] h = absurd (cc h)
at-null_at c zero zero (e ∷ evs) h = absurd (cc h)
at-null_at c zero (suc j) (e ∷ evs) h = (h, ground arith)
at-null_at c (suc i) zero (e ∷ evs) h = (h, ground arith)
at-null_at c (suc i) (suc j) (e ∷ evs) h =
    let (there, other) = at-null_at c i j evs h in (there, λ q. other (omega arith))

-- The other entries stay.
null_at-keeps : (c i j : ℕ) (evs : List Event) → j ≢ i → at c (null_at evs i) j ≡ at c evs j
null_at-keeps c i j [] h = refl
null_at-keeps c zero zero (e ∷ evs) h = absurd (h refl)
null_at-keeps c zero (suc j) (e ∷ evs) h = refl
null_at-keeps c (suc i) zero (e ∷ evs) h = refl
null_at-keeps c (suc i) (suc j) (e ∷ evs) h = null_at-keeps c i j evs (λ q. h (ap suc q))

-- The loop of `removeChannel` puts no pointer into an entry.
pub at-clear_below :
    (c d n j : ℕ) (evs : List Event) → at c (clear_below d n evs) j ≡ true → at c evs j ≡ true
unfolding clear_below
at-clear_below c d zero j evs h = h
at-clear_below c d (suc n) j evs h =
    if_both (λ v. at c v j ≡ true → at c evs j ≡ true) (at d evs n)
      (λ t. (at-null_at c n j evs t).0) (at-clear_below c d n j evs) h

-- It takes the only entry with the pointer.
pub clear_below-Absent :
    (c n : ℕ) (evs : List Event) → Once n evs → Absent c n (clear_below c n evs)
unfolding clear_below
clear_below-Absent c zero evs h i l = absurd (omega arith)
clear_below-Absent c (suc n) evs h i l =
    if_cases (λ v. at c v i ≡ false) (at c evs n)
      (λ t. false_of _ (λ a.
        let (there, other) = at-null_at c n i evs a in other (h c i n l (omega arith) there t)))
      (λ f. elim (Bool-cases (i == n)) [
        | inl e ↦ false_of _ (λ a.
            bools_differ
              (sym f ∙ ap (at c evs) (sym ((==_iff i n).0 e)) ∙ at-clear_below c c n i evs a))
        | inr e ↦
            clear_below-Absent c n evs (λ d x y lx ly. h d x y (omega arith) (omega arith)) i
              (ground arith)
      ])

same_ptr : (c d : ℕ) (o : Option ℕ) → is_ptr c o ≡ true → is_ptr d o ≡ true → c ≡ d
same_ptr c d none h k = absurd (cc h)
same_ptr c d (some e) h k = (==_iff c e).0 h ∙ sym ((==_iff d e).0 k)

pub same_pointer :
    (c d : ℕ) (o : Option Event) → points_to c o ≡ true → points_to d o ≡ true → c ≡ d
same_pointer c d none h k = absurd (cc h)
same_pointer c d (some e) h k = same_ptr c d e.ptr h k

-- The entries of other pointers stay.
pub clear_below-keeps :
    (c d n j : ℕ) (evs : List Event)
    → c ≢ d
    → at c evs j ≡ true
    → at c (clear_below d n evs) j ≡ true
unfolding clear_below
clear_below-keeps c d zero j evs n h = h
clear_below-keeps c d (suc k) j evs n h =
    if_cases (λ v. at c v j ≡ true) (at d evs k)
      (λ t.
        null_at-keeps c k j evs
          (λ q. n (same_pointer c d (get_elem? evs j) h (ap (at d evs) q ∙ t)))
        ∙ h)
      (λ f. clear_below-keeps c d k j evs n h)
