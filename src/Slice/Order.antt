-- ===== src/Slice/Order.antt =====
-- `compare`, `operator<` and `operator==` against the lexicographic order of byte strings.
use Prim.Native.Nat.{compare as compare_ℕ, Ordering}
use handy_copy.Base.{
  true, false, ◌≡◌, ◌↔◌, refl, sym, ap, ◌∙◌, [], ◌∷◌, ◌++◌, take, drop, arith, length, equal_iff,
  length-append, take-append, take-append-drop, drop-append, ◌-◌, Bytes,
}
use handy_copy.Slice.{Slice, compare, less, same, starts_with, end_with}

-- The dictionary order, with a proper prefix first.
pub lex : Bytes → Bytes → Ordering
lex [] [] = Ordering.eq
lex [] (y ∷ b) = Ordering.lt
lex (x ∷ a) [] = Ordering.gt
lex (x ∷ a) (y ∷ b) =
    let later = lex a b in elim (compare_ℕ x y) [ Ordering.eq ↦ later | other ↦ other ]

abbrev flip : Ordering → Ordering
flip Ordering.lt = Ordering.gt
flip Ordering.gt = Ordering.lt
flip Ordering.eq = Ordering.eq

-- `compare` is the dictionary order of the two byte strings.
pub compare-lex : (a b : Slice) → compare a b ≡ lex a b
unfolding compare lex
compare-lex [] [] = refl
compare-lex [] (y ∷ b) = ground arith
compare-lex (x ∷ a) [] = ground arith
compare-lex (x ∷ a) (y ∷ b) = ground (arith, compare-lex a b)

lex-eq : (a b : Bytes) → (lex a b ≡ Ordering.eq) ↔ (a ≡ b)
unfolding lex
lex-eq (x ∷ a) (y ∷ b) = ground (arith, lex-eq a b)
lex-eq _ _ = ground arith

lex-flip : (a b : Bytes) → lex b a ≡ flip (lex a b)
unfolding lex
lex-flip (x ∷ a) (y ∷ b) = ground (arith, lex-flip a b)
lex-flip _ _ = ground arith

lex_trans : (a b c : Bytes) → lex a b ≡ Ordering.lt → lex b c ≡ Ordering.lt → lex a c ≡ Ordering.lt
unfolding lex
lex_trans (x ∷ a) (y ∷ b) (z ∷ c) = ground (arith, lex_trans a b c)
lex_trans _ _ _ = ground arith

-- `compare` says "equal" of equal contents only, and turns round with its arguments.
pub compare_order :
    (a b : Slice) → ((compare a b ≡ Ordering.eq) ↔ (a ≡ b)) × (compare b a ≡ flip (compare a b))
compare_order a b = rw (compare-lex a b, compare-lex b a) (lex-eq a b, lex-flip a b)

less_iff : (a b : Slice) → (less a b ≡ true) ↔ (lex a b ≡ Ordering.lt)
unfolding less
less_iff a b = ground (arith, compare-lex a b)

same_refl : (a : Slice) → same a a ≡ true
unfolding same
same_refl a = ground (arith, (equal_iff a a).1 refl)

-- `operator==` holds of equal contents only.
pub same_iff : (a b : Slice) → (same a b ≡ true) ↔ (a ≡ b)
unfolding same
same_iff a b = (λ h. (equal_iff a b).0 (ground arith), λ e. rw e (same_refl b))

less_total : (a b : Slice) → less a b ≡ false → less b a ≡ false → a ≡ b
less_total a b h k = (lex-eq a b).0 (ground (arith, less_iff a b, less_iff b a, lex-flip a b))

-- `operator<` is irreflexive and transitive, and of two slices that it does not order
-- `operator==` holds: it sorts slices as the keys of a map.
pub less_order :
    (a b c : Slice)
    → (less a a ≡ false)
      × (less a b ≡ true → less b c ≡ true → less a c ≡ true)
      × (less a b ≡ false → less b a ≡ false → same a b ≡ true)
less_order a b c = (
  ground (arith, less_iff a a, (lex-eq a a).1 refl),
  λ h k. (less_iff a c).1 (lex_trans a b c ((less_iff a b).0 h) ((less_iff b c).0 k)),
  λ h k. (same_iff a b).1 (less_total a b h k),
)

-- `starts_with` holds of the prefixes of the slice.
pub starts_with_iff : (s x : Slice) → (starts_with s x ≡ true) ↔ ((rest : Slice) × (s ≡ x ++ rest))
unfolding starts_with
starts_with_iff s x = (
  λ h. (
    drop (length x) s,
    sym (take-append-drop (length x) s)
        ∙ ap (λ t. t ++ drop (length x) s) ((equal_iff (take (length x) s) x).0 (ground arith)),
  ),
  λ (rest, e).
      rw e (ground (arith, length-append x rest, take-append x rest, (equal_iff x x).1 refl)),
)

-- `end_with` holds of the suffixes of the slice.
pub end_with_iff : (s x : Slice) → (end_with s x ≡ true) ↔ ((front : Slice) × (s ≡ front ++ x))
unfolding end_with
end_with_iff s x = (
  λ h. (
    take (length s - length x) s,
    sym (take-append-drop (length s - length x) s)
        ∙ ap (λ t. take (length s - length x) s ++ t)
            ((equal_iff (drop (length s - length x) s) x).0 (ground arith)),
  ),
  λ (front, e). rw e (
      let fits : length (front ++ x) - length x ≡ length front =
        omega (arith, length-append front x) in
      rw (fits, drop-append front x)
        (ground (arith, length-append front x, (equal_iff x x).1 refl))),
)
