-- ===== src/Conf/Scan.antt =====
-- The scanner on words without blanks.
use mathlib.Core.List.{reverse-append, reverse-reverse, reverse-cons}
use handy_copy.Slice.{is_space, skip_spaces}
use handy_copy.Slice.Split.{NoByte}
use handy_copy.Slice.Words.{NoSpaces}
use handy_copy.Conf.{rstrip, span_till, span_value}
use handy_copy.Base.{
  ==_iff, All, Bytes, [], ap, false, refl, ℕ, ◌++◌, ◌==◌, ◌||◌, ◌∷◌, ◌≡◌, All-append, reverse, true,
  ◌∙◌, Bool, arith,
}

pub skip_spaces_solid : (s : Bytes) (c : ℕ) → is_space c ≡ false → skip_spaces (c ∷ s) ≡ c ∷ s
unfolding skip_spaces
skip_spaces_solid s c h = rw h refl

pub skip_spaces-NoSpaces : (s : Bytes) → NoSpaces s → skip_spaces s ≡ s
unfolding skip_spaces
skip_spaces-NoSpaces [] h = refl
skip_spaces-NoSpaces (c ∷ s) h = skip_spaces_solid s c h.0

pub span_till_found : (c : ℕ) (w r : Bytes) → NoByte c w → span_till c (w ++ c ∷ r) ≡ (w, c ∷ r)
unfolding span_till
span_till_found c [] r h = rw ((==_iff c c).1 refl) refl
span_till_found c (x ∷ w) r h =
    rw (h.0, span_till) (ap (λ p. (x ∷ p.0, p.1)) (span_till_found c w r h.1))

-- No comment starts in the value.
abbrev pub NoComment : Bytes → Type 0
NoComment = All (λ c. (c == b';' || c == b'#') ≡ false)

NoSpaces-reverse : (s : Bytes) → NoSpaces s → NoSpaces (reverse s)
NoSpaces-reverse [] h = tt
NoSpaces-reverse (c ∷ s) h =
    rw (reverse-cons c s) (All-append _ (reverse s) (c ∷ []) (NoSpaces-reverse s h.1) (h.0, tt))

pub rstrip-NoSpaces : (w : Bytes) → NoSpaces w → rstrip w ≡ w
unfolding rstrip
rstrip-NoSpaces w h =
    ap reverse (skip_spaces-NoSpaces (reverse w) (NoSpaces-reverse w h)) ∙ reverse-reverse w

-- One blank at the end.
pub rstrip_blank : (w : Bytes) (c : ℕ) → NoSpaces w → is_space c ≡ true → rstrip (w ++ c ∷ []) ≡ w
unfolding rstrip skip_spaces
rstrip_blank w c h b =
    ap (λ t. reverse (skip_spaces t)) (reverse-append w (c ∷ []))
    ∙ rw (b, skip_spaces) (rstrip-NoSpaces w h)

or_false_last : (a b : Bool) → (a || b) ≡ false → (a || b || false) ≡ false
or_false_last a b h = ground arith

or_true_last : (a b : Bool) → (a || b || true) ≡ true
or_true_last a b = ground arith

blank_no_comment : (c : ℕ) → is_space c ≡ true → (c == b';' || c == b'#') ≡ false
unfolding is_space
blank_no_comment c h = ground arith

stopped : (t : Bytes) → span_value true t ≡ ([], t)
unfolding span_value
stopped [] = refl
stopped (x ∷ t) = rw (or_true_last (x == b';') (x == b'#')) refl

-- The value ends behind the first blank.
pub span_value_blank :
    (v t : Bytes) (c : ℕ)
    → NoSpaces v
    → NoComment v
    → is_space c ≡ true
    → span_value false (v ++ c ∷ t) ≡ (v ++ c ∷ [], t)
unfolding span_value
span_value_blank [] t c h n b =
    rw (or_false_last _ _ (blank_no_comment c b), b, span_value)
      (ap (λ p. (c ∷ p.0, p.1)) (stopped t))
span_value_blank (x ∷ v) t c h n b =
    rw (or_false_last _ _ n.0, h.0, span_value)
      (ap (λ p. (x ∷ p.0, p.1)) (span_value_blank v t c h.1 n.1 b))
