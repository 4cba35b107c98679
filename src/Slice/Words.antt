-- ===== src/Slice/Words.antt =====
-- `eatWord`, `eatLine` and `trimSpace` against a description of the pieces that they cut.
use handy_copy.Base.{
  true, false, ◌≡◌, refl, sym, ap, ◌↔◌, subst, ◌∙◌, [], ◌∷◌, ◌++◌, reverse, arith, Bool-cases, inl,
  inr, All, All-append,
}
use mathlib.Core.List.{reverse-append, reverse-reverse, reverse-cons}
use handy_copy.Slice.{
  Slice, is_space, skip_spaces, span_word, eat_word, is_line_end, eat_line, trim_space,
}

abbrev pub Spaces : Slice → Type 0
Spaces = All (λ c. is_space c ≡ true)

abbrev pub NoSpaces : Slice → Type 0
NoSpaces = All (λ c. is_space c ≡ false)

-- The first byte, if there is one, is not a space (is a space).
abbrev pub StartsSolid : Slice → Type 0
StartsSolid [] = Unit
StartsSolid (c ∷ s) = is_space c ≡ false

abbrev pub StartsBlank : Slice → Type 0
StartsBlank [] = Unit
StartsBlank (c ∷ s) = is_space c ≡ true

-- `s` is blanks, and then `rest`, which does not start with a blank.
pub record Skipped (s rest : Slice) : Type 0 where
  pub blanks : Slice
  pub splits : s ≡ blanks ++ rest
  pub are_spaces : Spaces blanks
  pub solid : StartsSolid rest

pub skip_spaces-Skipped : (s : Slice) → Skipped s (skip_spaces s)
unfolding skip_spaces
skip_spaces-Skipped [] = record { blanks = []; splits = refl; are_spaces = tt; solid = tt }
skip_spaces-Skipped (c ∷ s) = elim (Bool-cases (is_space c)) [
  | inl e ↦
      let ih = skip_spaces-Skipped s in
      rw e (record {
        blanks = c ∷ ih.blanks;
        splits = ap (◌∷◌ c) ih.splits;
        are_spaces = (e, ih.are_spaces);
        solid = ih.solid;
      })
  | inr e ↦ rw e (record { blanks = []; splits = refl; are_spaces = tt; solid = e })
]

span_word-splits : (s : Slice) → s ≡ (span_word s).0 ++ (span_word s).1
unfolding span_word
span_word-splits [] = refl
span_word-splits (c ∷ s) = ground (arith, span_word-splits s)

span_word-NoSpaces : (s : Slice) → NoSpaces (span_word s).0
unfolding span_word
span_word-NoSpaces [] = tt
span_word-NoSpaces (c ∷ s) = ground (arith, span_word-NoSpaces s)

span_word-StartsBlank : (s : Slice) → StartsBlank (span_word s).1
unfolding span_word
span_word-StartsBlank [] = tt
span_word-StartsBlank (c ∷ s) = ground (arith, span_word-StartsBlank s)

-- `s` is blanks, the word, and then `rest`, which is empty or starts with a blank.
pub record WordOf (s word rest : Slice) : Type 0 where
  pub blanks : Slice
  pub splits : s ≡ blanks ++ (word ++ rest)
  pub are_spaces : Spaces blanks
  pub in_word : NoSpaces word
  pub ends : StartsBlank rest
  pub started : StartsSolid (word ++ rest)

-- `eatWord` returns the first word, and leaves what stands behind it.
pub eat_word-WordOf : (s : Slice) → WordOf s (eat_word s).0 (eat_word s).1
unfolding eat_word
eat_word-WordOf s =
    let skipped = skip_spaces-Skipped s in
    let rejoin = span_word-splits (skip_spaces s) in
    record {
      blanks = skipped.blanks;
      splits = skipped.splits ∙ ap (λ t. skipped.blanks ++ t) rejoin;
      are_spaces = skipped.are_spaces;
      in_word = span_word-NoSpaces (skip_spaces s);
      ends = span_word-StartsBlank (skip_spaces s);
      started = subst StartsSolid rejoin skipped.solid;
    }

skip_blanks :
    (blanks rest : Slice) → Spaces blanks → StartsSolid rest → skip_spaces (blanks ++ rest) ≡ rest
unfolding skip_spaces
skip_blanks [] [] h solid = refl
skip_blanks [] (c ∷ rest) h solid = rw solid
skip_blanks (c ∷ blanks) rest h solid = rw h.0 (skip_blanks blanks rest h.1 solid)

span_word-append :
    (word rest : Slice) → NoSpaces word → StartsBlank rest → span_word (word ++ rest) ≡ (word, rest)
unfolding span_word
span_word-append [] [] h b = refl
span_word-append [] (c ∷ rest) h b = rw b
span_word-append (c ∷ word) rest h b = ground (arith, span_word-append word rest h.1 b)

-- The description determines the pieces: there is no other way to cut the first word off.
pub eat_word_unique : {s word rest : Slice} → WordOf s word rest → eat_word s ≡ (word, rest)
unfolding eat_word
eat_word_unique {s} {word} {rest} w = rw w.splits (
    rw (skip_blanks w.blanks (word ++ rest) w.are_spaces w.started)
      (span_word-append word rest w.in_word w.ends))

-- `eatWord` returns `word` and leaves `rest` exactly when `word` is the first run of bytes that are
-- no spaces, and `rest` is all that stands behind it.
pub eat_word_iff : (s word rest : Slice) → (eat_word s ≡ (word, rest)) ↔ WordOf s word rest
eat_word_iff s word rest = (
  λ e. subst (λ (p : Slice × Slice). WordOf s p.0 p.1) e (eat_word-WordOf s),
  λ w. eat_word_unique w,
)

abbrev pub NoLineEnds : Slice → Type 0
NoLineEnds = All (λ c. is_line_end c ≡ false)

abbrev pub StartsLineEnd : Slice → Type 0
StartsLineEnd [] = Unit
StartsLineEnd (c ∷ s) = is_line_end c ≡ true

pub eat_line-append :
    (line rest : Slice)
    → NoLineEnds line
    → StartsLineEnd rest
    → eat_line (line ++ rest) ≡ (line, rest)
unfolding eat_line
eat_line-append [] [] h b = refl
eat_line-append [] (c ∷ rest) h b = rw b
eat_line-append (c ∷ line) rest h b = ground (arith, eat_line-append line rest h.1 b)

-- `eatLine` cuts the slice before its first `\n` or `\r`, and loses no byte.
pub eat_line_pieces :
    (s : Slice)
    → (s ≡ (eat_line s).0 ++ (eat_line s).1)
      × NoLineEnds (eat_line s).0
      × StartsLineEnd (eat_line s).1
unfolding eat_line
eat_line_pieces [] = (refl, tt, tt)
eat_line_pieces (c ∷ s) = ground (arith, eat_line_pieces s)

Spaces-reverse : (s : Slice) → Spaces s → Spaces (reverse s)
Spaces-reverse [] h = tt
Spaces-reverse (c ∷ s) h =
    rw (reverse-cons c s) (All-append _ (reverse s) (c ∷ []) (Spaces-reverse s h.1) (h.0, tt))

-- `kept` is `s` without the blanks at its two ends.
pub record Trimmed (s kept : Slice) : Type 0 where
  pub before : Slice
  pub after : Slice
  pub splits : s ≡ before ++ (kept ++ after)
  pub before_spaces : Spaces before
  pub after_spaces : Spaces after
  pub solid_ends : StartsSolid kept × StartsSolid (reverse kept)

StartsSolid-append : (s t : Slice) → StartsSolid (s ++ t) → StartsSolid s
StartsSolid-append [] t h = tt
StartsSolid-append (c ∷ s) t h = h

-- `trimSpace` takes away the blanks at both ends, and nothing else.
pub trim_space-Trimmed : (s : Slice) → Trimmed s (trim_space s)
unfolding trim_space
trim_space-Trimmed s =
    let front = skip_spaces-Skipped s in
    let t = skip_spaces s in
    let back = skip_spaces-Skipped (reverse t) in
    let kept = reverse (skip_spaces (reverse t)) in
    let rejoin : t ≡ kept ++ reverse back.blanks =
      sym (reverse-reverse t)
      ∙ ap reverse back.splits
      ∙ reverse-append back.blanks (skip_spaces (reverse t)) in
    record {
      before = front.blanks;
      after = reverse back.blanks;
      splits = front.splits ∙ ap (λ u. front.blanks ++ u) rejoin;
      before_spaces = front.are_spaces;
      after_spaces = Spaces-reverse back.blanks back.are_spaces;
      solid_ends = (
        StartsSolid-append kept (reverse back.blanks) (subst StartsSolid rejoin front.solid),
        rw (reverse-reverse (skip_spaces (reverse t))) back.solid,
      );
    }
