-- ===== src/Conf/Errors.antt =====
-- Which line `parse` reports, and how keys are compared.
use handy_copy.Conf.{
  Values, parse_lines, parse_line, Parser, tolower, make_key, get_strings, strings_of, find,
}
use handy_copy.Base.{
  Bool, Bool-cases, Bytes, List, [], ap, ap₂, arith, false, if◌then◌else◌, inl, inr, length, map,
  refl, subst, sym, true, ℕ, ◌++◌, ◌+◌, ◌∙◌, ◌∷◌, ◌≡◌, ◌⊎◌,
}

-- Lines that are read one after the other, from one state of the parser to another, without an error.
pub data AllRead : List Bytes → Parser → Parser → Type 0 where
  none_left : {p : Parser} → AllRead [] p p
  read_line :
      {ln : Bytes} {lines : List Bytes} {p q : Parser}
      → (parse_line ln p).err ≡ false
      → AllRead lines (parse_line ln p) q
      → AllRead (ln ∷ lines) p q

-- The first line with an error: the lines before it are read, and it is not.
pub record FirstBad (lineno : ℕ) (lines : List Bytes) (p : Parser) (r : ℕ × Parser) : Type 0 where
  pub before : List Bytes
  pub bad : Bytes
  pub after : List Bytes
  pub at_bad : Parser
  pub parts : lines ≡ before ++ bad ∷ after
  pub number : r.0 ≡ lineno + length before + 1
  pub read : AllRead before p at_bad
  pub not_read : (parse_line bad at_bad).err ≡ true
  pub state : r.1 ≡ parse_line bad at_bad

-- One round of the loop, by whether the line had an error.
stopped_at :
    (ln : Bytes) (lines : List Bytes) (lineno : ℕ) (p : Parser) (b : Bool)
    → (parse_line ln p).err ≡ b
    → parse_lines lineno (ln ∷ lines) p ≡ (
        if b
        then (lineno + 1, parse_line ln p)
        else parse_lines (lineno + 1) lines (parse_line ln p))
unfolding parse_lines
stopped_at ln lines lineno p b h =
    ap
      (λ x.
        if x
        then (lineno + 1, parse_line ln p)
        else parse_lines (lineno + 1) lines (parse_line ln p))
      h

-- A line more in front.
later-FirstBad :
    (ln : Bytes) (lines : List Bytes) (lineno : ℕ) (p : Parser) (r : ℕ × Parser)
    → (parse_line ln p).err ≡ false
    → FirstBad (lineno + 1) lines (parse_line ln p) r
    → FirstBad lineno (ln ∷ lines) p r
later-FirstBad ln lines lineno p r good f = record {
  before = ln ∷ f.before;
  bad = f.bad;
  after = f.after;
  at_bad = f.at_bad;
  parts = ap (λ t. ln ∷ t) f.parts;
  number = f.number ∙ omega arith;
  read = read_line good f.read;
  not_read = f.not_read;
  state = f.state;
}

-- The loop of `parse`, which has read `lineno` lines before, either returns 0, and then every line
-- is read without an error, one after the other, up to the state that the parser is left in; or it
-- returns the number of the first line that sets `err`: all lines before that one are read without an
-- error, and what the parser holds is what that line left.
pub parse_lines_lem :
    (lineno : ℕ) (lines : List Bytes) (p : Parser)
    → (((parse_lines lineno lines p).0 ≡ 0) × AllRead lines p (parse_lines lineno lines p).1)
      ⊎ FirstBad lineno lines p (parse_lines lineno lines p)
unfolding parse_lines
parse_lines_lem lineno [] p = inl (refl, none_left)
parse_lines_lem lineno (ln ∷ lines) p = elim (Bool-cases (parse_line ln p).err) [
  | inl bad ↦ inr (
      subst (FirstBad lineno (ln ∷ lines) p) (sym (stopped_at ln lines lineno p true bad)) (record {
        before = [];
        bad = ln;
        after = lines;
        at_bad = p;
        parts = refl;
        number = omega arith;
        read = none_left;
        not_read = bad;
        state = refl;
      }))
  | inr good ↦
      let same = stopped_at ln lines lineno p false good in
      elim (parse_lines_lem (lineno + 1) lines (parse_line ln p)) [
        | inl (zero_returned, all) ↦ inl (
          ap (λ (q : ℕ × Parser). q.0) same ∙ zero_returned,
          subst (AllRead (ln ∷ lines) p) (sym (ap (λ (q : ℕ × Parser). q.1) same))
              (read_line good all),
        )
        | inr f ↦ inr (
            later-FirstBad ln lines lineno p (parse_lines lineno (ln ∷ lines) p) good
              (subst (FirstBad (lineno + 1) lines (parse_line ln p)) (sym same) f))
      ]
]

tolower_twice : (c : ℕ) → tolower (tolower c) ≡ tolower c
tolower_twice c = ground arith

lower_twice : (s : Bytes) → map tolower (map tolower s) ≡ map tolower s
lower_twice [] = refl
lower_twice (c ∷ s) = ap₂ (λ x t. x ∷ t) (tolower_twice c) (lower_twice s)

lower-append : (s t : Bytes) → map tolower (s ++ t) ≡ map tolower s ++ map tolower t
lower-append [] t = refl
lower-append (c ∷ s) t = ap (λ u. tolower c ∷ u) (lower-append s t)

make_key-lower :
    (section name : Bytes)
    → make_key (map tolower section) (map tolower name) ≡ make_key section name
unfolding make_key
make_key-lower section name =
    lower-append (map tolower section) (b'.' ∷ map tolower name)
    ∙ ap₂ (λ s t. s ++ b'.' ∷ t) (lower_twice section) (lower_twice name)
    ∙ sym (lower-append section (b'.' ∷ name))

-- Sections and names that differ in the case of their letters only have the same values.
pub get_strings-lower :
    (values : Values) (section name section' name' : Bytes)
    → map tolower section ≡ map tolower section'
    → map tolower name ≡ map tolower name'
    → get_strings values section name ≡ get_strings values section' name'
unfolding get_strings
get_strings-lower values section name section' name' same same' =
    ap (λ k. strings_of (find k values))
      (sym (make_key-lower section name) ∙ ap₂ make_key same same' ∙ make_key-lower section' name')
