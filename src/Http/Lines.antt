-- ===== src/Http/Lines.antt =====
-- The loop on the header lines: its fuel, and the length of the text.
use handy_copy.Http.Decode.{
  Line, Lines, header_line, header_lines, lowered, stored, bad_line, last_line, parsed, bad,
  line_kind,
}
use handy_copy.Http.Headers.{HeaderMap}
use handy_copy.Slice.{trim_space, Slice, eat_word, eat_line}
use handy_copy.Slice.Words.{eat_word-WordOf, eat_line_pieces}
use handy_copy.Conf.{tolower}
use handy_copy.Base.{
  Bytes, [], ap, length, map, refl, suc, ℕ, ◌+◌, ◌∷◌, ◌≡◌, arith, length-append, length-take, sym,
  take, zero, ◌++◌, ◌-◌, ◌<◌, ◌∙◌, subst, ◌≤◌, Bool, false, true, ◌&&◌, ◌==◌,
}

pub length-map : (f : ℕ → ℕ) (s : Bytes) → length (map f s) ≡ length s
length-map f [] = refl
length-map f (c ∷ s) = ap suc (length-map f s)

length-parts :
    (ln k r : Slice) → length k + length r ≤ length ln → length (lowered ln k r) ≡ length ln
length-parts ln k r fits =
    let n = length ln - (length k + length r) in
    length-append (take n ln ++ map tolower k) r
    ∙ omega
        (arith, length-append (take n ln) (map tolower k), length-map tolower k, length-take n ln)

-- The key stands in the line.
length-lowered : (ln : Slice) → length (lowered ln (eat_word ln).0 (eat_word ln).1) ≡ length ln
length-lowered ln =
    let w = eat_word-WordOf ln in
    length-parts ln (eat_word ln).0 (eat_word ln).1 (
      omega (
        arith,
        ap length w.splits,
        length-append w.blanks ((eat_word ln).0 ++ (eat_word ln).1),
        length-append (eat_word ln).0 (eat_word ln).1,
      ))

pub length-eat_line : (s : Slice) → length (eat_line s).0 + length (eat_line s).1 ≡ length s
length-eat_line s =
    sym (ap length (eat_line_pieces s).0 ∙ length-append (eat_line s).0 (eat_line s).1)

text_of : Line → Bytes
text_of (stored h text) = text
text_of Line.last_line = []
text_of Line.bad_line = []

kind_text :
    (a b : Bool) (h h1 : HeaderMap) (t text : Bytes) → line_kind a b h t ≡ stored h1 text → t ≡ text
unfolding text_of
kind_text true b h h1 t text e = ap text_of e
kind_text false true h h1 t text e = absurd (cc e)
kind_text false false h h1 t text e = absurd (cc e)

kind_last : (a b : Bool) (h : HeaderMap) (t : Bytes) → line_kind a b h t ≡ Line.last_line → b ≡ true
kind_last true b h t e = absurd (cc e)
kind_last false true h t e = refl
kind_last false false h t e = absurd (cc e)

-- A line that is stored keeps its length, and the empty line stands at the end.
stored_length :
    (h : HeaderMap) (ln req : Slice) (h1 : HeaderMap) (text : Bytes)
    → header_line h ln req ≡ stored h1 text
    → length text ≡ length ln
unfolding header_line
stored_length h ln req h1 text e = ap length (sym (kind_text _ _ _ h1 _ text e)) ∙ length-lowered ln

last_is_zero : (a b : Bool) (n : ℕ) → (a && b && n == 0) ≡ true → n ≡ 0
last_is_zero a b n e = ground arith

last_rest :
    (h : HeaderMap) (ln req : Slice) → header_line h ln req ≡ Line.last_line → length req ≡ 0
unfolding header_line
last_rest h ln req e =
    last_is_zero (length (eat_word ln).0 == 0) (length (trim_space (eat_word ln).1) == 0)
      (length req) (kind_last _ _ _ _ e)

-- A text of a length, and fuel that is not used up.
abbrev pub Fits : ℕ → Lines → Type 0
Fits n (parsed h text) = length text ≡ n
Fits n (bad h text) = Unit
Fits n Lines.out_of_fuel = ⊥

follow :
    (n : ℕ) (h : HeaderMap) (done : Bytes) (c d : ℕ) (ln rest : Slice) (o : Line)
    → ((h1 : HeaderMap) (text : Bytes)
        → Fits
            (length (done ++ c ∷ d ∷ text) + length rest)
            (header_lines n h1 (done ++ c ∷ d ∷ text) rest))
    → header_line h ln rest ≡ o
    → Fits (length done + suc (suc (length ln + length rest))) (elim o [
      | stored h1 text ↦ header_lines n h1 (done ++ c ∷ d ∷ text) rest
      | last_line ↦ parsed h (done ++ c ∷ d ∷ ln)
      | bad_line ↦ bad h (done ++ c ∷ d ∷ ln ++ rest)
    ])
follow n h done c d ln rest (stored h1 text) ih e =
    let same = stored_length h ln rest h1 text e in
    subst (λ k. Fits k (header_lines n h1 (done ++ c ∷ d ∷ text) rest))
      (omega (arith, length-append done (c ∷ d ∷ text))) (ih h1 text)
follow n h done c d ln rest Line.last_line ih e =
    omega (arith, length-append done (c ∷ d ∷ ln), last_rest h ln rest e)
follow n h done c d ln rest Line.bad_line ih e = tt

-- Fuel above the length of the lines is enough, and the text is as long as the lines are.
pub header_lines-Fits :
    (n : ℕ) (h : HeaderMap) (done : Bytes) (req : Slice)
    → length req < n
    → Fits (length done + length req) (header_lines n h done req)
unfolding header_lines
header_lines-Fits zero h done req l = absurd (omega arith)
header_lines-Fits (suc n) h done [] l = omega arith
header_lines-Fits (suc n) h done (c ∷ []) l = tt
header_lines-Fits (suc n) h done (c ∷ d ∷ req) l =
    let (ln, rest) = eat_line req in
    subst (λ k. Fits (length done + suc (suc k)) (header_lines (suc n) h done (c ∷ d ∷ req)))
      (length-eat_line req)
      (follow n h done c d ln rest (header_line h ln rest)
        (λ h1 text.
          header_lines-Fits n h1 (done ++ c ∷ d ∷ text) rest (omega (arith, length-eat_line req)))
        refl)
