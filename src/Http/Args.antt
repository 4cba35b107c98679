-- ===== src/Http/Args.antt =====
-- The query of a request: its loop ends, and reads back the arguments that were written.
use handy_copy.Http.Headers.{HeaderMap, assign}
use handy_copy.Http.Request.{one_arg, parse_args, skip_char, span_till_any}
use handy_copy.Base.{
  All, Bytes, List, [], ap, arith, false, if_is_false, if_is_true, length, refl, some, suc, true,
  zero, ℕ, ◌++◌, ◌+◌, ◌==◌, ◌||◌, ◌∙◌, ◌∷◌, ◌≡◌, ◌≤◌, if_both, if_cases, length-append, subst, sym,
}

-- Neither of two bytes is there.
abbrev pub NoneOf : ℕ → ℕ → Bytes → Type 0
NoneOf a b = All (λ c. (c == a || c == b) ≡ false)

span_till_any_all : (a b : ℕ) (w : Bytes) → NoneOf a b w → span_till_any a b w ≡ (w, [])
unfolding span_till_any
span_till_any_all a b [] h = refl
span_till_any_all a b (c ∷ w) h =
    if_is_false _ _ _ h.0 ∙ ap (λ p. (c ∷ p.0, p.1)) (span_till_any_all a b w h.1)

span_till_any_found :
    (a b : ℕ) (w r : Bytes) (c : ℕ)
    → NoneOf a b w
    → (c == a || c == b) ≡ true
    → span_till_any a b (w ++ c ∷ r) ≡ (w, c ∷ r)
unfolding span_till_any
span_till_any_found a b [] r c h t = if_is_true _ _ _ t
span_till_any_found a b (x ∷ w) r c h t =
    if_is_false _ _ _ h.0 ∙ ap (λ p. (x ∷ p.0, p.1)) (span_till_any_found a b w r c h.1 t)

length-span_till_any :
    (a b : ℕ) (s : Bytes)
    → length (span_till_any a b s).0 + length (span_till_any a b s).1 ≡ length s
unfolding span_till_any
length-span_till_any a b [] = omega arith
length-span_till_any a b (c ∷ s) =
    if_both (λ (p : Bytes × Bytes). length p.0 + length p.1 ≡ suc (length s)) (c == a || c == b)
      (omega arith) (omega (arith, length-span_till_any a b s))

length-skip_char : (c : ℕ) (s : Bytes) → length (skip_char c s) ≤ length s
length-skip_char c [] = omega arith
length-skip_char c (d ∷ s) =
    if_both (λ t. length t ≤ suc (length s)) (d == c) (omega arith) (omega arith)

abbrev behind_value : Bytes → Bytes
behind_value s = skip_char b'&' (span_till_any b'&' b'&' s).1

length-behind_value : (s : Bytes) → length (behind_value s) ≤ length s
length-behind_value s =
    omega
      (arith, length-span_till_any b'&' b'&' s, length-skip_char b'&' (span_till_any b'&' b'&' s).1)

-- An '&' at the start is passed.
length-behind_amp :
    (c : ℕ) (qs : Bytes) → (c == b'&') ≡ true → length (behind_value (c ∷ qs)) ≤ length qs
length-behind_amp c qs e =
    subst (λ (p : Bytes × Bytes). length (skip_char b'&' p.1) ≤ length qs)
      (sym (span_till_any_found b'&' b'&' [] qs c tt (ground arith)))
      (subst (λ t. length t ≤ length qs) (sym (if_is_true (c == b'&') qs (c ∷ qs) e)) (omega arith))

behind_key :
    (c : ℕ) (qs : Bytes)
    → (c == b'=' || c == b'&') ≡ true
    → length (behind_value (skip_char b'=' (c ∷ qs))) ≤ length qs
behind_key c qs t =
    if_cases (λ z. length (behind_value z) ≤ length qs) (c == b'=') (λ e. length-behind_value qs)
      (λ n. length-behind_amp c qs (ground arith))

-- A round of the loop passes a byte.
one_arg_shorter :
    (args : HeaderMap) (c : ℕ) (qs : Bytes) → length (one_arg args (c ∷ qs)).1 ≤ length qs
unfolding one_arg span_till_any
one_arg_shorter args c qs =
    let s = (span_till_any b'=' b'&' qs).1 in
    if_cases (λ (p : Bytes × Bytes). length (behind_value (skip_char b'=' p.1)) ≤ length qs)
      (c == b'=' || c == b'&') (behind_key c qs)
      (λ n. omega (
        arith,
        length-behind_value (skip_char b'=' s),
        length-skip_char b'=' s,
        length-span_till_any b'=' b'&' qs,
      ))

-- The loop ends, on as much fuel as the query has bytes.
pub parse_args_ends :
    (n : ℕ) (args : HeaderMap) (qs : Bytes)
    → length qs ≤ n
    → (found : HeaderMap) × (parse_args n args qs ≡ some found)
unfolding parse_args
parse_args_ends n args [] l = (args, refl)
parse_args_ends zero args (c ∷ qs) l = absurd (omega arith)
parse_args_ends (suc n) args (c ∷ qs) l =
    let (more, rest) = one_arg args (c ∷ qs) in
    parse_args_ends n more rest (omega (arith, one_arg_shorter args c qs))

-- The text of arguments, with '&' between them, and the map with them.
abbrev pub render_args : List (Bytes × Bytes) → Bytes
render_args [] = []
render_args ((k, v) ∷ []) = k ++ b'=' ∷ v
render_args ((k, v) ∷ p ∷ l) = k ++ b'=' ∷ (v ++ b'&' ∷ render_args (p ∷ l))

abbrev pub store_args : HeaderMap → List (Bytes × Bytes) → HeaderMap
store_args args [] = args
store_args args ((k, v) ∷ l) = store_args (assign k v args) l

-- A key that is not empty and has no '=' and no '&', and a value that has no '&'.
abbrev pub GoodArgs : List (Bytes × Bytes) → Type 0
GoodArgs = All (λ (p : Bytes × Bytes).
    ((length p.0 == 0) ≡ false) × NoneOf b'=' b'&' p.0 × NoneOf b'&' b'&' p.1)

one_arg_last :
    (args : HeaderMap) (k v : Bytes)
    → (length k == 0) ≡ false
    → NoneOf b'=' b'&' k
    → NoneOf b'&' b'&' v
    → one_arg args (k ++ b'=' ∷ v) ≡ (assign k v args, [])
unfolding one_arg
one_arg_last args k v long hk hv =
    rw (span_till_any_found b'=' b'&' k v b'=' hk refl)
      (rw (span_till_any_all b'&' b'&' v hv) (ap (λ z. (z, [])) (if_is_false _ _ _ long)))

one_arg_more :
    (args : HeaderMap) (k v r : Bytes)
    → (length k == 0) ≡ false
    → NoneOf b'=' b'&' k
    → NoneOf b'&' b'&' v
    → one_arg args (k ++ b'=' ∷ (v ++ b'&' ∷ r)) ≡ (assign k v args, r)
unfolding one_arg
one_arg_more args k v r long hk hv =
    rw (span_till_any_found b'=' b'&' k (v ++ b'&' ∷ r) b'=' hk refl) (
      rw (span_till_any_found b'&' b'&' v r b'&' hv refl)
        (ap (λ z. (z, r)) (if_is_false _ _ _ long)))

parse_round :
    (n : ℕ) (args more : HeaderMap) (k s rest : Bytes)
    → (length k == 0) ≡ false
    → one_arg args (k ++ s) ≡ (more, rest)
    → parse_args (suc n) args (k ++ s) ≡ parse_args n more rest
unfolding parse_args
parse_round n args more [] s rest long e = absurd (cc long)
parse_round n args more (c ∷ k) s rest long e =
    ap (λ (p : HeaderMap × Bytes). parse_args n p.0 p.1) e

parse_none : (n : ℕ) (args : HeaderMap) → parse_args n args [] ≡ some args
unfolding parse_args
parse_none n args = refl

-- The query of good arguments gives the map in which they were stored in order, so that of two
-- with one key the last one counts.
pub parse_args-render_args :
    (n : ℕ) (args : HeaderMap) (l : List (Bytes × Bytes))
    → GoodArgs l
    → length (render_args l) ≤ n
    → parse_args n args (render_args l) ≡ some (store_args args l)
parse_args-render_args n args [] g fits = parse_none n args
parse_args-render_args zero args ((k, v) ∷ []) g fits =
    absurd (omega (arith, length-append k (b'=' ∷ v)))
parse_args-render_args (suc n) args ((k, v) ∷ []) (g, gs) fits =
    parse_round n args (assign k v args) k (b'=' ∷ v) [] g.0 (one_arg_last args k v g.0 g.1 g.2)
    ∙ parse_none n (assign k v args)
parse_args-render_args zero args ((k, v) ∷ p ∷ l) g fits =
    absurd (omega (arith, length-append k (b'=' ∷ (v ++ b'&' ∷ render_args (p ∷ l)))))
parse_args-render_args (suc n) args ((k, v) ∷ p ∷ l) (g, gs) fits =
    let r = render_args (p ∷ l) in
    parse_round n args (assign k v args) k (b'=' ∷ (v ++ b'&' ∷ r)) r g.0
      (one_arg_more args k v r g.0 g.1 g.2)
    ∙ parse_args-render_args n (assign k v args) (p ∷ l) gs
        (omega (arith, fits, length-append k (b'=' ∷ (v ++ b'&' ∷ r)), length-append v (b'&' ∷ r)))
