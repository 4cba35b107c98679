-- ===== src/Http/Scan.antt =====
-- The search for the blank line, resumed where it stopped.
use handy_copy.Http.Decode.{at_blank, scan_round, scan, blank_line}
use handy_copy.Base.{
  Bool, Bytes, [], ap, arith, drop, equal, false, leb, leb→le, length, length-append, refl, suc,
  take_within, true, ℕ, ◌&&◌, ◌++◌, ◌+◌, ◌-◌, ◌==◌, ◌∷◌, ◌≡◌, ◌≤◌, sym, ◌∙◌,
}

long_append : (s b : Bytes) → leb 4 (length s) ≡ true → leb 4 (length (s ++ b)) ≡ true
long_append s b h = ground (arith, length-append s b)

at_blank-append :
    (c : ℕ) (s b : Bytes) → leb 4 (length (c ∷ s)) ≡ true → at_blank c (s ++ b) ≡ at_blank c s
at_blank-append c s b h =
    ap (λ t. c == 13 && equal t blank_line) (take_within 4 (c ∷ s) b (leb→le 4 (length (c ∷ s)) h))

-- Why a round gave what it gave.
data Round (long blank : Bool) (n : ℕ) (later : ℕ × Bool) (k : ℕ) (f : Bool) : Type 0 where
  short : long ≡ false → k ≡ n → f ≡ false → Round long blank n later k f
  here : long ≡ true → blank ≡ true → k ≡ n → f ≡ true → Round long blank n later k f
  behind : long ≡ true → blank ≡ false → later ≡ (k, f) → Round long blank n later k f

round_lem :
    (long blank : Bool) (n : ℕ) (later : ℕ × Bool) (k : ℕ) (f : Bool)
    → scan_round long blank n later ≡ (k, f)
    → Round long blank n later k f
round_lem false blank n later k f e = short refl (sym (ap (λ p. p.0) e)) (sym (ap (λ p. p.1) e))
round_lem true true n later k f e = here refl refl (sym (ap (λ p. p.0) e)) (sym (ap (λ p. p.1) e))
round_lem true false n later k f e = behind refl refl e

scan-Round :
    (c : ℕ) (s : Bytes) (n k : ℕ) (f : Bool)
    → scan (c ∷ s) n ≡ (k, f)
    → Round (leb 4 (suc (length s))) (at_blank c s) n (scan s (suc n)) k f
unfolding scan
scan-Round c s n k f h = round_lem _ _ n (scan s (suc n)) k f h

-- What is found in a part is found in the whole.
pub scan-append : (a b : Bytes) (n k : ℕ) → scan a n ≡ (k, true) → scan (a ++ b) n ≡ (k, true)
unfolding scan
scan-append [] b n k h = absurd (cc h)
scan-append (c ∷ s) b n k h = elim (scan-Round c s n k true h) [
  | short l e f ↦ absurd (cc f)
  | here l t e f ↦
      rw (long_append (c ∷ s) b l, at_blank-append c s b l, t) (ap (λ i. (i, true)) (sym e))
  | behind l t e ↦
      rw (long_append (c ∷ s) b l, at_blank-append c s b l, t) (scan-append s b (suc n) k e)
]

-- What a scan has passed.
pub scan_within : (a : Bytes) (n k : ℕ) (f : Bool) → scan a n ≡ (k, f) → n ≤ k × k ≤ n + length a
unfolding scan
scan_within [] n k f h = let e = ap (λ p. p.0) h in (omega arith, omega arith)
scan_within (c ∷ s) n k f h = elim (scan-Round c s n k f h) [
  | short l e q ↦ (omega arith, omega arith)
  | here l t e q ↦ (omega arith, omega arith)
  | behind l t e ↦ let (lo, hi) = scan_within s (suc n) k f e in (omega arith, omega arith)
]

-- The blank line is within the bytes.
pub scan_found : (a : Bytes) (n k : ℕ) → scan a n ≡ (k, true) → k + 4 ≤ n + length a
unfolding scan
scan_found [] n k h = absurd (cc h)
scan_found (c ∷ s) n k h = elim (scan-Round c s n k true h) [
  | short l e f ↦ absurd (cc f)
  | here l t e f ↦ let fits = leb→le 4 (suc (length s)) l in omega arith
  | behind l t e ↦ let ih = scan_found s (suc n) k e in omega arith
]

-- A scan that found nothing goes on where it stopped when more bytes are there.
pub scan_resume :
    (a b : Bytes) (n k : ℕ)
    → scan a n ≡ (k, false)
    → scan (a ++ b) n ≡ scan (drop (k - n) (a ++ b)) k
unfolding scan
scan_resume [] b n k h =
    let e = ap (λ p. p.0) h in
    ap (λ i. scan b i) e ∙ ap (λ i. scan (drop i b) k) {x = 0} (omega arith)
scan_resume (c ∷ s) b n k h = elim (scan-Round c s n k false h) [
  | short l e f ↦
      ap (λ i. scan (c ∷ s ++ b) i) (sym e)
      ∙ ap (λ i. scan (drop i (c ∷ s ++ b)) k) {x = 0} (omega arith)
  | here l t e f ↦ absurd (cc f)
  | behind l t e ↦
      let (lo, hi) = scan_within s (suc n) k false e in
      rw (long_append (c ∷ s) b l, at_blank-append c s b l, t)
        (scan_resume s b (suc n) k e
          ∙ ap (λ i. scan (drop i (c ∷ s ++ b)) k) {x = suc (k - suc n)} (omega arith))
]
