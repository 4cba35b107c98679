-- ===== src/Http/Resume.antt =====
-- Decoding a message whose bytes come in two parts.
use handy_copy.Http.{
  HttpMsg, Result, complete, not_complete, error, continue_100, get_header, HeaderMap,
}
use handy_copy.Http.Decode.{
  Decoding, Outcome, Lines, after_lines, after_scan, end_of, header_lines, returned, scan,
  take_body, take_header, thrown, try_decode_msg, with_headers, parsed, bad,
}
use handy_copy.Http.Scan.{scan-append, scan_within, scan_found, scan_resume}
use handy_copy.Http.Lines.{Fits, header_lines-Fits, length-eat_line}
use handy_copy.Slice.{Slice, eat_line}
use handy_copy.Base.{
  Bool, Bool-cases, Bytes, Option, [], ap, arith, drop, drop-drop, drop_all, drop_within, false,
  inl, inr, leb, leb→le, length, none, refl, some, sym, true, ℕ, ◌++◌, ◌-◌, ◌==◌, ◌∙◌, ◌≡◌,
  if_is_false, if_is_true, some_eq, subst, suc, zero, ◌+◌, ◌≤◌, append_assoc, ap₂, codes,
  if◌then◌else◌, length-append, length-drop, length-take, ltb, not, take, take_within, ◌%◌, ◌&&◌,
  ◌^◌,
}

abbrev pub decoded : Outcome → Option Decoding
decoded (returned d) = some d
decoded thrown = none
decoded Outcome.out_of_fuel = none

-- What a decoding of the first part `a`, which was not the whole message, leaves for the second one.
pub data Resumed (m : HttpMsg) (a b : Bytes) (copy : Bool) (d : Decoding) : Type 0 where
  -- The header lines are not all there.
  scanning :
      d.line1 ≡ []
      → d.buf ≡ a
      → try_decode_msg d.msg (a ++ b) copy ≡ try_decode_msg m (a ++ b) copy
      → Resumed m a b copy d
  -- A part of the body is missing.
  waiting :
      (d.msg.content_len == 0) ≡ false
      → d.msg.completed ≡ false
      → try_decode_msg m (a ++ b) copy ≡ take_body copy d.msg d.line1 (d.buf ++ b)
      → Resumed m a b copy d

try_fresh :
    (m : HttpMsg) (buf : Bytes) (copy : Bool)
    → m.completed ≡ false
    → (m.content_len == 0) ≡ true
    → try_decode_msg m buf copy ≡ after_scan copy m buf (scan (drop m.scanned buf) m.scanned)
unfolding try_decode_msg
try_fresh m buf copy c z = if_is_false m.completed _ _ c ∙ if_is_true (m.content_len == 0) _ _ z

pub try_waiting :
    (m : HttpMsg) (buf : Bytes) (copy : Bool)
    → m.completed ≡ false
    → (m.content_len == 0) ≡ false
    → try_decode_msg m buf copy ≡ take_body copy m [] buf
unfolding try_decode_msg
try_waiting m buf copy c z = if_is_false m.completed _ _ c ∙ if_is_false (m.content_len == 0) _ _ z

-- `scanned_` is set by the scan, whatever it was.
after_scan_scanned :
    (copy : Bool) (m : HttpMsg) (n : ℕ) (buf : Bytes) (p : ℕ × Bool)
    → after_scan copy (record m { scanned = n }) buf p ≡ after_scan copy m buf p
unfolding after_scan
after_scan_scanned copy m n buf p = refl

-- The scan of both parts goes on where that of the first part stopped.
scan_both :
    (a b : Bytes) (s n : ℕ)
    → scan (drop s a) s ≡ (n, false)
    → scan (drop s (a ++ b)) s ≡ scan (drop n (a ++ b)) n
unfolding scan
scan_both a b s n h = elim (Bool-cases (leb s (length a))) [
  | inl fits ↦
      let (lo, hi) = scan_within (drop s a) s n false h in
      ap (λ t. scan t s) (drop_within s a b (leb→le s (length a) fits))
      ∙ scan_resume (drop s a) b s n h
      ∙ ap (λ t. scan (drop (n - s) t) n) (sym (drop_within s a b (leb→le s (length a) fits)))
      ∙ ap (λ t. scan t n) (drop-drop s (n - s) (a ++ b) ∙ ap (λ i. drop i (a ++ b)) (omega arith))
  | inr past ↦
      let e = ap (λ p. p.0) (ap (λ t. scan t s) (sym (drop_all s a (ground arith))) ∙ h) in
      ap (λ i. scan (drop i (a ++ b)) i) e
]

-- A decoding that stopped before the header lines.
scanned_again :
    (m : HttpMsg) (a b : Bytes) (copy : Bool) (n : ℕ)
    → m.completed ≡ false
    → (m.content_len == 0) ≡ true
    → scan (drop m.scanned (a ++ b)) m.scanned ≡ scan (drop n (a ++ b)) n
    → try_decode_msg (record m { scanned = n }) (a ++ b) copy ≡ try_decode_msg m (a ++ b) copy
scanned_again m a b copy n c z q =
    try_fresh (record m { scanned = n }) (a ++ b) copy c z
    ∙ after_scan_scanned copy m n (a ++ b) (scan (drop n (a ++ b)) n)
    ∙ ap (after_scan copy m (a ++ b)) (sym q)
    ∙ sym (try_fresh m (a ++ b) copy c z)

unfoldable pub result_of : Outcome → Result
result_of (returned d) = d.result
result_of thrown = error
result_of Outcome.out_of_fuel = error

complete_waits : complete ≡ not_complete → ⊥
complete_waits e = cc e

continue_waits : continue_100 ≡ not_complete → ⊥
continue_waits e = cc e

not_expected :
    (e l : ℕ) (expects : Bool) → leb e l ≡ false → (ltb l e && expects) ≡ false → expects ≡ false
not_expected e l expects missing stays = ground arith

pub error_waits : error ≡ not_complete → ⊥
error_waits e = cc e

and_false_right : (a : Bool) {b : Bool} → b ≡ false → (a && b) ≡ false
and_false_right a {b} e = ground arith

body_there :
    (copy : Bool) (m : HttpMsg) (line1 buf : Bytes) (d : Decoding) (long : Bool) (m1 : HttpMsg)
    → (if long
        then thrown
        else returned (record { result = complete; msg = m1; line1 = line1; buf = buf }))
      ≡ returned d
    → d.result ≡ not_complete
    → ⊥
unfolding result_of
body_there copy m line1 buf d true m1 e r = cc e
body_there copy m line1 buf d false m1 e r = complete_waits (ap result_of e ∙ r)

-- What `take_body` says of a body of which a part is missing.
body_waits :
    (copy : Bool) (m : HttpMsg) (line1 buf : Bytes) (d : Decoding)
    → take_body copy m line1 buf ≡ returned d
    → d.result ≡ not_complete
    → (leb (end_of m) (length buf) ≡ false)
      × (record { result = not_complete; msg = m; line1 = line1; buf = buf } ≡ d)
unfolding take_body result_of
body_waits copy m line1 buf d e r = elim (Bool-cases (leb (end_of m) (length buf))) [
  | inl there ↦ absurd (body_there copy m line1 buf d _ _ (sym (if_is_true _ _ _ there) ∙ e) r)
  | inr missing ↦ (missing, some_eq _ _ (ap decoded (sym (if_is_false _ _ _ missing) ∙ e)))
]

-- What is said behind the header lines, where `expects` is the test on "Expect".
parsed_waits :
    (copy : Bool) (m : HttpMsg) (line1 buf : Bytes) (expects : Bool) (d : Decoding)
    → (if ltb (length buf) (end_of m) && expects
        then returned (record { result = continue_100; msg = m; line1 = line1; buf = buf })
        else take_body copy m line1 buf)
      ≡ returned d
    → d.result ≡ not_complete
    → (leb (end_of m) (length buf) ≡ false)
      × (expects ≡ false)
      × (record { result = not_complete; msg = m; line1 = line1; buf = buf } ≡ d)
unfolding result_of
parsed_waits copy m line1 buf expects d e r =
    elim (Bool-cases (ltb (length buf) (end_of m) && expects)) [
      | inl goes ↦ absurd (continue_waits (ap result_of (sym (if_is_true _ _ _ goes) ∙ e) ∙ r))
      | inr stays ↦
          let (missing, same) =
            body_waits copy m line1 buf d (sym (if_is_false _ _ _ stays) ∙ e) r in
          (missing, not_expected (end_of m) (length buf) expects missing stays, same)
    ]

-- A message whose end is not there has a body.
content_waits :
    (content scanned size : ℕ)
    → leb ((content + scanned) % 2 ^ 64) size ≡ false
    → scanned ≤ size
    → (content == 0) ≡ false
content_waits content scanned size missing within = elim (Bool-cases (content == 0)) [
  | inl none_left ↦ absurd (ground arith)
  | inr some_left ↦ some_left
]

-- One that found the header lines.
resumed_lines :
    (m : HttpMsg) (b : Bytes) (copy : Bool) (line1 rest whole : Bytes) (l : Lines) (d : Decoding)
    → after_lines copy m line1 rest l ≡ returned d
    → d.result ≡ not_complete
    → Fits (length whole) l
    → m.scanned + 4 ≤ length line1 + length whole + length rest
    → m.completed ≡ false
    → ((d.msg.content_len == 0) ≡ false)
      × (d.msg.completed ≡ false)
      × (after_lines copy m line1 (rest ++ b) l ≡ take_body copy d.msg d.line1 (d.buf ++ b))
unfolding after_lines result_of
resumed_lines m b copy line1 rest whole (parsed h text) d e r fits within c =
    let m1 = with_headers m h in
    let buf = line1 ++ text ++ rest in
    let expects = not (length (get_header h (codes "Expect")) == 0) in
    let (missing, no_expect, same) = parsed_waits copy m1 line1 buf expects d e r in
    subst
      (λ (z : Decoding).
        ((z.msg.content_len == 0) ≡ false)
        × (z.msg.completed ≡ false)
        × (after_lines copy m line1 (rest ++ b) (parsed h text)
            ≡ take_body copy z.msg z.line1 (z.buf ++ b)))
      same
      (
        content_waits m1.content_len m1.scanned (length buf) missing (
            omega
              (arith, within, fits, length-append (line1 ++ text) rest, length-append line1 text)),
        c,
        if_is_false _ _ _ (and_false_right _ no_expect)
            ∙ ap (take_body copy m1 line1) (sym (append_assoc (line1 ++ text) rest b)),
      )
resumed_lines m b copy line1 rest whole (bad h text) d e r fits within c =
    absurd (error_waits (ap result_of e ∙ r))
resumed_lines m b copy line1 rest whole Lines.out_of_fuel d e r fits within c = absurd (cc e)

-- `take_header`, of the bytes up to the blank line and of the others.
header_of : Bool → HttpMsg → Bytes → Bytes → Outcome
header_of copy m front rest =
    after_lines copy m (eat_line front).0 rest
      (header_lines (suc (length (eat_line front).1)) m.headers [] (eat_line front).1)

take_header_lem :
    (copy : Bool) (m : HttpMsg) (a : Bytes)
    → take_header copy m a ≡ header_of copy m (take m.scanned a) (drop m.scanned a)
unfolding take_header header_of
take_header_lem copy m a = refl

header_Fits :
    (h : HeaderMap) (req : Slice) → Fits (length req) (header_lines (suc (length req)) h [] req)
header_Fits h req =
    subst (λ k. Fits k (header_lines (suc (length req)) h [] req)) {x = 0 + length req}
      (omega arith) (header_lines-Fits (suc (length req)) h [] req (omega arith))

positive : (n : ℕ) → (suc n == 0) ≡ false
positive n = ground arith

resumed_header :
    (m : HttpMsg) (a b : Bytes) (copy : Bool) (d : Decoding) (n : ℕ)
    → n + 4 ≤ length a
    → (n == 0) ≡ false
    → m.completed ≡ false
    → (m.content_len == 0) ≡ true
    → scan (drop m.scanned (a ++ b)) m.scanned ≡ (n, true)
    → take_header copy (record m { scanned = n }) a ≡ returned d
    → d.result ≡ not_complete
    → Resumed m a b copy d
unfolding header_of after_scan
resumed_header m a b copy d n fits positive c z found e r =
    let m1 = record m { scanned = n } in
    let (line1, req) = eat_line (take n a) in
    let (some_body, not_done, whole) =
      resumed_lines m1 b copy line1 (drop n a) req
        (header_lines (suc (length req)) m.headers [] req) d (sym (take_header_lem copy m1 a) ∙ e) r
        (header_Fits m.headers req)
        (omega (arith, length-eat_line (take n a), length-take n a, length-drop n a)) c in
    waiting some_body not_done (
      try_fresh m (a ++ b) copy c z
      ∙ ap (after_scan copy m (a ++ b)) found
      ∙ if_is_false _ _ _ positive
      ∙ take_header_lem copy m1 (a ++ b)
      ∙ ap₂ (header_of copy m1) (take_within n a b (omega arith)) (drop_within n a b (omega arith))
      ∙ whole)

resumed_scan :
    (m : HttpMsg) (a b : Bytes) (copy : Bool) (d : Decoding) (p : ℕ × Bool)
    → m.completed ≡ false
    → (m.content_len == 0) ≡ true
    → scan (drop m.scanned a) m.scanned ≡ p
    → after_scan copy m a p ≡ returned d
    → d.result ≡ not_complete
    → Resumed m a b copy d
unfolding after_scan
resumed_scan m a b copy d (n, false) c z q e r =
    subst (Resumed m a b copy) (some_eq _ _ (ap decoded e))
      (scanning refl refl (scanned_again m a b copy n c z (scan_both a b m.scanned n q)))
resumed_scan m a b copy d (zero, true) c z q e r =
    let (lo, hi) = scan_within (drop m.scanned a) m.scanned 0 true q in
    subst (Resumed m a b copy) (some_eq _ _ (ap decoded e)) (
      scanning refl refl (
        scanned_again m a b copy 0 c z
          (ap (λ i. scan (drop i (a ++ b)) i) {x = m.scanned} (omega arith))))
resumed_scan m a b copy d (suc n, true) c z q e r =
    let found = scan_found (drop m.scanned a) m.scanned (suc n) q in
    let (lo, hi) = scan_within (drop m.scanned a) m.scanned (suc n) true q in
    let size = length-drop m.scanned a in
    resumed_header m a b copy d (suc n) (omega arith) (positive n) c z
      (ap (λ t. scan t m.scanned) (drop_within m.scanned a b (omega arith))
        ∙ scan-append (drop m.scanned a) b m.scanned (suc n) q)
      (sym (if_is_false _ _ _ (positive n)) ∙ e) r

-- One that had the header lines before.
resumed_body :
    (m : HttpMsg) (a b : Bytes) (copy : Bool) (d : Decoding)
    → take_body copy m [] a ≡ returned d
    → d.result ≡ not_complete
    → Resumed m a b copy d
resumed_body m a b copy d e r =
    subst (Resumed m a b copy) (body_waits copy m [] a d e r).1 (scanning refl refl refl)

-- Any decoding that was not complete can be resumed.
pub resumed :
    (m : HttpMsg) (a b : Bytes) (copy : Bool) (d : Decoding)
    → m.completed ≡ false
    → try_decode_msg m a copy ≡ returned d
    → d.result ≡ not_complete
    → Resumed m a b copy d
resumed m a b copy d c e r = elim (Bool-cases (m.content_len == 0)) [
  | inl z ↦
      resumed_scan m a b copy d (scan (drop m.scanned a) m.scanned) c z refl
        (sym (try_fresh m a copy c z) ∙ e) r
  | inr z ↦ resumed_body m a b copy d (sym (try_waiting m a copy c z) ∙ e) r
]
