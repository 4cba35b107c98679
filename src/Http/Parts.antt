-- ===== src/Http/Parts.antt =====
-- A request whose bytes come in parts is decoded as if they had come at once.
use handy_copy.Http.{HttpMsg, Result, not_complete, HeaderMap, complete}
use handy_copy.Http.Decode.{
  Decoding, Outcome, returned, take_body, thrown, try_decode_msg, with_body, end_of, max_size,
}
use handy_copy.Http.Request.{
  HttpRequest, RequestDecoding, RequestOutcome, decode_request, read_line, read_outcome, with_line,
  with_query, cut_query, is_bad_uri, finish_request, parse_args, with_args,
}
use handy_copy.Http.Resume.{Resumed, resumed, try_waiting, scanning, waiting, error_waits}
use handy_copy.Slice.{Slice, eat_word}
use handy_copy.Base.{
  Bytes, Option, ap, none, refl, some, some_eq, ◌≡◌, Bool, [], false, length, ◌==◌, drop,
  if_is_false, if◌then◌else◌, leb, ltb, sym, take, true, ◌++◌, ◌∙◌, ==_iff, Bool-cases, if_is_true,
  inl, inr, nil_of_length, ap₂,
}

-- The request of an outcome, its result and its buffer.
got_of : RequestOutcome → Option RequestDecoding
got_of (RequestOutcome.got d) = some d
got_of RequestOutcome.failed = none
got_of RequestOutcome.out_of_fuel = none

-- A request is read into the message of the decoding, whatever its own one was.
read_base :
    (r : HttpRequest) (m : HttpMsg) (o : Outcome)
    → read_outcome (record r { base = m }) o ≡ read_outcome r o
unfolding read_outcome
read_base r m (returned d) = refl
read_base r m thrown = refl
read_base r m Outcome.out_of_fuel = refl

args_base :
    (r r3 : HttpRequest) (m : HttpMsg) (front : Bytes) (o : Option HeaderMap)
    → with_args r front o ≡ some r3
    → (with_args (record r { base = m }) front o ≡ some (record r3 { base = m }))
      × (r.base ≡ r3.base)
args_base r r3 m front none e = absurd (cc e)
args_base r r3 m front (some args) e =
    let q = some_eq _ _ e in
    (ap (λ (z : HttpRequest). some (record z { base = m })) q, ap (λ z. z.base) q)

-- The query is read into any request in the same way, and its message stays.
query_base :
    (r r3 : HttpRequest) (m : HttpMsg) (p : Bytes × Option Bytes)
    → with_query r p ≡ some r3
    → (with_query (record r { base = m }) p ≡ some (record r3 { base = m })) × (r.base ≡ r3.base)
unfolding with_query
query_base r r3 m (front, none) e =
    let q = some_eq _ _ e in
    (ap (λ (z : HttpRequest). some (record z { base = m })) q, ap (λ z. z.base) q)
query_base r r3 m (front, some qs) e = args_base r r3 m front (parse_args (length qs) r.args qs) e

-- The version that the first line gives.
abbrev line_version : Slice → Bytes
line_version line1 = (eat_word (eat_word (eat_word line1).1).1).0

abbrev versioned : Slice → HttpMsg → HttpMsg
versioned line1 m = record m { version = line_version line1 }

-- The request behind its first line, and the first line was good.
abbrev lined : HttpRequest → HttpMsg → Slice → HttpRequest
lined r m ln = with_line (record r { base = m }) ln

record Good (r r3 : HttpRequest) (m : HttpMsg) (ln : Slice) : Type 0 where
  long : (length ln == 0) ≡ false
  slash : is_bad_uri (lined r m ln).query_uri ≡ false
  query : with_query (lined r m ln) (cut_query (lined r m ln).query_uri) ≡ some r3

read_line-Good :
    (r r3 : HttpRequest) (m m1 : HttpMsg) (ln : Slice) (res : Result) (buf : Bytes)
    → Good r r3 m ln
    → read_line r (record { result = res; msg = m1; line1 = ln; buf = buf })
      ≡ RequestOutcome.got
          (record { result = res; request = record r3 { base = versioned ln m1 }; buf = buf })
unfolding read_line finish_request
read_line-Good r r3 m m1 ln res buf g =
    if_is_false _ _ _ g.long
    ∙ if_is_false _ _ _ g.slash
    ∙ ap (finish_request res buf)
        (query_base (lined r m ln) r3 (versioned ln m1) (cut_query (lined r m ln).query_uri)
          g.query).0

versioned_body :
    (copy : Bool) (m : HttpMsg) (ln : Slice) (body : Bytes)
    → with_body copy (versioned ln m) body ≡ versioned ln (with_body copy m body)
versioned_body true m ln body = refl
versioned_body false m ln body = refl

outcome_versioned :
    (r r3 : HttpRequest) (m mc mv : HttpMsg) (ln : Slice) (buf : Bytes) (there big : Bool)
    → Good r r3 m ln
    → mv ≡ versioned ln mc
    → read_outcome r3 (
        if there
        then if big
          then thrown
          else returned (record { result = complete; msg = mv; line1 = []; buf = buf })
        else returned
            (record { result = not_complete; msg = versioned ln m; line1 = []; buf = buf }))
      ≡ read_outcome r (
          if there
          then if big
            then thrown
            else returned (record { result = complete; msg = mc; line1 = ln; buf = buf })
          else returned (record { result = not_complete; msg = m; line1 = ln; buf = buf }))
unfolding read_outcome read_line
outcome_versioned r r3 m mc mv ln buf true true g e = refl
outcome_versioned r r3 m mc mv ln buf true false g e =
    ap
      (λ z.
        RequestOutcome.got
          (record { result = complete; request = record r3 { base = z }; buf = buf }))
      e
    ∙ sym (read_line-Good r r3 m mc ln complete buf g)
outcome_versioned r r3 m mc mv ln buf false big g e =
    sym (read_line-Good r r3 m m ln not_complete buf g)

-- The body is taken alike whether the first line was read before or is read with it.
body_versioned :
    (r r3 : HttpRequest) (copy : Bool) (m : HttpMsg) (ln : Slice) (buf : Bytes)
    → Good r r3 m ln
    → read_outcome r3 (take_body copy (versioned ln m) [] buf)
      ≡ read_outcome r (take_body copy m ln buf)
unfolding take_body
body_versioned r r3 copy m ln buf g =
    outcome_versioned r r3 m _ _ ln buf (leb (end_of m) (length buf)) (ltb max_size m.content_len) g
      (versioned_body copy m ln (take m.content_len (drop m.scanned buf)))

-- The state behind a first part, as `read_line` leaves it.
data Left (r r1 : HttpRequest) (d : Decoding) : Type 0 where
  no_line : (length d.line1 == 0) ≡ true → r1 ≡ record r { base = d.msg } → Left r r1 d
  with_good_line : Good r r1 d.msg d.line1 → r1.base ≡ versioned d.line1 d.msg → Left r r1 d

finish_request-Left :
    (r : HttpRequest) (d : Decoding) (z : RequestDecoding) (o : Option HttpRequest)
    → (length d.line1 == 0) ≡ false
    → is_bad_uri (lined r d.msg d.line1).query_uri ≡ false
    → with_query (lined r d.msg d.line1) (cut_query (lined r d.msg d.line1).query_uri) ≡ o
    → finish_request d.result d.buf o ≡ RequestOutcome.got z
    → z.result ≡ not_complete
    → Left r z.request d × (d.result ≡ not_complete) × (d.buf ≡ z.buf)
unfolding finish_request got_of
finish_request-Left r d z none long slash w e q = absurd (cc e)
finish_request-Left r d z (some r3) long slash w e q =
    let same = some_eq _ _ (ap got_of e) in
    let is_r3 = ap (λ (y : RequestDecoding). y.request) same in
    let kept =
      (query_base (lined r d.msg d.line1) r3 d.msg (cut_query (lined r d.msg d.line1).query_uri)
        w).1 in
    (
      with_good_line (record { long = long; slash = slash; query = w ∙ ap some is_r3 })
          (ap (λ (y : HttpRequest). y.base) (sym is_r3) ∙ sym kept),
      ap (λ (y : RequestDecoding). y.result) same ∙ q,
      ap (λ (y : RequestDecoding). y.buf) same,
    )

read_line-Left :
    (r : HttpRequest) (d : Decoding) (z : RequestDecoding)
    → read_line r d ≡ RequestOutcome.got z
    → z.result ≡ not_complete
    → Left r z.request d × (d.result ≡ not_complete) × (d.buf ≡ z.buf)
unfolding read_line got_of
read_line-Left r d z e q = elim (Bool-cases (length d.line1 == 0)) [
  | inl short ↦
      let same = some_eq _ _ (ap got_of (sym (if_is_true _ _ _ short) ∙ e)) in
      (
        no_line short (ap (λ (y : RequestDecoding). y.request) (sym same)),
        ap (λ (y : RequestDecoding). y.result) same ∙ q,
        ap (λ (y : RequestDecoding). y.buf) same,
      )
  | inr long ↦
      let e1 = sym (if_is_false _ _ _ long) ∙ e in
      elim (Bool-cases (is_bad_uri (lined r d.msg d.line1).query_uri)) [
        | inl bad ↦
            let same = some_eq _ _ (ap got_of (sym (if_is_true _ _ _ bad) ∙ e1)) in
            absurd (error_waits (ap (λ (y : RequestDecoding). y.result) same ∙ q))
        | inr slash ↦
            finish_request-Left r d z _ long slash refl (sym (if_is_false _ _ _ slash) ∙ e1) q
      ]
]

decode_lem :
    (r : HttpRequest) (buf : Bytes) (copy : Bool)
    → decode_request r buf copy ≡ read_outcome r (try_decode_msg r.base buf copy)
unfolding decode_request
decode_lem r buf copy = refl

nil_of : (s : Bytes) → (length s == 0) ≡ true → s ≡ []
nil_of s h = nil_of_length s ((==_iff (length s) 0).0 h)

not_nil : (s : Bytes) → (length s == 0) ≡ false → s ≡ [] → ⊥
not_nil s h e = cc (h, ap (λ t. length t == 0) e)

-- Going on from what a first part left.
parts_go :
    (r r1 : HttpRequest) (a b buf : Bytes) (copy : Bool) (d : Decoding)
    → Left r r1 d
    → Resumed r.base a b copy d
    → d.buf ≡ buf
    → read_outcome r1 (try_decode_msg r1.base (buf ++ b) copy)
      ≡ read_outcome r (try_decode_msg r.base (a ++ b) copy)
parts_go r r1 a b buf copy d (no_line short is_r1) (scanning l q e) f =
    ap₂ (λ (x : HttpRequest) (y : Bytes). read_outcome x (try_decode_msg x.base (y ++ b) copy))
      is_r1 (sym f ∙ q)
    ∙ read_base r d.msg (try_decode_msg d.msg (a ++ b) copy)
    ∙ ap (read_outcome r) e
parts_go r r1 a b buf copy d (no_line short is_r1) (waiting some_body not_done e) f =
    ap₂ (λ (x : HttpRequest) (y : Bytes). read_outcome x (try_decode_msg x.base (y ++ b) copy))
      is_r1 (sym f)
    ∙ read_base r d.msg (try_decode_msg d.msg (d.buf ++ b) copy)
    ∙ ap (read_outcome r) (
        try_waiting d.msg (d.buf ++ b) copy not_done some_body
        ∙ ap (λ l. take_body copy d.msg l (d.buf ++ b)) (sym (nil_of d.line1 short))
        ∙ sym e)
parts_go r r1 a b buf copy d (with_good_line g base) (scanning l q e) f =
    absurd (not_nil d.line1 g.long l)
parts_go r r1 a b buf copy d (with_good_line g base) (waiting some_body not_done e) f =
    ap₂ (λ (m : HttpMsg) (y : Bytes). read_outcome r1 (try_decode_msg m (y ++ b) copy)) base (sym f)
    ∙ ap (read_outcome r1)
        (try_waiting (versioned d.line1 d.msg) (d.buf ++ b) copy not_done some_body)
    ∙ body_versioned r r1 copy d.msg d.line1 (d.buf ++ b) g
    ∙ ap (read_outcome r) (sym e)

returned_of :
    (r : HttpRequest) (o : Outcome) (z : RequestDecoding)
    → read_outcome r o ≡ RequestOutcome.got z
    → (d : Decoding) × (o ≡ returned d) × (read_line r d ≡ RequestOutcome.got z)
unfolding read_outcome
returned_of r (returned d) z e = (d, refl, e)
returned_of r thrown z e = absurd (cc e)
returned_of r Outcome.out_of_fuel z e = absurd (cc e)

-- If a request has come in part and was not complete, then going on with the rest gives what
-- decoding the whole at once gives: the same result, request and buffer, or the same failure.
pub decode_request_parts :
    (r : HttpRequest) (a b : Bytes) (copy : Bool) (z : RequestDecoding)
    → r.base.completed ≡ false
    → decode_request r a copy ≡ RequestOutcome.got z
    → z.result ≡ not_complete
    → decode_request z.request (z.buf ++ b) copy ≡ decode_request r (a ++ b) copy
decode_request_parts r a b copy z c e q =
    let (d, tried, read) =
      returned_of r (try_decode_msg r.base a copy) z (sym (decode_lem r a copy) ∙ e) in
    let (left, waits, buf) = read_line-Left r d z read q in
    decode_lem z.request (z.buf ++ b) copy
    ∙ parts_go r z.request a b z.buf copy d left (resumed r.base a b copy d c tried waits) buf
    ∙ sym (decode_lem r (a ++ b) copy)
