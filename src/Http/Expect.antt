-- ===== src/Http/Expect.antt =====
-- The keys that a decoding stores are in lower case, and "Expect" is not.
use handy_copy.Http.{HttpMsg, Result, complete, not_complete, error, continue_100, get_header}
use handy_copy.Http.Headers.{HeaderMap, assign, lookup, find, or_else}
use handy_copy.Http.Decode.{
  Decoding, Line, Lines, Outcome, after_lines, after_scan, bad, header_line, header_lines,
  line_kind, parsed, returned, scan, stored, take_body, take_header, thrown, try_decode_msg,
  with_body, end_of, max_size, with_headers,
}
use handy_copy.Http.Request.{
  HttpRequest, RequestOutcome, cut_query, decode_request, finish_request, is_bad_uri, read_line,
  read_outcome, with_line, with_query, with_args, parse_args,
}
use handy_copy.Http.Server.{
  Act, HttpConn, handle_read, continue_text, request_act, request_read, send,
}
use handy_copy.Slice.{Slice, eat_word, eat_line, sub, same, less}
use handy_copy.Slice.Order.{same_iff}
use handy_copy.Conf.{tolower}
use handy_copy.Base.{
  All, Bool, Bool-cases, Bytes, [], ap, arith, codes, false, if_both, if_is_false, inl, inr, length,
  map, not, refl, subst, suc, sym, take, true, zero, ℕ, ◌&&◌, ◌++◌, ◌-◌, ◌==◌, ◌∙◌, ◌∷◌, ◌≡◌, ◌≢◌,
  Option, drop, if◌then◌else◌, leb, ltb, none, some, ◌||◌,
}

abbrev Lower : Bytes → Type 0
Lower = All (λ c. tolower c ≡ c)

abbrev pub LowerKeys : HeaderMap → Type 0
LowerKeys = All (λ (p : Bytes × Bytes). Lower p.0)

tolower_twice : (c : ℕ) → tolower (tolower c) ≡ tolower c
tolower_twice c = ground arith

map-Lower : (s : Bytes) → Lower (map tolower s)
map-Lower [] = tt
map-Lower (c ∷ s) = (tolower_twice c, map-Lower s)

take-Lower : (n : ℕ) (s : Bytes) → Lower s → Lower (take n s)
take-Lower zero s h = tt
take-Lower (suc n) [] h = tt
take-Lower (suc n) (c ∷ s) h = (h.0, take-Lower n s h.1)

key-Lower : (k : Bytes) → Lower (sub 0 1 (map tolower k))
unfolding sub
key-Lower k = take-Lower (length (map tolower k) - 1) (map tolower k) (map-Lower k)

not_Lower : Lower (codes "Expect") → ⊥
not_Lower h = absurd (omega (arith, h.0))

-- "Expect" is not there.
no_expect : (h : HeaderMap) → LowerKeys h → get_header h (codes "Expect") ≡ []
unfolding get_header find lookup
no_expect [] l = refl
no_expect ((k, v) ∷ h) l = elim (Bool-cases (same (codes "Expect") k)) [
  | inl e ↦ absurd (not_Lower (subst Lower (sym ((same_iff (codes "Expect") k).0 e)) l.0))
  | inr n ↦ ap (or_else []) (if_is_false _ _ _ n) ∙ no_expect h l.1
]

assign-LowerKeys : (k v : Bytes) (h : HeaderMap) → Lower k → LowerKeys h → LowerKeys (assign k v h)
unfolding assign
assign-LowerKeys k v [] lk lh = (lk, tt)
assign-LowerKeys k v ((k1, v1) ∷ h) lk lh =
    if_both LowerKeys (same k k1) (lk, lh.1)
      (if_both LowerKeys (less k k1) (lk, lh) (lh.0, assign-LowerKeys k v h lk lh.1))

abbrev LowerLine : Line → Type 0
LowerLine (stored h text) = LowerKeys h
LowerLine Line.last_line = Unit
LowerLine Line.bad_line = Unit

kind-LowerLine :
    (a b : Bool) (h : HeaderMap) (t : Bytes) → LowerKeys h → LowerLine (line_kind a b h t)
kind-LowerLine true b h t l = l
kind-LowerLine false true h t l = tt
kind-LowerLine false false h t l = tt

header_line-LowerLine :
    (h : HeaderMap) (ln req : Slice) → LowerKeys h → LowerLine (header_line h ln req)
unfolding header_line
header_line-LowerLine h ln req l =
    kind-LowerLine _ _ _ _ (assign-LowerKeys _ _ h (key-Lower (eat_word ln).0) l)

abbrev LowerLines : Lines → Type 0
LowerLines (parsed h text) = LowerKeys h
LowerLines (bad h text) = LowerKeys h
LowerLines Lines.out_of_fuel = Unit

follow :
    (n : ℕ) (h : HeaderMap) (done : Bytes) (c d : ℕ) (ln rest : Slice) (o : Line)
    → LowerKeys h
    → LowerLine o
    → ((h1 : HeaderMap) (text : Bytes) → LowerKeys h1 → LowerLines (header_lines n h1 text rest))
    → LowerLines (elim o [
      | stored h1 text ↦ header_lines n h1 (done ++ c ∷ d ∷ text) rest
      | Line.last_line ↦ parsed h (done ++ c ∷ d ∷ ln)
      | Line.bad_line ↦ bad h (done ++ c ∷ d ∷ ln ++ rest)
    ])
follow n h done c d ln rest (stored h1 text) l lo ih = ih h1 (done ++ c ∷ d ∷ text) lo
follow n h done c d ln rest Line.last_line l lo ih = l
follow n h done c d ln rest Line.bad_line l lo ih = l

header_lines-LowerLines :
    (n : ℕ) (h : HeaderMap) (done : Bytes) (req : Slice)
    → LowerKeys h
    → LowerLines (header_lines n h done req)
unfolding header_lines
header_lines-LowerLines zero h done req l = tt
header_lines-LowerLines (suc n) h done [] l = l
header_lines-LowerLines (suc n) h done (c ∷ []) l = l
header_lines-LowerLines (suc n) h done (c ∷ d ∷ req) l =
    follow n h done c d (eat_line req).0 (eat_line req).1
      (header_line h (eat_line req).0 (eat_line req).1) l
      (header_line-LowerLine h (eat_line req).0 (eat_line req).1 l)
      (λ h1 text l1. header_lines-LowerLines n h1 text (eat_line req).1 l1)

-- The result is not `Continue100`, and the keys are in lower case.
abbrev Silent : Outcome → Type 0
Silent (returned d) = (d.result ≢ continue_100) × LowerKeys d.msg.headers
Silent thrown = Unit
Silent Outcome.out_of_fuel = Unit

complete_silent : complete ≢ continue_100
complete_silent e = cc e

waits_silent : not_complete ≢ continue_100
waits_silent e = cc e

error_silent : error ≢ continue_100
error_silent e = cc e

with_body_headers :
    (copy : Bool) (m : HttpMsg) (b : Bytes)
    → LowerKeys m.headers
    → LowerKeys (with_body copy m b).headers
with_body_headers true m b l = l
with_body_headers false m b l = l

two-Silent : (b : Bool) (x y : Outcome) → Silent x → Silent y → Silent (if b then x else y)
two-Silent true x y sx sy = sx
two-Silent false x y sx sy = sy

-- The three ways of `take_body`.
three-Silent :
    (there big : Bool) (d d1 : Decoding)
    → Silent (returned d)
    → Silent (returned d1)
    → Silent (if there then if big then thrown else returned d else returned d1)
three-Silent true true d d1 s s1 = tt
three-Silent true false d d1 s s1 = s
three-Silent false big d d1 s s1 = s1

take_body-Silent :
    (copy : Bool) (m : HttpMsg) (line1 buf : Bytes)
    → LowerKeys m.headers
    → Silent (take_body copy m line1 buf)
unfolding take_body
take_body-Silent copy m line1 buf l =
    let whole = with_body copy m (take m.content_len (drop m.scanned buf)) in
    three-Silent (leb (end_of m) (length buf)) (ltb max_size m.content_len)
      (record { result = complete; msg = whole; line1 = line1; buf = buf })
      (record { result = not_complete; msg = m; line1 = line1; buf = buf })
      (complete_silent, with_body_headers copy m (take m.content_len (drop m.scanned buf)) l)
      (waits_silent, l)

and_false : (a : Bool) → (a && false) ≡ false
and_false a = ground arith

and_not_zero : (a : Bool) (s : Bytes) → s ≡ [] → (a && not (length s == 0)) ≡ false
and_not_zero a s e = ap (λ t. a && not (length t == 0)) e ∙ and_false a

after_lines-Silent :
    (copy : Bool) (m : HttpMsg) (line1 rest : Bytes) (l : Lines)
    → LowerLines l
    → Silent (after_lines copy m line1 rest l)
unfolding after_lines
after_lines-Silent copy m line1 rest (parsed h text) l =
    subst Silent
      (sym (if_is_false _ _ _ (and_not_zero _ (get_header h (codes "Expect")) (no_expect h l))))
      (take_body-Silent copy (with_headers m h) line1 (line1 ++ text ++ rest) l)
after_lines-Silent copy m line1 rest (bad h text) l = (error_silent, l)
after_lines-Silent copy m line1 rest Lines.out_of_fuel l = tt

take_header-Silent :
    (copy : Bool) (m : HttpMsg) (buf : Bytes)
    → LowerKeys m.headers
    → Silent (take_header copy m buf)
unfolding take_header
take_header-Silent copy m buf l =
    let (line1, req) = eat_line (take m.scanned buf) in
    after_lines-Silent copy m line1 (drop m.scanned buf)
      (header_lines (suc (length req)) m.headers [] req)
      (header_lines-LowerLines (suc (length req)) m.headers [] req l)

after_scan-Silent :
    (copy : Bool) (m : HttpMsg) (buf : Bytes) (p : ℕ × Bool)
    → LowerKeys m.headers
    → Silent (after_scan copy m buf p)
unfolding after_scan
after_scan-Silent copy m buf (n, found) l =
    two-Silent (not found || n == 0)
      (returned
        (record { result = not_complete; msg = record m { scanned = n }; line1 = []; buf = buf }))
      (take_header copy (record m { scanned = n }) buf) (waits_silent, l)
      (take_header-Silent copy (record m { scanned = n }) buf l)

try-Silent :
    (m : HttpMsg) (buf : Bytes) (copy : Bool)
    → LowerKeys m.headers
    → Silent (try_decode_msg m buf copy)
unfolding try_decode_msg
try-Silent m buf copy l =
    two-Silent m.completed (returned (record { result = complete; msg = m; line1 = []; buf = buf }))
      (if m.content_len == 0
        then after_scan copy m buf (scan (drop m.scanned buf) m.scanned)
        else take_body copy m [] buf)
      (complete_silent, l)
      (two-Silent (m.content_len == 0) (after_scan copy m buf (scan (drop m.scanned buf) m.scanned))
        (take_body copy m [] buf)
        (after_scan-Silent copy m buf (scan (drop m.scanned buf) m.scanned) l)
        (take_body-Silent copy m [] buf l))

abbrev SilentRequest : RequestOutcome → Type 0
SilentRequest (RequestOutcome.got z) = (z.result ≢ continue_100) × LowerKeys z.request.base.headers
SilentRequest RequestOutcome.failed = Unit
SilentRequest RequestOutcome.out_of_fuel = Unit

args-Silent :
    (res : Result) (buf : Bytes) (r : HttpRequest) (front : Bytes) (o : Option HeaderMap)
    → res ≢ continue_100
    → LowerKeys r.base.headers
    → SilentRequest (finish_request res buf (with_args r front o))
unfolding finish_request
args-Silent res buf r front none e l = tt
args-Silent res buf r front (some args) e l = (e, l)

query-Silent :
    (res : Result) (buf : Bytes) (r : HttpRequest) (p : Bytes × Option Bytes)
    → res ≢ continue_100
    → LowerKeys r.base.headers
    → SilentRequest (finish_request res buf (with_query r p))
unfolding with_query finish_request
query-Silent res buf r (front, none) e l = (e, l)
query-Silent res buf r (front, some qs) e l =
    args-Silent res buf r front (parse_args (length qs) r.args qs) e l

-- The three ways of `read_line`.
line-Silent :
    (short wrong : Bool) (x y z : RequestOutcome)
    → SilentRequest x
    → SilentRequest y
    → SilentRequest z
    → SilentRequest (if short then x else if wrong then y else z)
line-Silent true wrong x y z sx sy sz = sx
line-Silent false true x y z sx sy sz = sy
line-Silent false false x y z sx sy sz = sz

read-Silent : (r : HttpRequest) (o : Outcome) → Silent o → SilentRequest (read_outcome r o)
unfolding read_outcome read_line
read-Silent r (returned d) (e, l) =
    let r1 = record r { base = d.msg } in
    let r2 = with_line r1 d.line1 in
    line-Silent (length d.line1 == 0) (is_bad_uri r2.query_uri)
      (RequestOutcome.got (record { result = d.result; request = r1; buf = d.buf }))
      (RequestOutcome.got (record { result = error; request = r2; buf = d.buf }))
      (finish_request d.result d.buf (with_query r2 (cut_query r2.query_uri))) (e, l)
      (error_silent, l) (query-Silent d.result d.buf r2 (cut_query r2.query_uri) e l)
read-Silent r thrown s = tt
read-Silent r Outcome.out_of_fuel s = tt

-- The acts of a server that are not the answer "100 Continue".
abbrev pub NoContinue : Option (HttpConn × Act) → Type 0
NoContinue none = Unit
NoContinue (some (con, act)) = (act ≢ send continue_text) × LowerKeys con.req.base.headers

act_silent : (r : Result) → r ≢ continue_100 → request_act r ≢ send continue_text
act_silent error n e = cc e
act_silent complete n e = cc e
act_silent not_complete n e = cc e
act_silent continue_100 n e = n refl

request_NoContinue :
    (con : HttpConn) (o : RequestOutcome) → SilentRequest o → NoContinue (request_read con o)
request_NoContinue con (RequestOutcome.got z) (e, l) = (act_silent z.result e, l)
request_NoContinue con RequestOutcome.failed s = tt
request_NoContinue con RequestOutcome.out_of_fuel s = tt

-- If the keys of the headers of its request are in lower case, as they are when there are none
-- and as the decoding leaves them, then `handleRead` of a server does not send "100 Continue",
-- whatever arrives.
pub handle_read-NoContinue :
    (con : HttpConn)
    → con.is_client ≡ false
    → LowerKeys con.req.base.headers
    → NoContinue (handle_read con)
unfolding handle_read decode_request
handle_read-NoContinue con server l = subst NoContinue (sym (if_is_false _ _ _ server)) (
    request_NoContinue con (read_outcome con.req (try_decode_msg con.req.base con.input true)) (
      read-Silent con.req (try_decode_msg con.req.base con.input true)
        (try-Silent con.req.base con.input true l)))
