-- ===== src/Http/Decode.antt =====
-- `HttpMsg::tryDecode_`
use handy_copy.Http.{HttpMsg, Result, get_header, complete, not_complete, continue_100, error}
use handy_copy.Http.Headers.{HeaderMap, assign, atoi}
use handy_copy.Slice.{Slice, eat_word, eat_line, sub, trim_space, end_with}
use handy_copy.Conf.{tolower}
use handy_copy.Codec.{to_size}
use handy_copy.Base.{
  Bool, Bytes, [], codes, drop, equal, false, if◌then◌else◌, leb, length, ltb, map, not, suc, take,
  true, zero, ℕ, ◌%◌, ◌&&◌, ◌++◌, ◌+◌, ◌-◌, ◌==◌, ◌^◌, ◌||◌, ◌∷◌,
}

-- "\r\n\r\n"
abbrev pub blank_line : Bytes
blank_line = 13 ∷ 10 ∷ 13 ∷ 10 ∷ []

-- `p[scanned_] == '\r' && memcmp(p + scanned_, "\r\n\r\n", 4) == 0`
abbrev pub at_blank : ℕ → Bytes → Bool
at_blank c s = c == 13 && equal (take 4 (c ∷ s)) blank_line

-- A round of the loop on `scanned_`, if four bytes are left, if they are the blank line, and with
-- what the later rounds give.
abbrev pub scan_round : Bool → Bool → ℕ → ℕ × Bool → ℕ × Bool
scan_round false blank n later = (n, false)
scan_round true true n later = (n, true)
scan_round true false n later = later

-- The loop on the bytes from `scanned_` on: the new `scanned_`, and whether the blank line is there.
unfoldable pub scan : Bytes → ℕ → ℕ × Bool
scan [] n = (n, false)
scan (c ∷ s) n = scan_round (leb 4 (length (c ∷ s))) (at_blank c s) n (scan s (suc n))

-- A header line: it is stored, and its key is lower case in the buffer now; or it is the empty
-- line at the end; or it is bad.
pub data Line : Type 0 where
  stored : HeaderMap → Bytes → Line
  last_line bad_line : Line

-- The line with its key in lower case, where `r` is what is behind the key.
abbrev pub lowered : Slice → Slice → Slice → Bytes
lowered ln k r = take (length ln - (length k + length r)) ln ++ map tolower k ++ r

abbrev pub line_kind : Bool → Bool → HeaderMap → Bytes → Line
line_kind true empty h text = stored h text
line_kind false true h text = last_line
line_kind false false h text = bad_line

unfoldable pub header_line : HeaderMap → Slice → Slice → Line
unfolding eat_word trim_space end_with sub assign
header_line h ln req =
    let (k, r) = eat_word ln in
    let v = trim_space r in
    line_kind (not (length k == 0) && not (length v == 0) && end_with k (b':' ∷ []))
      (length k == 0 && length v == 0 && length req == 0) (assign (sub 0 1 (map tolower k)) v h)
      (lowered ln k r)

-- `headers`, and the text behind the first line as it is in the buffer now.
pub data Lines : Type 0 where
  parsed bad : HeaderMap → Bytes → Lines
  out_of_fuel : Lines

-- The loop on the header lines; `done` is the text before `req`. With one byte left, `eat(2)` goes past
-- the end of `req`, so that the next line is empty and `req` is not: a bad line.
unfoldable pub header_lines : ℕ → HeaderMap → Bytes → Slice → Lines
unfolding eat_line header_line
header_lines zero h done req = Lines.out_of_fuel
header_lines (suc n) h done [] = parsed h done
header_lines (suc n) h done (c ∷ []) = bad h (done ++ c ∷ [])
header_lines (suc n) h done (c ∷ d ∷ req) =
    let (ln, rest) = eat_line req in
    elim (header_line h ln rest) [
      | stored h1 text ↦ header_lines n h1 (done ++ c ∷ d ∷ text) rest
      | last_line ↦ parsed h (done ++ c ∷ d ∷ ln)
      | bad_line ↦ bad h (done ++ c ∷ d ∷ ln ++ rest)
    ]

-- `line1` is what `*line1` is set to, and `buf` the bytes of the buffer.
pub record Decoding : Type 0 where
  pub result : Result
  pub msg : HttpMsg
  pub line1 : Slice
  pub buf : Bytes

-- `thrown` is the `std::length_error` of `body.assign`, for a length above any string's.
pub data Outcome : Type 0 where
  returned : Decoding → Outcome
  thrown out_of_fuel : Outcome

-- `contentLen_ + scanned_`, a `size_t`.
abbrev pub end_of : HttpMsg → ℕ
end_of m = (m.content_len + m.scanned) % 2 ^ 64

abbrev pub max_size : ℕ
max_size = 2 ^ 63 - 1

abbrev pub with_body : Bool → HttpMsg → Bytes → HttpMsg
with_body copy m b =
    if copy
    then record m { body = b; completed = true; scanned = end_of m }
    else record m { body2 = b; completed = true; scanned = end_of m }

-- The part from `if (!complete_ && ...)` on.
unfoldable pub take_body : Bool → HttpMsg → Slice → Bytes → Outcome
take_body copy m line1 buf =
    if leb (end_of m) (length buf)
    then if ltb max_size m.content_len
      then thrown
      else returned (record {
        result = complete;
        msg = with_body copy m (take m.content_len (drop m.scanned buf));
        line1 = line1;
        buf = buf;
      })
    else returned (record { result = not_complete; msg = m; line1 = line1; buf = buf })

-- The message behind its header lines.
abbrev pub with_headers : HttpMsg → HeaderMap → HttpMsg
with_headers m h = record m {
  headers = h;
  scanned = m.scanned + 4;
  content_len = to_size (atoi (get_header h (codes "content-length")));
}

unfoldable pub after_lines : Bool → HttpMsg → Slice → Bytes → Lines → Outcome
unfolding take_body
after_lines copy m line1 rest (parsed h text) =
    let m1 = with_headers m h in
    let buf = line1 ++ text ++ rest in
    if ltb (length buf) (end_of m1) && not (length (get_header h (codes "Expect")) == 0)
    then returned (record { result = continue_100; msg = m1; line1 = line1; buf = buf })
    else take_body copy m1 line1 buf
after_lines copy m line1 rest (bad h text) = returned (record {
  result = error;
  msg = record m { headers = h };
  line1 = line1;
  buf = line1 ++ text ++ rest;
})
after_lines copy m line1 rest Lines.out_of_fuel = Outcome.out_of_fuel

-- The message whose `scanned_` is at the blank line.
unfoldable pub take_header : Bool → HttpMsg → Bytes → Outcome
unfolding after_lines header_lines eat_line
take_header copy m buf =
    let (line1, req) = eat_line (take m.scanned buf) in
    after_lines copy m line1 (drop m.scanned buf) (header_lines (suc (length req)) m.headers [] req)

unfoldable pub after_scan : Bool → HttpMsg → Bytes → ℕ × Bool → Outcome
unfolding take_header
after_scan copy m buf (n, found) =
    if not found || n == 0
    then returned
        (record { result = not_complete; msg = record m { scanned = n }; line1 = []; buf = buf })
    else take_header copy (record m { scanned = n }) buf

-- `tryDecode_`
unfoldable pub try_decode_msg : HttpMsg → Bytes → Bool → Outcome
unfolding after_scan scan take_body
try_decode_msg m buf copy =
    if m.completed
    then returned (record { result = complete; msg = m; line1 = []; buf = buf })
    else if m.content_len == 0
    then after_scan copy m buf (scan (drop m.scanned buf) m.scanned)
    else take_body copy m [] buf
